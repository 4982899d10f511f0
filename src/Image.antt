-- ===== src/Image.antt =====
-- tools/uvk5_image.py: which image to boot, and where the loader has to put it.
pub mod Detect
pub mod Slot
mod Tests
use uv_k5_v3_emulator.Common.{
  ℕ, ◌+◌, ◌*◌, Bool, true, false, Option, none, some, List, [], ◌∷◌, ◌&&◌, ltb, leb, ◌==◌,
  if◌then◌else◌, length, not,
}
use uv_k5_v3_emulator.Common.Slices.{slice}
use uv_k5_v3_emulator.Common.Words.{Bytes, bytes_eq, u32_at}
use uv_k5_v3_emulator.Common.Text.{Text}
use uv_k5_v3_emulator.Common.Result.{Result, ok, err, ◌>>=◌, ◌>>◌, raise_if}

abbrev pub flash_base : ℕ
flash_base = 0x08000000

abbrev pub app_offset : ℕ
app_offset = 0x2800

abbrev pub sram_base : ℕ
sram_base = 0x20000000

abbrev pub sram_top : ℕ
sram_top = 0x20004000

abbrev pub elf_magic : Bytes
elf_magic = 0x7f ∷ 0x45 ∷ 0x4c ∷ 0x46 ∷ []

abbrev pub max_image : ℕ
max_image = 4 * 1024 * 1024

pub data ImageError : Type 0 where
  no_such_file : Text → ImageError
  empty_file : ImageError
  too_large : ℕ → ImageError
  no_vector_table : ImageError

pub data Kind : Type 0 where
  application : Kind
  full_flash : Kind
  elf : Kind

pub record ImageInfo : Type 0 where
  pub path : Text
  pub kind : Kind
  pub app_offset : ℕ
  pub size : ℕ
  pub sp : Option ℕ
  pub reset : Option ℕ

-- `_vector_at`
unfoldable pub vector_at : Bytes → ℕ → Option (ℕ × ℕ)
vector_at content offset =
    if ltb (length content) (offset + 8)
    then none
    else (let sp' = u32_at content offset in
        let reset' = u32_at content (offset + 4) in
        if not (ltb sram_base sp' && leb sp' sram_top)
        then none
        else if not (leb flash_base reset' && ltb reset' (flash_base + length content))
        then none
        else some (sp', reset'))

abbrev pub vector_info : Text → Kind → ℕ → ℕ → ℕ → ℕ → ImageInfo
vector_info path kind offset size sp reset = record {
  path = path;
  kind = kind;
  app_offset = offset;
  size = size;
  sp = some sp;
  reset = some reset;
}

-- The kind of an image with a vector table.
unfoldable pub by_vector : Text → ℕ → Option (ℕ × ℕ) → Result ImageError ImageInfo
by_vector path size none = err no_vector_table
by_vector path size (some (sp', reset')) =
    if ltb reset' (flash_base + app_offset)
    then ok (vector_info path full_flash 0 size sp' reset')
    else ok (vector_info path application app_offset size sp' reset')

abbrev pub elf_info : Text → ℕ → ImageInfo
elf_info path size = record {
  path = path;
  kind = elf;
  app_offset = app_offset;
  size = size;
  sp = none;
  reset = none;
}

unfoldable pub image_of : Text → Bytes → Result ImageError ImageInfo
image_of path content =
    if bytes_eq (slice content 0 4) elf_magic
    then ok (elf_info path (length content))
    else by_vector path (length content) (vector_at content 0)

-- The content of a file that can be read.
unfoldable pub detect_content : Text → Bytes → Result ImageError ImageInfo
detect_content path content = do
  raise_if (length content == 0) empty_file
  raise_if (ltb max_image (length content)) (too_large (length content))
  image_of path content

-- The files of the host: `none` is a path where no file is.
abbrev pub Files : Type 0
Files = Text → Option Bytes

abbrev pub detect_file : Text → Option Bytes → Result ImageError ImageInfo
detect_file path none = err (no_such_file path)
detect_file path (some content) = detect_content path content

unfoldable pub detect : Files → Text → Result ImageError ImageInfo
detect files path = detect_file path (files path)
