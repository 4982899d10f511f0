-- ===== src/Apps/Image.antt =====
-- The app slots of the flash image: `slot_base`, `read_slot`, `list_apps`, `install`, `erase` and
-- `apps_json` of tools/uvk5_apps.py.
pub mod Local
pub mod Put
pub mod Install
pub mod Erase
pub mod Table
mod Tests
use Prim.Native.String.{String}
use uv_k5_v3_emulator.Common.{
  ℕ, zero, suc, ◌+◌, ◌*◌, Bool, true, false, Option, none, some, List, [], ◌∷◌, ◌++◌, ◌&&◌, ◌||◌,
  ltb, leb, ◌==◌, if◌then◌else◌, length, not,
}
use uv_k5_v3_emulator.Common.Slices.{slice, splice, fill}
use uv_k5_v3_emulator.Common.Words.{Bytes, bytes_eq, u32_at}
use uv_k5_v3_emulator.Common.Text.{Text}
use uv_k5_v3_emulator.Common.Result.{Result, ok, err, ◌>>=◌, ◌>>◌, raise_if}
use uv_k5_v3_emulator.Apps.Header.{
  AppError, slot_out_of_range, image_too_small, occupied, Info, hdr_size, parse,
}

abbrev pub region_base : ℕ
region_base = 0x00102000

abbrev pub slot_stride : ℕ
slot_stride = 0x0002000

abbrev pub code_offset : ℕ
code_offset = 0x00001000

abbrev pub slot_count : ℕ
slot_count = 16

unfoldable pub slot_base : ℕ → Result AppError ℕ
slot_base slot =
    if not (ltb slot slot_count)
    then err (slot_out_of_range slot)
    else ok (region_base + slot * slot_stride)

-- What a slot holds that is not empty: `magic` is the text of its first four bytes.
pub data Content : Type 0 where
  firmware : Bytes → Content
  unknown : Bytes → Content
  unreadable : Content
  app : Info → Content

-- `any(raw)`
unfoldable pub any_set : Bytes → Bool
any_set [] = false
any_set (b ∷ bs) = not (b == 0) || any_set bs

abbrev pub erased_word : Bytes
erased_word = 0xff ∷ 0xff ∷ 0xff ∷ 0xff ∷ []

abbrev pub fap1 : Bytes
fap1 = 0x46 ∷ 0x41 ∷ 0x50 ∷ 0x31 ∷ []

abbrev pub fmb1 : Bytes
fmb1 = 0x46 ∷ 0x4d ∷ 0x42 ∷ 0x31 ∷ []

abbrev pub readable : Result AppError Info → Content
readable (ok info) = app info
readable (err e) = unreadable

-- What the bytes of a whole slot mean.
unfoldable pub slot_content : Bytes → Option Content
slot_content raw =
    if bytes_eq (slice raw 0 4) erased_word || not (any_set raw)
    then none
    else if not (bytes_eq (slice raw 0 4) fap1)
    then (if bytes_eq (slice raw 0 4) fmb1
        then some (firmware (slice raw 0 4))
        else some (unknown (slice raw 0 4)))
    else some (
        readable (
          parse (slice raw 0 hdr_size ++ slice raw code_offset (code_offset + u32_at raw 8)) false))

unfoldable pub read_at : Bytes → ℕ → Option Content
read_at image base =
    if ltb (length image) (base + slot_stride)
    then none
    else slot_content (slice image base (base + slot_stride))

unfoldable pub read_slot : Bytes → ℕ → Result AppError (Option Content)
read_slot image slot = do base ← slot_base slot; ok (read_at image base)

-- `occupied is not None and occupied.get("kind") not in ("app",)`
abbrev pub is_foreign : Option Content → Bool
is_foreign none = false
is_foreign (some (app info)) = false
is_foreign (some (firmware m)) = true
is_foreign (some (unknown m)) = true
is_foreign (some unreadable) = true

-- The writes of `install`: the slot is erased, then it gets the header and the code.
unfoldable pub put_app : Bytes → ℕ → Bytes → ℕ → Bytes
put_app image base blob code_size =
    let erased = fill image base slot_stride 0xff in
    let headed = splice erased base (base + hdr_size) (slice blob 0 hdr_size) in
    let code = slice blob hdr_size (hdr_size + code_size) in
    splice headed (base + code_offset) (base + code_offset + length code) code

-- The image after the call, and the result.
unfoldable pub install : Bytes → ℕ → Bytes → Bool → Result AppError (Info × Bytes)
install image slot blob force = do
  info ← parse blob true
  base ← slot_base slot
  raise_if (ltb (length image) (base + slot_stride)) (image_too_small slot)
  found ← if force then ok none else read_slot image slot
  raise_if (is_foreign found) (occupied slot)
  ok (info, put_app image base blob info.code_size)

unfoldable pub erase : Bytes → ℕ → Result AppError (ℕ × Bytes)
erase image slot = do
  base ← slot_base slot
  raise_if (ltb (length image) (base + slot_stride)) (image_too_small slot)
  ok (base, fill image base slot_stride 0xff)

-- `install_file` and `erase_file`: the content that the file is left with, beside the result.
unfoldable pub install_file : Bytes → ℕ → Bytes → Bool → Result AppError Info × Bytes
install_file file slot blob force = elim (install file slot blob force) [
  | err e ↦ (err e, file)
  | ok (info, image) ↦ (ok info, image)
]

unfoldable pub erase_file : Bytes → ℕ → Result AppError ℕ × Bytes
erase_file file slot = elim (erase file slot) [
  | err e ↦ (err e, file)
  | ok (base, image) ↦ (ok base, image)
]
