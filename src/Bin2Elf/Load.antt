-- ===== src/Bin2Elf/Load.antt =====
-- What a loader of ELF files makes of the file.
use uv_k5_v3_emulator.Common.{
  ℕ, zero, suc, ◌+◌, ◌-◌, ◌%◌, ◌^◌, ◌≤◌, ◌<◌, ◌≡◌, ◌≢◌, refl, ap, sym, ◌∙◌, arith, inl, inr, [],
  ◌∷◌, ◌++◌, length, length-replicate, get_elem?,
}
use mathlib.Core.List.{append_assoc}
use uv_k5_v3_emulator.Common.Slices.{slice, slice_suffix, get_elem?-slice}
use uv_k5_v3_emulator.Common.Words.{Bytes, IsBytes, pack32, pack32_value, u32_at, byte_at}
use uv_k5_v3_emulator.Common.Result.{ok, Result-cases}
use uv_k5_v3_emulator.Bin2Elf.{elf_header, program_header, padding, build_elf}

-- The one segment of a file with one program header: where it goes, its bytes, and the entry point.
pub record Segment : Type 0 where
  pub address : ℕ
  pub content : Bytes
  pub entry : ℕ

unfoldable pub load : Bytes → Segment
load file =
    let phoff = u32_at file 28 in
    let offset = u32_at file (phoff + 4) in
    record {
      address = u32_at file (phoff + 12);
      content = slice file offset (offset + u32_at file (phoff + 16));
      entry = u32_at file 24;
    }

-- What `build_elf` has checked.
pub record Built (image : Bytes) (base : ℕ) (elf : Bytes) : Type 0 where
  pub long : 8 ≤ length image
  pub sp_low : 0x20000000 ≤ u32_at image 0
  pub sp_high : u32_at image 0 ≤ 0x20004000
  pub reset_in : (base ≤ u32_at image 4) × (u32_at image 4 ≤ base + length image)
  pub base_fits : base < 2 ^ 32
  pub size_fits : length image < 2 ^ 32
  pub content :
      elf
      ≡ elf_header (u32_at image 4)
        ++ (program_header (base % 0x10000) base (length image)
            ++ (padding (base % 0x10000) ++ image))

pub build_elf-Built :
    (image : Bytes) (base : ℕ) (elf : Bytes) → build_elf image base ≡ ok elf → Built image base elf
unfolding build_elf
build_elf-Built image base elf h = record {
  long = ground arith;
  sp_low = ground arith;
  sp_high = ground arith;
  reset_in = (ground arith, ground arith);
  base_fits = ground arith;
  size_fits = ground arith;
  content = ground arith;
}

byte_at-lt : (bs : Bytes) (i : ℕ) → IsBytes bs → byte_at bs i < 256
unfolding byte_at get_elem?
byte_at-lt [] i h = omega arith
byte_at-lt (b ∷ bs) zero h = h.0
byte_at-lt (b ∷ bs) (suc i) h = byte_at-lt bs i h.1

u32_at-lt : (bs : Bytes) (i : ℕ) → IsBytes bs → u32_at bs i < 2 ^ 32
unfolding u32_at
u32_at-lt bs i h = omega (
  arith,
  byte_at-lt bs i h,
  byte_at-lt bs (i + 1) h,
  byte_at-lt bs (i + 2) h,
  byte_at-lt bs (i + 3) h,
)

module _ (reset p_offset base size : ℕ) (rest : Bytes) where
  abbrev file : Bytes
  file = elf_header reset ++ (program_header p_offset base size ++ rest)

  offsets : (u32_at file 28 ≡ 52) × (u32_at file (52 + 4) ≡ u32_at (pack32 p_offset) 0)
  unfolding elf_header program_header u32_at byte_at get_elem?
  offsets = (refl, refl)

  fields :
      reset < 2 ^ 32
      → p_offset < 2 ^ 32
      → base < 2 ^ 32
      → size < 2 ^ 32
      → (u32_at file 24 ≡ reset)
        × (u32_at file 28 ≡ 52)
        × (u32_at file 56 ≡ p_offset)
        × (u32_at file 64 ≡ base)
        × (u32_at file 68 ≡ size)
  unfolding elf_header program_header u32_at byte_at get_elem?
  fields r o b s = (
    pack32_value reset r,
    refl,
    pack32_value p_offset o,
    pack32_value base b,
    pack32_value size s,
  )

  load-file :
      reset < 2 ^ 32
      → p_offset < 2 ^ 32
      → base < 2 ^ 32
      → size < 2 ^ 32
      → load file
        ≡ record { address = base; content = slice file p_offset (p_offset + size); entry = reset }
  unfolding load
  load-file r o b s =
      let (e24, e28, e56, e64, e68) = fields r o b s in rw (e28, e24, e56, e64, e68) refl

front_length :
    (reset p_offset base size : ℕ)
    → 84 ≤ p_offset
    → length (elf_header reset ++ (program_header p_offset base size ++ padding p_offset))
      ≡ p_offset
unfolding elf_header program_header padding
front_length reset p_offset base size h =
    omega (arith, length-replicate {0} {A = ℕ} (p_offset - 84) 0)

-- The image stands at `p_offset` if the headers end before it.
image_at :
    (reset p_offset base : ℕ) (image : Bytes)
    → 84 ≤ p_offset
    → slice
        (elf_header reset
          ++ (program_header p_offset base (length image) ++ (padding p_offset ++ image)))
        p_offset
        (p_offset + length image)
      ≡ image
image_at reset p_offset base image h =
    let head = program_header p_offset base (length image) in
    let pad = padding p_offset in
    let front = elf_header reset ++ (head ++ pad) in
    let same : elf_header reset ++ (head ++ (pad ++ image)) ≡ front ++ image =
      ap (λ r. elf_header reset ++ r) (sym (append_assoc head pad image))
      ∙ sym (append_assoc (elf_header reset) (head ++ pad) image) in
    rw same (
      slice_suffix front image p_offset (p_offset + length image)
        (front_length reset p_offset base (length image) h) refl)

reset-lt :
    (image : Bytes) (base : ℕ) (elf : Bytes)
    → IsBytes image
    → Built image base elf
    → u32_at image 4 < 2 ^ 32
reset-lt image base elf bytes b = u32_at-lt image 4 bytes

-- A file that `build_elf` returns for a base whose low sixteen bits are at least 84 loads as it
-- should: the bytes of the segment are the image, at the base, and the entry point is the image's
-- own reset vector, which lies in it.
pub load-build_elf :
    (image : Bytes) (base : ℕ) (elf : Bytes)
    → IsBytes image
    → 84 ≤ base % 0x10000
    → build_elf image base ≡ ok elf
    → (load elf ≡ record { address = base; content = image; entry = u32_at image 4 })
      × (base ≤ u32_at image 4)
      × (u32_at image 4 ≤ base + length image)
load-build_elf image base elf bytes apart h =
    let b = build_elf-Built image base elf h in
    let reset = u32_at image 4 in
    let p_offset = base % 0x10000 in
    let rest = padding p_offset ++ image in
    let loaded =
      load-file reset p_offset base (length image) rest (reset-lt image base elf bytes b)
        (omega arith) b.base_fits b.size_fits in
    (
      ap load b.content
          ∙ loaded
          ∙ ap (λ c. record { address = base; content = c; entry = reset })
              (image_at reset p_offset base image apart),
      b.reset_in.0,
      b.reset_in.1,
    )

file_start :
    (reset p_offset base size : ℕ) (rest : Bytes)
    → u32_at (elf_header reset ++ (program_header p_offset base size ++ rest)) 0 ≡ 0x464c457f
unfolding elf_header u32_at byte_at get_elem?
file_start reset p_offset base size rest = refl

slice_start : (file : Bytes) (n : ℕ) → 4 ≤ n → u32_at (slice file 0 (0 + n)) 0 ≡ u32_at file 0
unfolding u32_at byte_at
slice_start file n h = ground (
  arith,
  get_elem?-slice file 0 (0 + n) 0,
  get_elem?-slice file 0 (0 + n) 1,
  get_elem?-slice file 0 (0 + n) 2,
  get_elem?-slice file 0 (0 + n) 3,
)

-- A file for such a base loads from its own first byte on.
aligned_load :
    (image : Bytes) (base : ℕ) (elf : Bytes)
    → IsBytes image
    → base % 0x10000 ≡ 0
    → build_elf image base ≡ ok elf
    → (load elf).address ≡ base
      × (load elf).content ≡ slice elf 0 (length image)
      × (u32_at (slice elf 0 (length image)) 0 ≡ 0x464c457f)
aligned_load image base elf bytes aligned h =
    let b = build_elf-Built image base elf h in
    let reset = u32_at image 4 in
    let rest = padding 0 ++ image in
    let file' = elf_header reset ++ (program_header 0 base (length image) ++ rest) in
    let content : elf ≡ file' = rw⁻¹ aligned b.content in
    let loaded =
      load-file reset 0 base (length image) rest (reset-lt image base elf bytes b) (omega arith)
        b.base_fits b.size_fits in
    let zero_plus : 0 + length image ≡ length image = omega arith in
    let same : load elf
        ≡ record { address = base; content = slice elf 0 (length image); entry = reset } =
      rw content (
        loaded
        ∙ ap (λ n. record { address = base; content = slice file' 0 n; entry = reset })
            zero_plus) in
    let start : u32_at elf 0 ≡ 0x464c457f =
      ap (λ f. u32_at f 0) content ∙ file_start reset 0 base (length image) rest in
    (
      ap (λ s. s.address) same,
      ap (λ s. s.content) same,
      ap (λ n. u32_at (slice elf 0 n) 0) (sym zero_plus)
          ∙ slice_start elf (length image) (omega (arith, b.long))
          ∙ start,
    )

-- What `build_elf` asks of an image and a base: a vector table with a stack pointer in SRAM and a reset
-- handler in the image, and numbers that fit their fields.
pub record IsBootable (image : Bytes) (base : ℕ) : Type 0 where
  pub long : 8 ≤ length image
  pub sp_low : 0x20000000 ≤ u32_at image 0
  pub sp_high : u32_at image 0 ≤ 0x20004000
  pub reset_low : base ≤ u32_at image 4 - u32_at image 4 % 2
  pub reset_high : u32_at image 4 - u32_at image 4 % 2 < base + length image
  pub base_fits : base < 2 ^ 32
  pub size_fits : length image < 2 ^ 32

build_elf-IsBootable :
    (image : Bytes) (base : ℕ)
    → IsBootable image base
    → (elf : Bytes) × (build_elf image base ≡ ok elf)
unfolding build_elf
build_elf-IsBootable image base b =
    let long = b.long in
    let sp_low = b.sp_low in
    let sp_high = b.sp_high in
    let reset_low = b.reset_low in
    let reset_high = b.reset_high in
    let base_fits = b.base_fits in
    let size_fits = b.size_fits in
    elim (Result-cases (build_elf image base)) [
      | inl found ↦ found
      | inr (e, h) ↦ absurd (ground arith)
    ]

-- For a base that is a multiple of 64 KB, such as the start of the flash, and an image that can be
-- wrapped, `build_elf` succeeds, but the segment of its file starts at the first byte of the file, its
-- headers: what is loaded at the base is the start of the file, and not the image.
pub load-build_elf_aligned :
    (image : Bytes) (base : ℕ)
    → IsBytes image
    → base % 0x10000 ≡ 0
    → IsBootable image base
    → (elf : Bytes) × (build_elf image base ≡ ok elf)
      × ((load elf).address ≡ base)
      × ((load elf).content ≡ slice elf 0 (length image))
      × ((load elf).content ≢ image)
load-build_elf_aligned image base bytes aligned bootable =
    let (elf, built) = build_elf-IsBootable image base bootable in
    let (address, content, magic) = aligned_load image base elf bytes aligned built in
    (
      elf,
      built,
      address,
      content,
      λ same.
          let start : u32_at image 0 ≡ 0x464c457f =
            ap (λ c. u32_at c 0) (sym same ∙ content) ∙ magic in
          omega (arith, bootable.sp_high, start),
    )
