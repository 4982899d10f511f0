-- ===== src/Image/Detect.antt =====
-- What `detect` says of an image is what the image is.
use uv_k5_v3_emulator.Common.{
  ℕ, ◌+◌, ◌≤◌, ◌<◌, ◌≡◌, ◌↔◌, inl, inr, refl, arith, true, false, Option, none, some, ltb, length,
  ltb-false, lt→ltb, Option-cases, Bool-cases,
}
use uv_k5_v3_emulator.Common.Slices.{slice}
use uv_k5_v3_emulator.Common.Words.{Bytes, bytes_eq, u32_at}
use uv_k5_v3_emulator.Common.Text.{Text}
use uv_k5_v3_emulator.Common.Result.{ok}
use uv_k5_v3_emulator.Image.{
  flash_base, sram_base, sram_top, elf_magic, max_image, application, full_flash, ImageInfo,
  vector_at, by_vector, elf_info, vector_info, image_of, detect_content, Files, detect,
}

-- A vector table stands at the start: a stack pointer in SRAM, and a handler in the image.
pub record HasVector (content : Bytes) (sp reset : ℕ) : Type 0 where
  pub held : 8 ≤ length content
  pub sp_at : u32_at content 0 ≡ sp
  pub reset_at : u32_at content 4 ≡ reset
  pub sp_above : sram_base < sp
  pub sp_below : sp ≤ sram_top
  pub reset_from : flash_base ≤ reset
  pub reset_in : reset < flash_base + length content

vector_at-HasVector :
    (content : Bytes) (sp reset : ℕ)
    → vector_at content 0 ≡ some (sp, reset)
    → HasVector content sp reset
unfolding vector_at
vector_at-HasVector content sp reset h = record {
  held = ground arith;
  sp_at = ground arith;
  reset_at = ground arith;
  sp_above = ground arith;
  sp_below = ground arith;
  reset_from = ground arith;
  reset_in = ground arith;
}

HasVector-vector_at :
    (content : Bytes) (sp reset : ℕ)
    → HasVector content sp reset
    → vector_at content 0 ≡ some (sp, reset)
unfolding vector_at
HasVector-vector_at content sp reset v =
    ground (arith, v.held, v.sp_at, v.reset_at, v.sp_above, v.sp_below, v.reset_from, v.reset_in)

-- The three images that boot, and where address 0 has to lie for each.
pub data Boots (path : Text) (content : Bytes) : ImageInfo → Type 0 where
  as_elf :
      bytes_eq (slice content 0 4) elf_magic ≡ true
      → Boots path content (elf_info path (length content))
  as_full_flash :
      (sp reset : ℕ)
      → bytes_eq (slice content 0 4) elf_magic ≡ false
      → HasVector content sp reset
      → reset < 0x08002800
      → Boots path content (vector_info path full_flash 0 (length content) sp reset)
  as_application :
      (sp reset : ℕ)
      → bytes_eq (slice content 0 4) elf_magic ≡ false
      → HasVector content sp reset
      → 0x08002800 ≤ reset
      → Boots path content (vector_info path application 0x2800 (length content) sp reset)

by_vector-Boots :
    (path : Text) (content : Bytes) (found : Option (ℕ × ℕ)) (info : ImageInfo)
    → bytes_eq (slice content 0 4) elf_magic ≡ false
    → vector_at content 0 ≡ found
    → by_vector path (length content) found ≡ ok info
    → Boots path content info
unfolding by_vector
by_vector-Boots path content none info other e h = absurd (ground arith)
by_vector-Boots path content (some (sp, reset)) info other e h =
    elim (Bool-cases (ltb reset 0x08002800)) [
      | inl low ↦
          let at : vector_info path full_flash 0 (length content) sp reset ≡ info =
            ground (arith, low, h) in
          rw (← at) (
            as_full_flash sp reset other (vector_at-HasVector content sp reset e)
              (ground (arith, low)))
      | inr high ↦
          let at : vector_info path application 0x2800 (length content) sp reset ≡ info =
            ground (arith, high, h) in
          rw (← at) (
            as_application sp reset other (vector_at-HasVector content sp reset e)
              (ground (arith, high)))
    ]

image_of-Boots :
    (path : Text) (content : Bytes) (info : ImageInfo)
    → image_of path content ≡ ok info
    → Boots path content info
unfolding image_of
image_of-Boots path content info h = elim (Bool-cases (bytes_eq (slice content 0 4) elf_magic)) [
  | inl e ↦
      let at : elf_info path (length content) ≡ info = ground (arith, e, h) in rw (← at) (as_elf e)
  | inr e ↦ by_vector-Boots path content (vector_at content 0) info e refl (ground (arith, e, h))
]

Boots-image_of :
    (path : Text) (content : Bytes) (info : ImageInfo)
    → Boots path content info
    → image_of path content ≡ ok info
unfolding image_of by_vector
Boots-image_of path content _ (as_elf e) = rw e refl
Boots-image_of path content _ (as_full_flash sp reset e v low) =
    rw (e, HasVector-vector_at content sp reset v, lt→ltb reset 0x08002800 low) refl
Boots-image_of path content _ (as_application sp reset e v high) =
    rw (e, HasVector-vector_at content sp reset v, ltb-false reset 0x08002800 high) refl

-- An image is accepted exactly if its file is there, is not empty and not too large, and it is an
-- ELF file or has a vector table at its start; and the answer is the kind that it is.
pub detect-ok_iff :
    (files : Files) (path : Text) (info : ImageInfo)
    → (detect files path ≡ ok info) ↔ (
        (content : Bytes) × (files path ≡ some content)
        × (0 < length content)
        × (length content ≤ max_image)
        × Boots path content info)
unfolding detect detect_content
detect-ok_iff files path info = (
  λ h. elim (Option-cases (files path)) [
    | inl e ↦ absurd (ground (arith, e))
    | inr (content, e) ↦ (
      content,
      e,
      ground (arith, e),
      ground (arith, e),
      image_of-Boots path content info (ground (arith, e)),
    )
  ],
  λ p.
      let (content, e, some_bytes, fits, boots) = p in
      let made = Boots-image_of path content info boots in
      ground (arith, e, some_bytes, fits, made),
)

Boots-app_offset :
    (path : Text) (content : Bytes) (info : ImageInfo) (reset : ℕ)
    → Boots path content info
    → info.reset ≡ some reset
    → (flash_base + info.app_offset ≤ reset)
      × ((info.kind ≡ full_flash) ↔ (reset < flash_base + 0x2800))
Boots-app_offset path content _ reset (as_elf e) at = absurd (ground arith)
Boots-app_offset path content _ reset (as_full_flash sp r e v low) at =
    let same : r ≡ reset = ground (arith, at) in
    (omega (arith, v.reset_from), (λ _. omega arith, λ _. refl))
Boots-app_offset path content _ reset (as_application sp r e v high) at =
    let same : r ≡ reset = ground (arith, at) in
    (omega arith, (λ k. absurd (ground (arith, k)), λ low. absurd (omega arith)))

-- Address 0 aliases the part of the flash that holds the reset handler: an application behind the
-- bootloader, or a bootloader in front of it.
pub app_offset_lem :
    (files : Files) (path : Text) (info : ImageInfo) (reset : ℕ)
    → detect files path ≡ ok info
    → info.reset ≡ some reset
    → (flash_base + info.app_offset ≤ reset)
      × ((info.kind ≡ full_flash) ↔ (reset < flash_base + 0x2800))
app_offset_lem files path info reset h at =
    let (content, _, _, _, boots) = (detect-ok_iff files path info).0 h in
    Boots-app_offset path content info reset boots at
