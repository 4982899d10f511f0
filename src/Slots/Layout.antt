-- ===== src/Slots/Layout.antt =====
-- Where the slots and the state markers lie, and what the header holds.
use uv_k5_v3_emulator.Common.{
  ℕ, ◌+◌, ◌*◌, ◌≤◌, ◌<◌, ◌≡◌, ◌≢◌, ◌⊎◌, refl, [], ◌∷◌, ◌++◌, arith, length, take, replicate,
  get_elem?, length-append, length-take, length-replicate, ◌^◌,
}
use uv_k5_v3_emulator.Common.Slices.{slice, slice_middle}
use uv_k5_v3_emulator.Common.Words.{Bytes, pack16, pack32, byte_at, u16_at, u32_at, pack32_value}
use uv_k5_v3_emulator.Common.Text.{
  Text, encode_replace, length-pad_nul, IsPlain, before_nul, decode_ascii, encode_replace-IsPlain,
  before_nul-pad_nul, decode_ascii-IsPlain,
}
use uv_k5_v3_emulator.Common.Crc32.{crc32, crc32-lt}
use uv_k5_v3_emulator.Common.Result.{ok}
use uv_k5_v3_emulator.Slots.{
  slot_base, slot_count, slot_stride, slot_backup_base, header_text, header_bytes, slot_magic,
}

abbrev pub base_of : ℕ → ℕ
base_of slot = slot_backup_base + slot * slot_stride

pub slot_base-lt : (slot : ℕ) → slot < slot_count → slot_base slot ≡ ok (base_of slot)
unfolding slot_base
slot_base-lt slot h = ground arith

pub slot_base-ok :
    (slot base : ℕ) → slot_base slot ≡ ok base → (slot < slot_count) × (base ≡ base_of slot)
unfolding slot_base
slot_base-ok slot base h = ground arith

-- Two different slots do not overlap.
pub bases_apart :
    (s t : ℕ)
    → s ≢ t
    → (base_of t + slot_stride ≤ base_of s) ⊎ (base_of s + slot_stride ≤ base_of t)
bases_apart s t h = omega arith

pub length-header_text : (cs : Text) → length (header_text cs) ≡ 16
unfolding header_text
length-header_text cs =
    length-pad_nul 16 (take 15 (encode_replace cs))
      (omega (arith, length-take {0} 15 (encode_replace cs)))

pub length-header_bytes :
    (image : Bytes) (name fw : Text) → length (header_bytes image name fw) ≡ 64
unfolding header_bytes
length-header_bytes image name fw = omega (
  arith,
  length-append {0} (header_text name) (header_text fw ++ replicate 16 0),
  length-append {0} (header_text fw) (replicate 16 0),
  length-header_text name,
  length-header_text fw,
  length-replicate {0} {A = ℕ} 16 0,
)

pub IsPlain-take : (n : ℕ) (cs : Text) → IsPlain cs → IsPlain (take n cs)
unfolding take
IsPlain-take ℕ.zero cs h = tt
IsPlain-take (ℕ.suc n) [] h = tt
IsPlain-take (ℕ.suc n) (c ∷ cs) h = (h.0, IsPlain-take n cs h.1)

-- A plain text comes out of its field cut to 15 characters.
pub header_text_read :
    (cs : Text) → IsPlain cs → decode_ascii (before_nul (header_text cs)) ≡ take 15 cs
unfolding header_text
header_text_read cs h =
    let plain = IsPlain-take 15 cs h in
    rw (encode_replace-IsPlain cs h, before_nul-pad_nul 16 (take 15 cs) plain)
      (decode_ascii-IsPlain (take 15 cs) plain)

module _ (image : Bytes) (name fw : Text) where
  pub header_magic : u32_at (header_bytes image name fw) 0 ≡ slot_magic
  unfolding header_bytes u32_at byte_at get_elem?
  header_magic = refl

  pub header_version : u16_at (header_bytes image name fw) 4 ≡ 1
  unfolding header_bytes u16_at byte_at get_elem?
  header_version = refl

  pub header_flags : u16_at (header_bytes image name fw) 6 ≡ 1
  unfolding header_bytes u16_at byte_at get_elem?
  header_flags = refl

  pub header_size : length image < 2 ^ 32 → u32_at (header_bytes image name fw) 8 ≡ length image
  unfolding header_bytes u32_at byte_at get_elem?
  header_size h = pack32_value (length image) h

  pub header_crc : u32_at (header_bytes image name fw) 12 ≡ crc32 image
  unfolding header_bytes u32_at byte_at get_elem?
  header_crc = pack32_value (crc32 image) (crc32-lt image)

  pub header_name : slice (header_bytes image name fw) 16 32 ≡ header_text name
  unfolding header_bytes
  header_name =
      slice_middle
        (pack32 slot_magic
          ++ (pack16 1 ++ (pack16 1 ++ (pack32 (length image) ++ pack32 (crc32 image)))))
        (header_text name) (header_text fw ++ replicate 16 0) 16 32 refl
        (omega (arith, length-header_text name))

  pub header_fw : slice (header_bytes image name fw) 32 48 ≡ header_text fw
  unfolding header_bytes
  header_fw =
      slice_middle
        (pack32 slot_magic
          ++ (pack16 1
              ++ (pack16 1
                  ++ (pack32 (length image) ++ (pack32 (crc32 image) ++ header_text name)))))
        (header_text fw) (replicate 16 0) 32 48 (omega (arith, length-header_text name))
        (omega (arith, length-header_text fw))
