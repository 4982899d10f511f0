-- ===== src/Slots/Locality.antt =====
-- A read of a slot sees the slot's own region only, unless its header leads out of it.
use uv_k5_v3_emulator.Common.{ℕ, ◌+◌, ◌-◌, ◌≤◌, ◌≡◌, ◌≢◌, ◌⊎◌, ◌∙◌, sym, inl, inr, none, arith}
use uv_k5_v3_emulator.Common.Words.{Bytes, u32_at}
use uv_k5_v3_emulator.Common.Regions.{SameOn, SameOn-u16_at, SameOn-u32_at, SameOn-slice}
use uv_k5_v3_emulator.Slots.{read_at, slot_magic, slot_stride, slot_image_offset}

-- The slot has no header, or one whose size stays in the slot.
abbrev pub IsSound : Bytes → ℕ → Type 0
IsSound buf base =
    (u32_at buf base ≢ slot_magic) ⊎ (u32_at buf (base + 8) ≤ slot_stride - slot_image_offset)

read_at-no_magic :
    (xs : Bytes) (slot base : ℕ) → u32_at xs base ≢ slot_magic → read_at xs slot base ≡ none
unfolding read_at
read_at-no_magic xs slot base h = ground arith

pub read_at-SameOn :
    (xs ys : Bytes) (slot base : ℕ)
    → SameOn base (base + slot_stride) xs ys
    → IsSound ys base
    → read_at xs slot base ≡ read_at ys slot base
unfolding read_at
read_at-SameOn xs ys slot base same (inl bare) =
    let e = SameOn-u32_at base (base + slot_stride) xs ys same base (omega arith) (omega arith) in
    read_at-no_magic xs slot base (rw e bare) ∙ sym (read_at-no_magic ys slot base bare)
read_at-SameOn xs ys slot base same (inr fits) =
    let hi = base + slot_stride in
    let u16 = SameOn-u16_at base hi xs ys same in
    let u32 = SameOn-u32_at base hi xs ys same in
    let part = SameOn-slice base hi xs ys same in
    rw (
      u32 base (omega arith) (omega arith),
      u16 (base + 4) (omega arith) (omega arith),
      u16 (base + 6) (omega arith) (omega arith),
      u32 (base + 8) (omega arith) (omega arith),
      u32 (base + 12) (omega arith) (omega arith),
      part (base + 16) (base + 32) (omega arith) (omega arith),
      part (base + 32) (base + 48) (omega arith) (omega arith),
      part (base + slot_image_offset) (base + slot_image_offset + u32_at ys (base + 8))
          (omega arith) (omega arith),
    )
