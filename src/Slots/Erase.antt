-- ===== src/Slots/Erase.antt =====
-- `erase_slot` and `erase_state`: what they clear and what they leave alone.
use uv_k5_v3_emulator.Common.{
  ℕ, ◌+◌, ◌≤◌, ◌<◌, ◌≡◌, ◌≢◌, inl, inr, ◌∙◌, ap, arith, length, ltb-false, none, replicate,
  length-replicate, get_elem?-replicate,
}
use uv_k5_v3_emulator.Common.Slices.{splice, length-splice}
use uv_k5_v3_emulator.Common.Words.{Bytes, u32_at, byte_at}
use uv_k5_v3_emulator.Common.Result.{ok, Result-cases}
use uv_k5_v3_emulator.Common.Regions.{SameOn, SameOn-trans, splice-SameOn, u32_at-splice}
use uv_k5_v3_emulator.Slots.{
  slot_base, slot_count, slot_stride, erase_slot, erase_state, read_at, read_slot, state_a_base,
  state_b_base, state_size,
}
use uv_k5_v3_emulator.Slots.Layout.{base_of, slot_base-lt, slot_base-ok, bases_apart}
use uv_k5_v3_emulator.Slots.Locality.{IsSound, read_at-SameOn}
use uv_k5_v3_emulator.Slots.WriteRead.{Holds}

-- If a slot's region is as before and the buffer as long, the slot reads as before.
pub read_slot-SameOn :
    (xs ys : Bytes) (t : ℕ)
    → length xs ≡ length ys
    → SameOn (base_of t) (base_of t + slot_stride) xs ys
    → IsSound ys (base_of t)
    → read_slot xs t ≡ read_slot ys t
unfolding read_slot
read_slot-SameOn xs ys t same_length same fits = elim (Result-cases (slot_base t)) [
  | inl (b, e) ↦
      let (_, at) = slot_base-ok t b e in
      rw (e, same_length, at, read_at-SameOn xs ys t (base_of t) same fits)
  | inr (x, e) ↦ rw e
]

-- 0xFFFFFFFF at the start of a slot is no magic.
read_at-erased :
    (buf : Bytes) (t base : ℕ) → u32_at buf base ≡ 0xffffffff → read_at buf t base ≡ none
unfolding read_at
read_at-erased buf t base h = rw h

u32_at-ones : (n : ℕ) → 4 ≤ n → u32_at (replicate n 0xff) 0 ≡ 0xffffffff
unfolding u32_at byte_at
u32_at-ones n h = ground (
  arith,
  get_elem?-replicate {0} {A = ℕ} n 0xff 0,
  get_elem?-replicate {0} {A = ℕ} n 0xff 1,
  get_elem?-replicate {0} {A = ℕ} n 0xff 2,
  get_elem?-replicate {0} {A = ℕ} n 0xff 3,
)

module _ (buf : Bytes) (slot : ℕ) (out : Bytes) (held : Holds buf slot)
    (done : erase_slot buf slot ≡ ok out) where
  erased : Bytes
  erased = splice buf (base_of slot) (base_of slot + slot_stride) (replicate slot_stride 0xff)

  size_eq : base_of slot + length (replicate {A = ℕ} slot_stride 0xff) ≡ base_of slot + slot_stride
  size_eq = omega (arith, length-replicate {0} {A = ℕ} slot_stride 0xff)

  valid-and-erased : (slot < slot_count) × (out ≡ erased)
  unfolding erase_slot erased
  valid-and-erased = elim (Result-cases (slot_base slot)) [
    | inl (b, e) ↦ let (valid, at) = slot_base-ok slot b e in (valid, ground (arith, at))
    | inr (x, e) ↦ absurd (ground arith)
  ]

  pub length-erase_slot : length out ≡ length buf
  unfolding erased
  length-erase_slot = ap length valid-and-erased.1 ∙ length-splice buf _ _ _ size_eq held

  -- An erased slot reads as empty.
  pub read_slot-erase_slot : read_slot out slot ≡ ok none
  unfolding read_slot erased
  read_slot-erase_slot =
      let (valid, at) = valid-and-erased in
      let start : base_of slot ≡ base_of slot + 0 = omega arith in
      let cleared : u32_at erased (base_of slot) ≡ 0xffffffff =
        ap (u32_at erased) start
        ∙ u32_at-splice buf _ _ _ size_eq held 0
            (omega (arith, length-replicate {0} {A = ℕ} slot_stride 0xff))
        ∙ u32_at-ones slot_stride (omega arith) in
      rw (
        slot_base-lt slot valid,
        ltb-false (length out) (base_of slot + 16) (omega (arith, length-erase_slot)),
        at,
        read_at-erased erased slot (base_of slot) cleared,
      )

  -- Every other slot reads as it did before.
  pub read_slot-erase_slot_ne :
      (t : ℕ) → slot ≢ t → IsSound buf (base_of t) → read_slot out t ≡ read_slot buf t
  read_slot-erase_slot_ne t apart fits =
      read_slot-SameOn out buf t length-erase_slot
        (rw (valid-and-erased.1) (
          unfold erased in
          splice-SameOn buf _ _ _ _ _ size_eq held
            (elim (bases_apart slot t apart) [ inl p ↦ inl p | inr p ↦ inr p ])))
        fits

-- After an erase the size is the same, the slot reads as empty, and every other slot that is sound
-- reads as it did before.
pub erase_slot-read_slot :
    (buf : Bytes) (slot : ℕ) (out : Bytes)
    → Holds buf slot
    → erase_slot buf slot ≡ ok out
    → (length out ≡ length buf)
      × (read_slot out slot ≡ ok none)
      × ((t : ℕ) → slot ≢ t → IsSound buf (base_of t) → read_slot out t ≡ read_slot buf t)
erase_slot-read_slot buf slot out held done = (
  length-erase_slot buf slot out held done,
  read_slot-erase_slot buf slot out held done,
  read_slot-erase_slot_ne buf slot out held done,
)

-- The image holds both active-state markers.
abbrev pub HoldsState : Bytes → Type 0
HoldsState buf = state_b_base + state_size ≤ length buf

module _ (buf : Bytes) (held : HoldsState buf) where
  marker_size : (a : ℕ) → a + length (replicate {A = ℕ} state_size 0xff) ≡ a + state_size
  marker_size a = omega (arith, length-replicate {0} {A = ℕ} state_size 0xff)

  first_cleared : Bytes
  first_cleared = splice buf state_a_base (state_a_base + state_size) (replicate state_size 0xff)

  length-first_cleared : length first_cleared ≡ length buf
  unfolding first_cleared
  length-first_cleared = length-splice buf _ _ _ (marker_size state_a_base) (omega arith)

  pub length-erase_state : length (erase_state buf) ≡ length buf
  unfolding erase_state first_cleared
  length-erase_state =
      length-splice first_cleared _ _ _ (marker_size state_b_base)
        (omega (arith, length-first_cleared))
      ∙ length-first_cleared

  -- Everything below the first marker is left alone, so every slot is.
  pub erase_state-SameOn : (lo hi : ℕ) → hi ≤ state_a_base → SameOn lo hi (erase_state buf) buf
  unfolding erase_state first_cleared
  erase_state-SameOn lo hi h =
      SameOn-trans lo hi _ first_cleared buf
        (splice-SameOn first_cleared _ _ _ lo hi (marker_size state_b_base)
          (omega (arith, length-first_cleared)) (inl (omega arith)))
        (splice-SameOn buf _ _ _ lo hi (marker_size state_a_base) (omega arith) (inl h))

  pub read_slot-erase_state :
      (t : ℕ)
      → t < slot_count
      → IsSound buf (base_of t)
      → read_slot (erase_state buf) t ≡ read_slot buf t
  read_slot-erase_state t valid fits =
      read_slot-SameOn (erase_state buf) buf t length-erase_state
        (erase_state-SameOn (base_of t) (base_of t + slot_stride) (omega arith)) fits
