-- ===== src/Apps/Image/Erase.antt =====
-- What `erase` leaves in the image.
use uv_k5_v3_emulator.Common.{
  ℕ, zero, suc, ◌+◌, ◌-◌, ◌≤◌, ◌<◌, ◌≡◌, ◌≢◌, inl, inr, ◌∙◌, ap, arith, length, ltb, ltb-false,
  none, if◌then◌else◌, get_elem?, eq_of_get_elem?,
}
use uv_k5_v3_emulator.Common.Slices.{
  slice, fill, length-fill, slice-slice, get_elem?-slice, get_elem?-fill,
}
use uv_k5_v3_emulator.Common.Words.{Bytes, bytes_eq}
use uv_k5_v3_emulator.Common.Result.{ok, Result-cases}
use uv_k5_v3_emulator.Common.Regions.{fill-SameOn}
use uv_k5_v3_emulator.Apps.Image.{
  slot_base, slot_count, slot_stride, read_at, read_slot, slot_content, erased_word, erase,
}
use uv_k5_v3_emulator.Apps.Image.Local.{
  base_of, slot_base-lt, slot_base-ok, bases_apart, read_slot-SameOn,
}
use uv_k5_v3_emulator.Apps.Image.Put.{raw}

slot_content-blank : (raw : Bytes) → slice raw 0 4 ≡ erased_word → slot_content raw ≡ none
unfolding slot_content bytes_eq
slot_content-blank raw h = rw h

erase-ok :
    (image : Bytes) (slot base : ℕ) (out : Bytes)
    → erase image slot ≡ ok (base, out)
    → (slot < slot_count)
      × (base ≡ base_of slot)
      × (base_of slot + slot_stride ≤ length image)
      × (out ≡ fill image (base_of slot) slot_stride 0xff)
unfolding erase
erase-ok image slot base out h = elim (Result-cases (slot_base slot)) [
  | inl (b, f) ↦
      let (valid, at) = slot_base-ok slot b f in
      (valid, ground (arith, at), ground (arith, at), ground (arith, at))
  | inr (x, f) ↦ absurd (ground arith)
]

-- The first bytes of a region that has been filled.
fill_head :
    (image : Bytes) (base n : ℕ)
    → base + n ≤ length image
    → 4 ≤ n
    → slice (slice (fill image base n 0xff) base (base + n)) 0 4 ≡ erased_word
unfolding get_elem?
fill_head image base n held big =
    slice-slice (fill image base n 0xff) base (base + n) 0 4 (omega arith)
    ∙ eq_of_get_elem? _ _
        λ i. rw (get_elem?-slice (fill image base n 0xff) (base + 0) (base + 4) i) (inside i)
  where
    inside :
        (i : ℕ)
        → (if ltb i (base + 4 - (base + 0))
            then get_elem? (fill image base n 0xff) (base + 0 + i)
            else none)
          ≡ get_elem? erased_word i
    inside zero = ground (arith, get_elem?-fill image base n 0xff (base + 0 + 0) held)
    inside (suc zero) = ground (arith, get_elem?-fill image base n 0xff (base + 0 + 1) held)
    inside (suc (suc zero)) = ground (arith, get_elem?-fill image base n 0xff (base + 0 + 2) held)
    inside (suc (suc (suc zero))) =
        ground (arith, get_elem?-fill image base n 0xff (base + 0 + 3) held)
    inside (suc (suc (suc (suc i)))) = ground arith

module _ (image : Bytes) (slot base : ℕ) (out : Bytes)
    (done : erase image slot ≡ ok (base, out)) where
  -- An erase that is not refused keeps the size of the image, leaves the slot empty, and leaves every
  -- other slot as it was.
  pub erase_lem :
      (base ≡ base_of slot)
      × (length out ≡ length image)
      × (read_slot out slot ≡ ok none)
      × ((t : ℕ) → slot ≢ t → read_slot out t ≡ read_slot image t)
  unfolding read_slot read_at
  erase_lem =
      let (valid, at, held, e) = erase-ok image slot base out done in
      let same = length-fill image (base_of slot) slot_stride 0xff in
      (
        at,
        ap length e ∙ same,
        rw (
          e,
          slot_base-lt slot valid,
          same,
          ltb-false _ _ held,
          slot_content-blank _ (fill_head image (base_of slot) slot_stride held (omega arith)),
        ),
        λ t apart. rw e (
            read_slot-SameOn _ image t same (
              fill-SameOn image (base_of slot) slot_stride 0xff _ _ held
                (elim (bases_apart slot t apart) [
                  | inl p ↦ inl (omega arith)
                  | inr p ↦ inr (omega arith)
                ]))),
      )
