-- ===== src/Slots/Build.antt =====
-- `build` of tools/uvk5_slots.py: a copy of a base image with a list of slots written into it.
use uv_k5_v3_emulator.Common.{
  ℕ, ◌≤◌, ◌<◌, ◌≡◌, ◌≢◌, refl, ◌∙◌, arith, length, some, List, [], ◌∷◌, Bool, true, false,
  if◌then◌else◌, inl, inr,
}
use uv_k5_v3_emulator.Common.Words.{Bytes}
use uv_k5_v3_emulator.Common.Text.{Text, IsPlain}
use uv_k5_v3_emulator.Common.Result.{Result, ok, ◌>>=◌, Result-cases}
use uv_k5_v3_emulator.Slots.{SlotError, slot_count, read_slot, write_slot, erase_state}
use uv_k5_v3_emulator.Slots.Layout.{base_of}
use uv_k5_v3_emulator.Slots.Locality.{IsSound}
use uv_k5_v3_emulator.Slots.WriteRead.{
  Holds, image_room, committed, write_slot-ok_iff, IsSound-write_slot, IsSound-write_slot_ne,
  read_slot-write_slot, read_slot-write_slot_ne, length-write_slot,
}
use uv_k5_v3_emulator.Slots.Erase.{HoldsState, read_slot-erase_state, length-erase_state}

-- An entry of @slots, with the content of the image file in place of its path.
pub record Entry : Type 0 where
  pub slot : ℕ
  pub image : Bytes
  pub name : Text
  pub version : Text

unfoldable pub write_slots : Bytes → List Entry → Result SlotError Bytes
write_slots buf [] = ok buf
write_slots buf (e ∷ es) = do
  buf' ← write_slot buf e.slot e.image e.name e.version
  write_slots buf' es

unfoldable pub build : Bytes → List Entry → Bool → Result SlotError Bytes
unfolding write_slots
build base slots erase_state_sectors = do
  buf ← write_slots base slots
  ok (if erase_state_sectors then erase_state buf else buf)

-- No entry of the list is for the slot.
abbrev pub Avoids : ℕ → List Entry → Type 0
Avoids slot [] = Unit
Avoids slot (e ∷ es) = (e.slot ≢ slot) × Avoids slot es

-- Plain texts, and no slot twice.
abbrev pub IsProper : List Entry → Type 0
IsProper [] = Unit
IsProper (e ∷ es) = IsPlain e.name × IsPlain e.version × Avoids e.slot es × IsProper es

-- Every entry is read back from its slot.
abbrev pub Reads : Bytes → List Entry → Type 0
Reads out [] = Unit
Reads out (e ∷ es) =
    (read_slot out e.slot ≡ ok (some (committed e.slot e.image e.name e.version, e.image)))
    × Reads out es

-- The same, with each header sound.
abbrev ReadsFit : Bytes → List Entry → Type 0
ReadsFit out [] = Unit
ReadsFit out (e ∷ es) =
    (e.slot < slot_count)
    × IsSound out (base_of e.slot)
    × (read_slot out e.slot ≡ ok (some (committed e.slot e.image e.name e.version, e.image)))
    × ReadsFit out es

ReadsFit-Reads : (out : Bytes) (es : List Entry) → ReadsFit out es → Reads out es
ReadsFit-Reads out [] h = tt
ReadsFit-Reads out (e ∷ es) h = (h.2, ReadsFit-Reads out es h.3)

ReadsFit-erase_state :
    (buf : Bytes) (es : List Entry) → HoldsState buf → ReadsFit buf es → Reads (erase_state buf) es
ReadsFit-erase_state buf [] held h = tt
ReadsFit-erase_state buf (e ∷ es) held h =
    (read_slot-erase_state buf held e.slot h.0 h.1 ∙ h.2, ReadsFit-erase_state buf es held h.3)

write_slots-cons :
    (buf : Bytes) (e : Entry) (es : List Entry) (out : Bytes)
    → write_slots buf (e ∷ es) ≡ ok out
    → (mid : Bytes) × (write_slot buf e.slot e.image e.name e.version ≡ ok mid)
      × (write_slots mid es ≡ ok out)
unfolding write_slots
write_slots-cons buf e es out h =
    elim (Result-cases (write_slot buf e.slot e.image e.name e.version)) [
      | inl (mid, p) ↦ (mid, p, ground arith)
      | inr (x, p) ↦ absurd (ground arith)
    ]

Holds-of_state : (buf : Bytes) (slot : ℕ) → HoldsState buf → slot < slot_count → Holds buf slot
Holds-of_state buf slot held valid = omega arith

-- What a list of writes keeps: the size, and the slots that it avoids.
pub write_slots-keeps :
    (es : List Entry) (buf out : Bytes)
    → HoldsState buf
    → write_slots buf es ≡ ok out
    → (length out ≡ length buf)
      × ((t : ℕ)
          → Avoids t es
          → IsSound buf (base_of t)
          → (read_slot out t ≡ read_slot buf t) × IsSound out (base_of t))
unfolding write_slots
write_slots-keeps [] buf out held h =
    let e : buf ≡ out = cc in rw (← e) (refl, λ t a fits. (refl, fits))
write_slots-keeps (e ∷ es) buf out held h =
    let (mid, first, rest) = write_slots-cons buf e es out h in
    let (valid, room) = (write_slot-ok_iff buf e.slot e.image e.name e.version).0 (mid, first) in
    let inside = Holds-of_state buf e.slot held valid in
    let same = length-write_slot buf e.slot e.image e.name e.version mid inside first in
    let (same', kept) = write_slots-keeps es mid out (omega arith) rest in
    (
      same' ∙ same,
      λ t avoids fits.
          let fits' =
            IsSound-write_slot_ne buf e.slot e.image e.name e.version mid inside first t avoids.0
              fits in
          let (read, fits'') = kept t avoids.1 fits' in
          (
            read
                ∙ read_slot-write_slot_ne buf e.slot e.image e.name e.version mid inside first t
                    avoids.0 fits,
            fits'',
          ),
    )

write_slots-ReadsFit :
    (es : List Entry) (buf out : Bytes)
    → HoldsState buf
    → IsProper es
    → write_slots buf es ≡ ok out
    → ReadsFit out es
write_slots-ReadsFit [] buf out held proper h = tt
write_slots-ReadsFit (e ∷ es) buf out held proper h =
    let (mid, first, rest) = write_slots-cons buf e es out h in
    let (valid, room) = (write_slot-ok_iff buf e.slot e.image e.name e.version).0 (mid, first) in
    let inside = Holds-of_state buf e.slot held valid in
    let same = length-write_slot buf e.slot e.image e.name e.version mid inside first in
    let held' : HoldsState mid = omega arith in
    let (_, kept) = write_slots-keeps es mid out held' rest in
    let fits = IsSound-write_slot buf e.slot e.image e.name e.version mid inside first in
    let (read, fits') = kept e.slot proper.2 fits in
    (
      valid,
      fits',
      read
          ∙ read_slot-write_slot buf e.slot e.image e.name e.version mid inside first proper.0
              proper.1,
      write_slots-ReadsFit es mid out held' proper.3 rest,
    )

settled : Bool → Bytes → Bytes
settled erase buf = if erase then erase_state buf else buf

settled-Reads :
    (erase : Bool) (buf : Bytes) (es : List Entry)
    → HoldsState buf
    → ReadsFit buf es
    → (length (settled erase buf) ≡ length buf) × Reads (settled erase buf) es
unfolding settled
settled-Reads true buf es held h = (length-erase_state buf held, ReadsFit-erase_state buf es held h)
settled-Reads false buf es held h = (refl, ReadsFit-Reads buf es h)

-- Where the base image is long enough to hold all slots and the state sectors behind them, the names
-- and versions are plain ASCII text and no slot is given twice: an image that is built has the size of
-- the base image, and every entry can be read back from its slot: the image, its size and its CRC, and
-- the texts cut to 15 characters.
pub build-Reads :
    (base : Bytes) (slots : List Entry) (erase : Bool) (out : Bytes)
    → HoldsState base
    → IsProper slots
    → build base slots erase ≡ ok out
    → (length out ≡ length base) × Reads out slots
unfolding build settled
build-Reads base slots erase out held proper h = elim (Result-cases (write_slots base slots)) [
  | inl (buf, e) ↦
      let (same, _) = write_slots-keeps slots base buf held e in
      let sound = write_slots-ReadsFit slots base buf held proper e in
      let (same', reads) = settled-Reads erase buf slots (omega arith) sound in
      let done : settled erase buf ≡ out = ground arith in rw (← done) (same' ∙ same, reads)
  | inr (x, e) ↦ absurd (ground arith)
]

abbrev pub AllFit : List Entry → Type 0
AllFit [] = Unit
AllFit (e ∷ es) = (e.slot < slot_count) × (length e.image ≤ image_room) × AllFit es

write_slots_ok :
    (buf : Bytes) (es : List Entry) → AllFit es → (out : Bytes) × (write_slots buf es ≡ ok out)
unfolding write_slots
write_slots_ok buf [] h = (buf, refl)
write_slots_ok buf (e ∷ es) h =
    let (mid, p) = (write_slot-ok_iff buf e.slot e.image e.name e.version).1 (h.0, h.1) in
    let (out, q) = write_slots_ok mid es h.2 in (out, rw p q)

pub build_ok :
    (base : Bytes) (slots : List Entry) (erase : Bool)
    → AllFit slots
    → (out : Bytes) × (build base slots erase ≡ ok out)
unfolding build settled
build_ok base slots erase h =
    let (mid, p) = write_slots_ok base slots h in (settled erase mid, rw p)
