-- ===== src/Slots/Files.antt =====
-- The functions of tools/uvk5_slots.py that edit an image file in place, and the slot table. A file
-- is its content; a function returns the content that it leaves beside its result.
use uv_k5_v3_emulator.Common.{
  ℕ, zero, suc, ◌+◌, ◌≤◌, ◌<◌, ◌≡◌, ◌≢◌, refl, sym, ◌∙◌, ap, arith, length, ltb-false, none, some,
  Option, List, [], ◌∷◌, Bool, true, false, if◌then◌else◌, get_elem?, inl, inr, ◌⊎◌,
}
use uv_k5_v3_emulator.Common.Words.{Bytes}
use uv_k5_v3_emulator.Common.Text.{Text, IsPlain}
use uv_k5_v3_emulator.Common.Result.{Result, ok, err, ◌>>=◌, Result-cases}
use uv_k5_v3_emulator.Slots.{
  SlotError, index_error, Header, slot_base, slot_count, read_at, read_slot, write_slot, erase_slot,
  erase_state,
}
use uv_k5_v3_emulator.Slots.Layout.{base_of, slot_base-lt}
use uv_k5_v3_emulator.Slots.Locality.{IsSound}
use uv_k5_v3_emulator.Slots.WriteRead.{
  Holds, committed, image_room, write_slot-ok_iff, IsSound-write_slot, IsSound-write_slot_ne,
  read_slot-write_slot, length-write_slot, read_slot-write_slot_ne,
}
use uv_k5_v3_emulator.Slots.Erase.{HoldsState, read_slot-erase_state, length-erase_state}

-- A row of the table: `header` is missing if the slot is empty.
pub record Row : Type 0 where
  pub slot : ℕ
  pub base : ℕ
  pub empty : Bool
  pub header : Option Header

abbrev pub row_of : ℕ → ℕ → Option (Header × Bytes) → Row
row_of slot base none = record { slot = slot; base = base; empty = true; header = none }
row_of slot base (some (h, image)) = record {
  slot = slot;
  base = base;
  empty = false;
  header = some h;
}

unfoldable pub slot_row : Bytes → ℕ → Result SlotError Row
slot_row buf slot = do
  found ← read_slot buf slot
  base ← slot_base slot
  ok (row_of slot base found)

-- `for slot in range(...)`: `n` rows from `slot` on.
unfoldable pub slot_rows : ℕ → ℕ → Bytes → Result SlotError (List Row)
slot_rows zero slot buf = ok []
slot_rows (suc n) slot buf = do
  row ← slot_row buf slot
  rows ← slot_rows n (slot + 1) buf
  ok (row ∷ rows)

unfoldable pub slots_json : Bytes → Result SlotError (List Row)
slots_json buf = slot_rows slot_count 0 buf

unfoldable pub row_at : List Row → ℕ → Result SlotError Row
row_at rows slot = elim (get_elem? rows slot) [ none ↦ err index_error | some row ↦ ok row ]

-- `slots_json(path)["slots"][slot]`
unfoldable pub table_row : Bytes → ℕ → Result SlotError Row
table_row buf slot = do rows ← slots_json buf; row_at rows slot

unfoldable pub write_slot_file :
    Bytes → ℕ → Bytes → Text → Text → Bool → Result SlotError Row × Bytes
write_slot_file file slot image name fw erase_state_sectors =
    elim (write_slot file slot image name fw) [
      | err e ↦ (err e, file)
      | ok buf ↦
          let saved = if erase_state_sectors then erase_state buf else buf in
          (table_row saved slot, saved)
    ]

unfoldable pub erase_slot_file : Bytes → ℕ → Result SlotError Row × Bytes
erase_slot_file file slot = elim (erase_slot file slot) [
  | err e ↦ (err e, file)
  | ok buf ↦ let saved = erase_state buf in (table_row saved slot, saved)
]

slot_row-lt :
    (buf : Bytes) (slot : ℕ)
    → slot < slot_count
    → base_of slot + 16 ≤ length buf
    → (slot_row buf slot ≡ ok (row_of slot (base_of slot) (read_at buf slot (base_of slot))))
      × (read_slot buf slot ≡ ok (read_at buf slot (base_of slot)))
unfolding slot_row read_slot
slot_row-lt buf slot valid long =
    let e = slot_base-lt slot valid in
    let f = ltb-false (length buf) (base_of slot + 16) long in (rw (e, f), rw (e, f))

plus_zero : (s : ℕ) → s + 0 ≡ s
plus_zero s = omega arith

plus_suc : (s i : ℕ) → s + suc i ≡ s + 1 + i
plus_suc s i = omega arith

slot_rows_lem :
    (n s : ℕ) (buf : Bytes)
    → s + n ≤ slot_count
    → base_of slot_count ≤ length buf
    → (rows : List Row) × (slot_rows n s buf ≡ ok rows)
      × ((i : ℕ)
          → i < n
          → (row : Row) × (get_elem? rows i ≡ some row) × (slot_row buf (s + i) ≡ ok row))
unfolding slot_rows get_elem?
slot_rows_lem zero s buf h long = ([], refl, λ i p. absurd (omega arith))
slot_rows_lem (suc n) s buf h long =
    let (rows, e, each) = slot_rows_lem n (s + 1) buf (omega arith) long in
    let first = (slot_row-lt buf s (omega arith) (omega arith)).0 in
    (
      row_of s (base_of s) (read_at buf s (base_of s)) ∷ rows,
      rw (first, e),
      elim [
        | zero ↦ λ p. (
          row_of s (base_of s) (read_at buf s (base_of s)),
          refl,
          ap (slot_row buf) (plus_zero s) ∙ first,
        )
        | suc i ↦ λ p.
            let (row, g, r) = each i (omega arith) in (row, g, ap (slot_row buf) (plus_suc s i) ∙ r)
      ],
    )

pub table_row-lt :
    (buf : Bytes) (slot : ℕ)
    → slot < slot_count
    → base_of slot_count ≤ length buf
    → table_row buf slot ≡ slot_row buf slot
unfolding table_row slots_json
table_row-lt buf slot valid long =
    let (rows, e, each) = slot_rows_lem slot_count 0 buf (omega arith) long in
    let (row, g, r) = each slot valid in
    let start : 0 + slot ≡ slot = omega arith in
    rw e (unfold row_at in rw (g, row_at) (sym r ∙ ap (slot_row buf) start))

-- Nothing is saved of a write that is refused.
pub write_slot_file_refused :
    (file : Bytes) (slot : ℕ) (image : Bytes) (name fw : Text) (erase : Bool)
    → (slot_count ≤ slot) ⊎ (image_room < length image)
    → (e : SlotError) × (write_slot_file file slot image name fw erase ≡ (err e, file))
unfolding write_slot_file
write_slot_file_refused file slot image name fw erase bad =
    elim (Result-cases (write_slot file slot image name fw)) [
      | inl (out, e) ↦
          let (valid, room) = (write_slot-ok_iff file slot image name fw).0 (out, e) in
          absurd (omega arith)
      | inr (x, e) ↦ (x, rw (e, write_slot_file))
    ]

abbrev settled : Bool → Bytes → Bytes
settled erase buf = if erase then erase_state buf else buf

settled-read :
    (erase : Bool) (buf : Bytes) (t : ℕ)
    → HoldsState buf
    → t < slot_count
    → IsSound buf (base_of t)
    → (read_slot (settled erase buf) t ≡ read_slot buf t)
      × (length (settled erase buf) ≡ length buf)
settled-read true buf t held valid fits =
    (read_slot-erase_state buf held t valid fits, length-erase_state buf held)
settled-read false buf t held valid fits = (refl, refl)

-- The write of an image that fits into a slot, to a file that is long enough to hold all slots and the
-- state sectors behind them, with a name and a version that are plain ASCII text: the row that it
-- returns describes the new image, with a CRC that checks; the slot reads back; the file keeps its
-- size; and every other slot whose header is sound reads as before.
pub write_slot_file_lem :
    (file : Bytes) (slot : ℕ) (image : Bytes) (name fw : Text) (erase : Bool)
    → HoldsState file
    → slot < slot_count
    → length image ≤ image_room
    → IsPlain name
    → IsPlain fw
    → let (row, out) = write_slot_file file slot image name fw erase in
      (row
        ≡ ok (record {
          slot = slot;
          base = base_of slot;
          empty = false;
          header = some (committed slot image name fw);
        }))
      × (read_slot out slot ≡ ok (some (committed slot image name fw, image)))
      × (length out ≡ length file)
      × ((t : ℕ)
          → t < slot_count
          → slot ≢ t
          → IsSound file (base_of t)
          → read_slot out t ≡ read_slot file t)
unfolding write_slot_file
write_slot_file_lem file slot image name fw erase held valid room plain plain' =
    let (buf, e) = (write_slot-ok_iff file slot image name fw).1 (valid, room) in
    let inside : Holds file slot = omega arith in
    let same_length = length-write_slot file slot image name fw buf inside e in
    let held' : HoldsState buf = omega arith in
    let fits = IsSound-write_slot file slot image name fw buf inside e in
    let (read, same_length') = settled-read erase buf slot held' valid fits in
    let found = read ∙ read_slot-write_slot file slot image name fw buf inside e plain plain' in
    let row = table_row-lt (settled erase buf) slot valid (omega arith) in
    rw (e, write_slot_file)
      (
        row ∙ (unfold slot_row in rw (found, slot_base-lt slot valid)),
        found,
        same_length' ∙ same_length,
        λ t t_valid apart sound.
            (settled-read erase buf t held' t_valid
              (IsSound-write_slot_ne file slot image name fw buf inside e t apart sound)).0
            ∙ read_slot-write_slot_ne file slot image name fw buf inside e t apart sound,
      )
