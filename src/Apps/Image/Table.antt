-- ===== src/Apps/Image/Table.antt =====
-- `list_apps` and `apps_json` of tools/uvk5_apps.py: the table of all app slots.
use uv_k5_v3_emulator.Common.{
  ℕ, zero, suc, ◌+◌, ◌≤◌, ◌<◌, ◌≡◌, ◌≢◌, refl, ◌∙◌, ap, arith, Option, none, some, List, [], ◌∷◌,
  ◌==◌, ==_iff, if◌then◌else◌, length, get_elem?, inl, inr, Bool-cases,
}
use uv_k5_v3_emulator.Common.Words.{Bytes}
use uv_k5_v3_emulator.Common.Result.{Result, ok, ◌>>=◌}
use uv_k5_v3_emulator.Apps.Header.{AppError, Info}
use uv_k5_v3_emulator.Apps.Image.{
  Content, app, firmware, unknown, unreadable, slot_base, slot_count, read_at, read_slot,
}
use uv_k5_v3_emulator.Apps.Image.Local.{base_of, slot_base-lt}

-- `slot` is the key that `info["slot"]` gives.
abbrev pub with_slot : ℕ → Option Content → List (ℕ × Content) → List (ℕ × Content)
with_slot slot none rest = rest
with_slot slot (some c) rest = (slot, c) ∷ rest

-- `n` slots from `slot` on.
unfoldable pub list_from : ℕ → ℕ → Bytes → Result AppError (List (ℕ × Content))
list_from zero slot image = ok []
list_from (suc n) slot image = do
  found ← read_slot image slot
  rest ← list_from n (slot + 1) image
  ok (with_slot slot found rest)

unfoldable pub list_apps : Bytes → Result AppError (List (ℕ × Content))
list_apps image = list_from slot_count 0 image

-- `occupied.get(slot)` of the dictionary made from the list; the keys are all different.
unfoldable pub occupied_get : ℕ → List (ℕ × Content) → Option Content
occupied_get slot [] = none
occupied_get slot ((s, c) ∷ rest) = if s == slot then some c else occupied_get slot rest

-- A row: the slot, its base, and what the page says of it.
pub data Row : Type 0 where
  empty_row : ℕ → ℕ → Row
  app_row : ℕ → ℕ → Info → Row
  other_row : ℕ → ℕ → Content → Row

unfoldable pub row_of : ℕ → ℕ → Option Content → Row
row_of slot base none = empty_row slot base
row_of slot base (some (app info)) = app_row slot base info
row_of slot base (some (firmware m)) = other_row slot base (firmware m)
row_of slot base (some (unknown m)) = other_row slot base (unknown m)
row_of slot base (some unreadable) = other_row slot base unreadable

unfoldable pub rows_from : ℕ → ℕ → List (ℕ × Content) → Result AppError (List Row)
rows_from zero slot found = ok []
rows_from (suc n) slot found = do
  base ← slot_base slot
  rest ← rows_from n (slot + 1) found
  ok (row_of slot base (occupied_get slot found) ∷ rest)

unfoldable pub apps_json : Bytes → Result AppError (List Row)
apps_json image = do found ← list_apps image; rows_from slot_count 0 found

with_slot_self :
    (s : ℕ) (o : Option Content) (found : List (ℕ × Content))
    → occupied_get s found ≡ none
    → occupied_get s (with_slot s o found) ≡ o
unfolding occupied_get
with_slot_self s none found h = h
with_slot_self s (some c) found h = ground arith

with_slot_ne :
    (s t : ℕ) (o : Option Content) (found : List (ℕ × Content))
    → s ≢ t
    → occupied_get t (with_slot s o found) ≡ occupied_get t found
unfolding occupied_get
with_slot_ne s t none found h = refl
with_slot_ne s t (some c) found h = ground arith

read_slot-lt :
    (image : Bytes) (s : ℕ) → s < slot_count → read_slot image s ≡ ok (read_at image (base_of s))
unfolding read_slot
read_slot-lt image s h = rw (slot_base-lt s h)

plus_zero : (s : ℕ) → s ≡ s + 0
plus_zero s = omega arith

plus_suc : (s i : ℕ) → s + 1 + i ≡ s + suc i
plus_suc s i = omega arith

-- A slot before the first one that is listed is not in the list.
list_from-lem :
    (n s : ℕ) (image : Bytes)
    → s + n ≤ slot_count
    → (found : List (ℕ × Content)) × (list_from n s image ≡ ok found)
      × ((t : ℕ) → t < s → occupied_get t found ≡ none)
      × ((t : ℕ) → s ≤ t → t < s + n → occupied_get t found ≡ read_at image (base_of t))
unfolding list_from occupied_get
list_from-lem zero s image h = ([], refl, λ t p. refl, λ t p q. absurd (omega arith))
list_from-lem (suc n) s image h =
    let (found, e, before, inside) = list_from-lem n (s + 1) image (omega arith) in
    let o = read_at image (base_of s) in
    (
      with_slot s o found,
      rw (read_slot-lt image s (omega arith), e),
      λ t p. with_slot_ne s t o found (omega arith) ∙ before t (omega arith),
      λ t p q. elim (Bool-cases (s == t)) [
        | inl same ↦
            let at = (==_iff s t).0 same in
            rw (← at) (with_slot_self s o found (before s (omega arith)))
        | inr other ↦
            let apart : s ≢ t = ground arith in
            with_slot_ne s t o found apart ∙ inside t (omega arith) (omega arith)
      ],
    )

rows_from-lem :
    (n s : ℕ) (found : List (ℕ × Content))
    → s + n ≤ slot_count
    → (rows : List Row) × (rows_from n s found ≡ ok rows)
      × (length rows ≡ n)
      × ((i : ℕ)
          → i < n
          → get_elem? rows i ≡ some (row_of (s + i) (base_of (s + i)) (occupied_get (s + i) found)))
unfolding rows_from get_elem?
rows_from-lem zero s found h = ([], refl, refl, λ i p. absurd (omega arith))
rows_from-lem (suc n) s found h =
    let (rows, e, size, each) = rows_from-lem n (s + 1) found (omega arith) in
    (
      row_of s (base_of s) (occupied_get s found) ∷ rows,
      rw (slot_base-lt s (omega arith), e),
      ap suc size,
      elim [
        | zero ↦ λ p. ap (λ k. some (row_of k (base_of k) (occupied_get k found))) (plus_zero s)
        | suc i ↦ λ p.
            each i (omega arith)
            ∙ ap (λ k. some (row_of k (base_of k) (occupied_get k found))) (plus_suc s i)
      ],
    )

-- The table has a row for each of the sixteen slots, and the row of a slot says what a read of that
-- slot alone says.
pub apps_json_lem :
    (image : Bytes)
    → (rows : List Row) × (apps_json image ≡ ok rows)
      × (length rows ≡ slot_count)
      × ((i : ℕ)
          → i < slot_count
          → (found : Option Content) × (read_slot image i ≡ ok found)
            × (get_elem? rows i ≡ some (row_of i (base_of i) found)))
unfolding apps_json list_apps
apps_json_lem image =
    let (found, e, _, inside) = list_from-lem slot_count 0 image (omega arith) in
    let (rows, f, size, each) = rows_from-lem slot_count 0 found (omega arith) in
    (
      rows,
      rw (e, f),
      size,
      λ i p.
          let start : 0 + i ≡ i = omega arith in
          (
            read_at image (base_of i),
            read_slot-lt image i p,
            each i p
                ∙ ap (λ k. some (row_of k (base_of k) (occupied_get k found))) start
                ∙ ap (λ o. some (row_of i (base_of i) o)) (inside i (omega arith) p),
          ),
    )
