-- ===== src/Serial/Reassembly.antt =====
-- The class `Frames` of tools/uvk5_serial_flash.py: frames out of a byte stream.
pub mod Progress
pub mod RoundTrip
pub mod Partial
pub mod Drain
mod Tests
use uv_k5_v3_emulator.Common.{
  ℕ, zero, suc, ◌+◌, ◌-◌, ◌≤◌, ◌<◌, ◌≡◌, refl, Bool, true, false, Option, none, some, List, [], ◌∷◌,
  ◌++◌, arith, ltb, ◌==◌, ◌&&◌, if◌then◌else◌, length, drop, Option-cases,
}
use uv_k5_v3_emulator.Common.Slices.{slice}
use uv_k5_v3_emulator.Common.Words.{Bytes, bytes_eq, u16_at}
use uv_k5_v3_emulator.Serial.Frame.{magic, end_mark, obfuscate}

-- `self._buf.find(MAGIC)`; `none` is -1.
pub find_magic : Bytes → Option ℕ
find_magic [] = none
find_magic (x ∷ []) = none
find_magic (x ∷ y ∷ bs) =
    let rest = find_magic (y ∷ bs) in
    if x == 0xab && y == 0xcd then some 0 else elim rest [ none ↦ none | some i ↦ some (suc i) ]

pub record Frames : Type 0 where
  pub buf : Bytes

unfoldable pub feed : Frames → Bytes → Frames
feed f chunk = record { buf = f.buf ++ chunk }

-- A message: its type and its data.
abbrev pub Message : Type 0
Message = ℕ × Bytes

-- One round of the loop of `take`: it returns, or it goes on with what is left.
pub data Round : Type 0 where
  returned : Option Message → Bytes → Round
  continued : Bytes → Round

unfoldable pub take_at : Bytes → ℕ → Round
take_at buf start =
    if ltb (length buf) (start + 8)
    then returned none (drop start buf)
    else let end = start + 6 + u16_at buf (start + 2) in
      if ltb (length buf) (end + 2)
      then returned none (drop start buf)
      else if bytes_eq (slice buf end (end + 2)) end_mark
      then (let body = obfuscate (slice buf (start + 4) end) in
          if ltb (length body) 4
          then continued (drop (end + 2) buf)
          else returned (some (u16_at body 0, slice body 4 (4 + u16_at body 2)))
              (drop (end + 2) buf))
      else continued (drop (start + 2) buf)

unfoldable pub take_round : Bytes → Round
take_round buf = elim (find_magic buf) [ none ↦ returned none [] | some start ↦ take_at buf start ]

-- The loop; `none` at the outside means that the fuel ran out.
unfoldable pub take_loop : ℕ → Bytes → Option (Option Message × Bytes)
take_loop zero buf = none
take_loop (suc fuel) buf = elim (take_round buf) [
  | returned msg left ↦ some (msg, left)
  | continued left ↦ take_loop fuel left
]

-- Each further round has a shorter buffer, so this fuel is enough.
unfoldable pub take_frame : Frames → Option (Option Message × Frames)
take_frame f = elim (take_loop (length f.buf + 1) f.buf) [
  | none ↦ none
  | some (msg, left) ↦ some (msg, record { buf = left })
]

-- The inner loop of `_pump`: every message that is complete. `none` means that the fuel ran out.
unfoldable pub drain_loop : ℕ → Frames → Option (List Message × Frames)
drain_loop zero f = none
drain_loop (suc fuel) f = elim (take_frame f) [
  | none ↦ none
  | some (none, g) ↦ some ([], g)
  | some (some msg, g) ↦ elim (drain_loop fuel g) [
    | none ↦ none
    | some (msgs, h) ↦ some (msg ∷ msgs, h)
  ]
]

unfoldable pub drain : Frames → Option (List Message × Frames)
drain f = drain_loop (length f.buf + 1) f
