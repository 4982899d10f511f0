-- ===== src/Serial/Reassembly/Progress.antt =====
-- The loop of `Frames.take` ends: each round that goes on has dropped two bytes or more.
use uv_k5_v3_emulator.Common.{
  ℕ, zero, suc, ◌+◌, ◌<◌, ◌≡◌, refl, Option, none, some, [], ◌∷◌, ◌≢◌, arith, length, length-drop,
  Option-cases, inl, inr, ◌⊎◌,
}
use uv_k5_v3_emulator.Common.Words.{Bytes, u16_at}
use uv_k5_v3_emulator.Serial.Reassembly.{
  Round, returned, continued, find_magic, take_at, take_round, take_loop, Frames, take_frame,
  Message,
}

find_magic-lt : (buf : Bytes) (i : ℕ) → find_magic buf ≡ some i → i + 1 < length buf
unfolding find_magic
find_magic-lt [] i h = cc
find_magic-lt (x ∷ []) i h = cc
find_magic-lt (x ∷ y ∷ bs) i h = elim (Option-cases (find_magic (y ∷ bs))) [
  | inl e ↦ ground arith
  | inr (j, e) ↦ ground (arith, find_magic-lt (y ∷ bs) j e)
]

-- What is left after a round that goes on is shorter.
take_at-continued :
    (buf : Bytes) (start : ℕ) (left : Bytes)
    → take_at buf start ≡ continued left
    → length left < length buf
unfolding take_at
take_at-continued buf start left h = ground (
  arith,
  length-drop start buf,
  length-drop (start + 2) buf,
  length-drop (start + 6 + u16_at buf (start + 2) + 2) buf,
)

take_round-continued :
    (buf left : Bytes) → take_round buf ≡ continued left → length left < length buf
unfolding take_round
take_round-continued buf left h = elim (Option-cases (find_magic buf)) [
  | inl e ↦ ground arith
  | inr (i, e) ↦ ground (arith, take_at-continued buf i left)
]

Round-cases :
    (r : Round)
    → ((m : Option Message) × (l : Bytes) × (r ≡ returned m l)) ⊎ ((l : Bytes) × (r ≡ continued l))
Round-cases (returned m l) = inl (m, l, refl)
Round-cases (continued l) = inr (l, refl)

take_loop_total : (fuel : ℕ) (buf : Bytes) → length buf < fuel → take_loop fuel buf ≢ none
unfolding take_loop
take_loop_total zero buf h = absurd (omega arith)
take_loop_total (suc fuel) buf h = elim (Round-cases (take_round buf)) [
  | inl (m, l, e) ↦ rw (e, take_loop) (λ p. cc)
  | inr (l, e) ↦
      rw (e, take_loop) (take_loop_total fuel l (omega (arith, take_round-continued buf l e)))
]

-- The loop of `take` ends within its fuel, whatever the buffer holds.
pub take_frame_total : (f : Frames) → take_frame f ≢ none
unfolding take_frame
take_frame_total f = elim (Option-cases (take_loop (length f.buf + 1) f.buf)) [
  | inl e ↦ absurd (take_loop_total (length f.buf + 1) f.buf (omega arith) e)
  | inr (r, e) ↦ rw (e, take_frame) (λ p. cc)
]
