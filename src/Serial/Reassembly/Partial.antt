-- ===== src/Serial/Reassembly/Partial.antt =====
-- A frame that arrives in two pieces.
use mathlib.Core.List.{append-nil}
use uv_k5_v3_emulator.Common.{
  ℕ, ◌+◌, ◌<◌, ◌≡◌, refl, sym, ◌∙◌, ap, none, some, [], ◌∷◌, ◌++◌, arith, ltb, lt→ltb, length,
  length-append, drop, get_elem?, Bool-cases, inl, inr,
}
use uv_k5_v3_emulator.Common.Words.{Bytes, IsBytes, u16_at, byte_at, u16_at-append_left}
use uv_k5_v3_emulator.Common.Result.{ok}
use uv_k5_v3_emulator.Serial.Frame.{
  end_mark, obfuscate, frame_body, build, length-obfuscate, length-frame_body,
}
use uv_k5_v3_emulator.Serial.Reassembly.{
  returned, find_magic, take_at, take_round, feed, take_frame,
}
use uv_k5_v3_emulator.Serial.Reassembly.RoundTrip.{
  wire, take_frame-returned, build_inversion, take_frame-build,
}

pub length-wire : (t : ℕ) (bs : Bytes) → length (wire t bs) ≡ length bs + 12
length-wire t bs = omega (
  arith,
  length-append {0} (obfuscate (frame_body t bs)) end_mark,
  length-obfuscate (frame_body t bs),
  length-frame_body t bs,
)

wire-length_field :
    (t : ℕ) (bs : Bytes) → length bs + 4 < 0x10000 → u16_at (wire t bs) 2 ≡ length bs + 4
unfolding u16_at byte_at get_elem?
wire-length_field t bs h = omega arith

take_round-partial :
    (t : ℕ) (bs p q : Bytes)
    → length bs + 4 < 0x10000
    → 0xab ∷ 0xcd ∷ p ++ q ≡ wire t bs
    → 0 < length q
    → take_round (0xab ∷ 0xcd ∷ p) ≡ returned none (0xab ∷ 0xcd ∷ p)
unfolding take_round find_magic take_at drop
take_round-partial t bs p q h e more =
    let total : length (0xab ∷ 0xcd ∷ p) + length q ≡ length bs + 12 =
      sym (length-append (0xab ∷ 0xcd ∷ p) q) ∙ ap length e ∙ length-wire t bs in
    elim (Bool-cases (ltb (length (0xab ∷ 0xcd ∷ p)) 8)) [
      | inl short ↦ rw short
      | inr longer ↦
          let field : u16_at (0xab ∷ 0xcd ∷ p) 2 ≡ length bs + 4 =
            sym (u16_at-append_left (0xab ∷ 0xcd ∷ p) q 2 (ground arith))
            ∙ ap (λ w. u16_at w 2) e
            ∙ wire-length_field t bs h in
          rw (
            longer,
            field,
            lt→ltb (length (0xab ∷ 0xcd ∷ p)) (6 + (length bs + 4) + 2) (omega arith),
          )
    ]

-- A frame cut anywhere behind its two magic bytes: `take` keeps the first piece and returns
-- nothing, and returns the message once the second piece is fed.
pub take_frame-pieces :
    (t : ℕ) (bs frame p q : Bytes)
    → build t bs ≡ ok frame
    → IsBytes bs
    → 0xab ∷ 0xcd ∷ p ++ q ≡ frame
    → 0 < length q
    → let first = feed (record { buf = [] }) (0xab ∷ 0xcd ∷ p) in
      (take_frame first ≡ some (none, first))
      × (take_frame (feed first q) ≡ some (some (t, bs), record { buf = [] }))
unfolding feed find_magic
take_frame-pieces t bs frame p q built bytes e more =
    let (type_fits, data_fits, w) = build_inversion t bs frame built in
    (
      take_frame-returned (0xab ∷ 0xcd ∷ p) (take_round-partial t bs p q data_fits (e ∙ w) more),
      rw (e, ← append-nil frame) (take_frame-build [] t bs frame [] built bytes refl),
    )

-- A frame cut between its two magic bytes: `take` drops the first byte, and the message never comes
-- out, if no other frame begins in the rest.
pub take_frame-split_magic :
    (t : ℕ) (bs frame q : Bytes)
    → build t bs ≡ ok frame
    → 0xab ∷ q ≡ frame
    → find_magic q ≡ none
    → let first = feed (record { buf = [] }) (0xab ∷ []) in
      (take_frame first ≡ some (none, record { buf = [] }))
      × (take_frame (feed (record { buf = [] }) q) ≡ some (none, record { buf = [] }))
unfolding feed
take_frame-split_magic t bs frame q built e lost = (
  take_frame-returned (0xab ∷ []) (unfold take_round find_magic in refl),
  take_frame-returned q (unfold take_round in rw (lost, take_round)),
)
