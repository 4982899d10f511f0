-- ===== src/Serial/Reassembly/Drain.antt =====
-- Frames sent one after the other come out as the messages they were built from, in order.
use uv_k5_v3_emulator.Common.{
  ℕ, zero, suc, ◌+◌, ◌≤◌, ◌<◌, ◌≡◌, refl, ◌∙◌, ap, none, some, List, [], ◌∷◌, ◌++◌, arith, length,
  length-append, inl, inr,
}
use uv_k5_v3_emulator.Common.Words.{Bytes, IsBytes}
use uv_k5_v3_emulator.Common.Result.{Result, ok, ◌>>=◌, Result-cases}
use uv_k5_v3_emulator.Serial.Frame.{StructError, build}
use uv_k5_v3_emulator.Serial.Reassembly.{
  feed, take_frame, Message, drain, drain_loop, take_round, find_magic,
}
use uv_k5_v3_emulator.Serial.Reassembly.RoundTrip.{
  take_frame-build, take_frame-returned, build_inversion,
}
use uv_k5_v3_emulator.Serial.Reassembly.Partial.{length-wire}

-- What a sender of the messages puts on the wire.
unfoldable pub build_all : List Message → Result StructError Bytes
build_all [] = ok []
build_all ((t, bs) ∷ msgs) = do frame ← build t bs; rest ← build_all msgs; ok (frame ++ rest)

abbrev pub AllBytes : List Message → Type 0
AllBytes [] = Unit
AllBytes ((t, bs) ∷ msgs) = IsBytes bs × AllBytes msgs

build_all_cons :
    (t : ℕ) (bs : Bytes) (msgs : List Message) (stream : Bytes)
    → build_all ((t, bs) ∷ msgs) ≡ ok stream
    → (frame : Bytes) × (rest : Bytes) × (build t bs ≡ ok frame)
      × (build_all msgs ≡ ok rest)
      × (frame ++ rest ≡ stream)
unfolding build_all
build_all_cons t bs msgs stream h = elim (Result-cases (build t bs)) [
  | inl (frame, e) ↦ elim (Result-cases (build_all msgs)) [
    | inl (rest, f) ↦ (frame, rest, e, f, ground arith)
    | inr (x, f) ↦ absurd (ground arith)
  ]
  | inr (x, e) ↦ absurd (ground arith)
]

take_frame_nil : take_frame (record { buf = [] }) ≡ some (none, record { buf = [] })
take_frame_nil = take_frame-returned [] (unfold take_round find_magic in refl)

drain_loop-build_all :
    (fuel : ℕ) (msgs : List Message) (stream : Bytes)
    → build_all msgs ≡ ok stream
    → AllBytes msgs
    → length msgs < fuel
    → drain_loop fuel (record { buf = stream }) ≡ some (msgs, record { buf = [] })
unfolding drain_loop find_magic
drain_loop-build_all zero msgs stream h bytes enough = absurd (omega arith)
drain_loop-build_all (suc fuel) [] stream h bytes enough =
    let e : [] ≡ stream = unfold build_all in cc in rw (← e, take_frame_nil, drain_loop)
drain_loop-build_all (suc fuel) ((t, bs) ∷ msgs) stream h bytes enough =
    let (frame, rest, e, f, joined) = build_all_cons t bs msgs stream h in
    let first = take_frame-build [] t bs frame rest e bytes.0 refl in
    rw (
      ← joined,
      first,
      drain_loop,
      drain_loop-build_all fuel msgs rest f bytes.1 (omega arith),
      drain_loop,
    )

length-build_all :
    (msgs : List Message) (stream : Bytes)
    → build_all msgs ≡ ok stream
    → length msgs ≤ length stream
length-build_all [] stream h = omega arith
length-build_all ((t, bs) ∷ msgs) stream h =
    let (frame, rest, e, f, joined) = build_all_cons t bs msgs stream h in
    let (_, _, w) = build_inversion t bs frame e in
    rw (← joined) (
      omega (
        arith,
        length-append {0} frame rest,
        length-build_all msgs rest f,
        ap length w ∙ length-wire t bs,
      ))

-- Whatever messages are built and sent one after the other, the receiver's loop returns exactly
-- those messages in the same order and leaves an empty buffer.
pub drain-build_all :
    (msgs : List Message) (stream : Bytes)
    → build_all msgs ≡ ok stream
    → AllBytes msgs
    → drain (feed (record { buf = [] }) stream) ≡ some (msgs, record { buf = [] })
unfolding drain feed
drain-build_all msgs stream h bytes =
    drain_loop-build_all (length stream + 1) msgs stream h bytes
      (omega (arith, length-build_all msgs stream h))
