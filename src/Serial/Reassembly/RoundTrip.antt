-- ===== src/Serial/Reassembly/RoundTrip.antt =====
-- `Frames.take` undoes `build`: a frame in the stream comes out as the message it was built from.
use native.Mathlib.Numerals.{add-one}
use mathlib.Core.List.{append_assoc}
use uv_k5_v3_emulator.Common.{
  ℕ, ◌+◌, ◌*◌, ◌%◌, ◌/◌, ◌<◌, ◌≡◌, refl, ◌∙◌, false, Option, none, some, [], ◌∷◌, ◌++◌, arith, ltb,
  length, drop, length-append, ltb-false, Option-cases, inl, inr, get_elem?,
}
use uv_k5_v3_emulator.Common.Slices.{
  slice, slice-append_add, drop-append_add, drop_prefix, slice_middle,
}
use uv_k5_v3_emulator.Common.Words.{
  Bytes, IsBytes, u16_at, byte_at, bytes_eq_refl, u16_at-append_add, pack16, pack16_value,
}
use uv_k5_v3_emulator.Common.Result.{ok}
use uv_k5_v3_emulator.Serial.Frame.{
  magic, end_mark, obfuscate, frame_body, build, obfuscate-obfuscate, length-obfuscate,
  length-frame_body, IsBytes-frame_body, crc16_xmodem,
}
use uv_k5_v3_emulator.Serial.Reassembly.{
  returned, find_magic, take_at, take_round, take_loop, take_frame, Message,
}

-- What `build` puts on the wire.
abbrev pub wire : ℕ → Bytes → Bytes
wire t bs = magic ++ (pack16 (length bs + 4) ++ (obfuscate (frame_body t bs) ++ end_mark))

-- Noise in which no frame begins, whatever follows it.
abbrev pub IsNoise : Bytes → Type 0
IsNoise noise = find_magic (noise ++ 0xab ∷ []) ≡ none

pub nothing-IsNoise : IsNoise []
unfolding find_magic
nothing-IsNoise = refl

find_magic-noise :
    (noise bs : Bytes)
    → IsNoise noise
    → find_magic (noise ++ 0xab ∷ 0xcd ∷ bs) ≡ some (length noise)
unfolding find_magic
find_magic-noise [] bs h = ground arith
find_magic-noise (x ∷ []) bs h = ground arith
find_magic-noise (x ∷ y ∷ noise) bs h =
    elim (Option-cases (find_magic ((y ∷ noise) ++ 0xab ∷ []))) [
      | inl e ↦ ground (arith, find_magic-noise (y ∷ noise) bs e)
      | inr (j, e) ↦ absurd (ground arith)
    ]

module _ (t : ℕ) (bs rest : Bytes) (type_fits : t < 0x10000) (data_fits : length bs + 4 < 0x10000)
    (bytes : IsBytes bs) where
  after : Bytes
  after = obfuscate (frame_body t bs) ++ (end_mark ++ rest)

  stream : Bytes
  unfolding after
  stream = magic ++ (pack16 (length bs + 4) ++ after)

  stream-eq-wire : wire t bs ++ rest ≡ stream
  unfolding stream after
  stream-eq-wire = rw (append_assoc (obfuscate (frame_body t bs)) end_mark rest)

  body_slice : slice stream 4 (length bs + 10) ≡ obfuscate (frame_body t bs)
  unfolding stream after
  body_slice =
      slice_middle (magic ++ pack16 (length bs + 4)) (obfuscate (frame_body t bs))
        (end_mark ++ rest) 4 (length bs + 10) refl
        (omega (arith, length-obfuscate (frame_body t bs), length-frame_body t bs))

  end_slice : slice stream (length bs + 10) (length bs + 12) ≡ end_mark
  unfolding stream after
  end_slice =
      slice_middle (magic ++ (pack16 (length bs + 4) ++ obfuscate (frame_body t bs))) end_mark rest
        (length bs + 10) (length bs + 12)
        (omega (arith, length-obfuscate (frame_body t bs), length-frame_body t bs)) (omega arith)

  rest_drop : drop (length bs + 12) stream ≡ rest
  unfolding stream after
  rest_drop = rw (← append_assoc (obfuscate (frame_body t bs)) end_mark rest) (
      drop_prefix (wire t bs) rest (length bs + 12) (
        omega (
          arith,
          length-append {0} (obfuscate (frame_body t bs)) end_mark,
          length-obfuscate (frame_body t bs),
          length-frame_body t bs,
        )))

  type_field : u16_at (frame_body t bs) 0 ≡ t
  unfolding u16_at frame_body byte_at get_elem?
  type_field = pack16_value t type_fits

  data_field : slice (frame_body t bs) 4 (4 + u16_at (frame_body t bs) 2) ≡ bs
  unfolding u16_at frame_body byte_at get_elem?
  data_field =
      let e : 4 + (length bs % 256 + 256 * (length bs / 256 % 256)) ≡ 4 + length bs = omega arith in
      rw e (
        slice_middle (pack16 t ++ pack16 (length bs)) bs
          (pack16 (crc16_xmodem (pack16 t ++ (pack16 (length bs) ++ bs)))) 4 (4 + length bs) refl
          refl)

  length-stream : length stream ≡ length bs + 12 + length rest
  unfolding stream after
  length-stream = omega (
    arith,
    length-append {0} (obfuscate (frame_body t bs)) (end_mark ++ rest),
    length-append {0} end_mark rest,
    length-obfuscate (frame_body t bs),
    length-frame_body t bs,
  )

  length_field : u16_at stream 2 ≡ length bs + 4
  unfolding stream u16_at byte_at get_elem?
  length_field = pack16_value (length bs + 4) data_fits

  deobfuscated : obfuscate (obfuscate (frame_body t bs)) ≡ frame_body t bs
  deobfuscated = obfuscate-obfuscate (frame_body t bs) (IsBytes-frame_body t bs bytes)

  module _ (noise : Bytes) where
    end_at : ℕ
    end_at = length noise + 6 + (length bs + 4)

    slice_past :
        (a b c d : ℕ) (part : Bytes)
        → slice stream a b ≡ part
        → length noise + a ≡ c
        → length noise + b ≡ d
        → slice (noise ++ stream) c d ≡ part
    slice_past a b c d part h p q = rw (← p, ← q) (slice-append_add noise stream a b ∙ h)

    length-noise_stream : length (noise ++ stream) ≡ end_at + 2 + length rest
    unfolding end_at
    length-noise_stream = omega (arith, length-append {0} noise stream, length-stream)

    long_enough : ltb (length (noise ++ stream)) (length noise + 8) ≡ false
    unfolding end_at
    long_enough = ltb-false _ _ (omega (arith, length-noise_stream))

    complete : ltb (length (noise ++ stream)) (end_at + 2) ≡ false
    complete = ltb-false _ _ (omega (arith, length-noise_stream))

    length_read : u16_at (noise ++ stream) (length noise + 2) ≡ length bs + 4
    length_read = u16_at-append_add noise stream 2 ∙ length_field

    end_read : slice (noise ++ stream) end_at (end_at + 2) ≡ end_mark
    unfolding end_at
    end_read = slice_past _ _ _ _ _ end_slice (omega arith) (omega arith)

    body_read : slice (noise ++ stream) (length noise + 4) end_at ≡ obfuscate (frame_body t bs)
    unfolding end_at
    body_read = slice_past _ _ _ _ _ body_slice (omega arith) (omega arith)

    rest_left : drop (end_at + 2) (noise ++ stream) ≡ rest
    unfolding end_at
    rest_left =
        let e : length noise + 6 + (length bs + 4) + 2 ≡ length noise + (length bs + 12) =
          omega arith in
        rw e (drop-append_add noise stream (length bs + 12) ∙ rest_drop)

    not_short : ltb (length (frame_body t bs)) 4 ≡ false
    not_short = ltb-false _ _ (omega (arith, length-frame_body t bs))

    -- One round takes the frame that begins where the magic was found.
    take_at-stream : take_at (noise ++ stream) (length noise) ≡ returned (some (t, bs)) rest
    unfolding take_at end_at
    take_at-stream = rw (
      long_enough,
      length_read,
      complete,
      end_read,
      bytes_eq_refl end_mark,
      body_read,
      deobfuscated,
      not_short,
      type_field,
      data_field,
      rest_left,
    )

    take_round-stream : IsNoise noise → take_round (noise ++ stream) ≡ returned (some (t, bs)) rest
    unfolding take_round stream
    take_round-stream h =
        rw (find_magic-noise noise (pack16 (length bs + 4) ++ after) h, take_round) take_at-stream

take_loop-returned :
    (n : ℕ) (buf : Bytes) {m : Option Message} {left : Bytes}
    → take_round buf ≡ returned m left
    → take_loop (n + 1) buf ≡ some (m, left)
unfolding take_loop
take_loop-returned n buf e = rw add-one (rw (e, take_loop))

pub take_frame-returned :
    (buf : Bytes) {m : Option Message} {left : Bytes}
    → take_round buf ≡ returned m left
    → take_frame (record { buf = buf }) ≡ some (m, record { buf = left })
unfolding take_frame
take_frame-returned buf e = rw (take_loop-returned (length buf) buf e, take_frame)

pub build_inversion :
    (t : ℕ) (bs frame : Bytes)
    → build t bs ≡ ok frame
    → (t < 0x10000) × (length bs + 4 < 0x10000) × (frame ≡ wire t bs)
unfolding build
build_inversion t bs frame h = ground arith

-- Of a stream that holds a frame built from a message, behind bytes in which no frame begins, `take`
-- returns that message and leaves exactly what follows the frame.
pub take_frame-build :
    (noise : Bytes) (t : ℕ) (bs frame rest : Bytes)
    → build t bs ≡ ok frame
    → IsBytes bs
    → IsNoise noise
    → take_frame (record { buf = noise ++ (frame ++ rest) })
      ≡ some (some (t, bs), record { buf = rest })
take_frame-build noise t bs frame rest built bytes quiet =
    let (type_fits, data_fits, e) = build_inversion t bs frame built in
    let r = take_round-stream t bs rest type_fits data_fits bytes noise quiet in
    rw (e, stream-eq-wire t bs rest type_fits data_fits bytes) (take_frame-returned _ r)
