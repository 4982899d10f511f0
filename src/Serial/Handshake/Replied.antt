-- ===== src/Serial/Handshake/Replied.antt =====
-- What a device that announces itself is answered.
use uv_k5_v3_emulator.Common.{
  ℕ, zero, suc, inl, inr, ◌+◌, ◌-◌, ◌≤◌, ◌≡◌, ◌∙◌, refl, ap, arith, true, false, none, some, List,
  [], ◌∷◌, ◌++◌, ◌&&◌, ltb, if◌then◌else◌, length, min, replicate, take, length-take, Bool-cases,
}
use uv_k5_v3_emulator.Common.Slices.{slice}
use uv_k5_v3_emulator.Common.Words.{Bytes, IsBytes, IsBytes-append, pack16}
use uv_k5_v3_emulator.Common.Text.{
  Text, IsPlain, pad_nul, before_nul-pad_nul, decode_ascii-IsPlain, encode_ascii-IsPlain,
  length-pad_nul,
}
use uv_k5_v3_emulator.Common.Result.{ok}
use uv_k5_v3_emulator.Serial.Frame.{build, magic, obfuscate, frame_body, end_mark}
use uv_k5_v3_emulator.Serial.Reassembly.{Message, take_frame}
use uv_k5_v3_emulator.Serial.Reassembly.RoundTrip.{take_frame-build, nothing-IsNoise}
use uv_k5_v3_emulator.Serial.Handshake.{
  msg_notify_dev_info, msg_notify_bl_ver, bl_of, find_device, wait_for_device, any_announced,
  shake_rounds, handshake,
}

-- The rounds in which the device announces itself.
unfoldable pub announced : List (List Message) → ℕ
announced [] = 0
announced (msgs ∷ rounds) = if any_announced msgs then suc (announced rounds) else announced rounds

min_zero : (k : ℕ) → min 0 k ≡ 0
min_zero k = omega arith

min-suc_zero : (n : ℕ) → min (suc n) 0 ≡ 0
min-suc_zero n = omega arith

min-suc : (n k : ℕ) → min (suc n) (suc k) ≡ suc (min n k)
min-suc n k = omega arith

shake_rounds_lem :
    (n : ℕ) (frame : Bytes) (rounds : List (List Message))
    → shake_rounds n (ok frame) rounds ≡ (ok tt, replicate (min n (announced rounds)) frame)
unfolding shake_rounds announced replicate
shake_rounds_lem zero frame rounds = rw (min_zero (announced rounds)) refl
shake_rounds_lem (suc n) frame [] = rw (min-suc_zero n) refl
shake_rounds_lem (suc n) frame (msgs ∷ rounds) = elim (Bool-cases (any_announced msgs)) [
  | inl e ↦ rw (e, shake_rounds_lem n frame rounds, min-suc n (announced rounds)) refl
  | inr e ↦ rw (e, shake_rounds_lem (suc n) frame rounds) refl
]

bl_of-pad_nul :
    (content : Bytes) (bl : Text)
    → IsPlain bl
    → slice content 16 32 ≡ pad_nul 16 bl
    → bl_of content ≡ bl
unfolding bl_of
bl_of-pad_nul content bl plain h =
    rw (h, before_nul-pad_nul 16 bl plain) (decode_ascii-IsPlain bl plain)

find_device-announcement :
    (before after : List Message) (content : Bytes)
    → any_announced before ≡ false
    → find_device (before ++ (msg_notify_dev_info, content) ∷ after) ≡ some (bl_of content, after)
unfolding find_device any_announced
find_device-announcement [] after content h = refl
find_device-announcement ((kind, c) ∷ before) after content h =
    ground (arith, find_device-announcement before after content)

find_device-none : (msgs : List Message) → any_announced msgs ≡ false → find_device msgs ≡ none
unfolding find_device any_announced
find_device-none [] h = refl
find_device-none ((kind, c) ∷ msgs) h = ground (arith, find_device-none msgs)

wait_for_device-announcement :
    (quiet : List (List Message)) (before after : List Message) (content : Bytes)
    (later : List (List Message))
    → announced quiet ≡ 0
    → any_announced before ≡ false
    → wait_for_device (quiet ++ (before ++ (msg_notify_dev_info, content) ∷ after) ∷ later)
      ≡ some (bl_of content, after)
unfolding wait_for_device announced
wait_for_device-announcement [] before after content later h k =
    rw (find_device-announcement before after content k) refl
wait_for_device-announcement (msgs ∷ quiet) before after content later h k =
    elim (Bool-cases (any_announced msgs)) [
      | inl e ↦ absurd (ground (arith, e, h))
      | inr e ↦
          rw (find_device-none msgs e)
            (wait_for_device-announcement quiet before after content later (ground (arith, e, h)) k)
    ]

take-IsPlain : (n : ℕ) (cs : Text) → IsPlain cs → IsPlain (take n cs)
unfolding take
take-IsPlain zero cs h = tt
take-IsPlain (suc n) [] h = tt
take-IsPlain (suc n) (c ∷ cs) h = (h.0, take-IsPlain n cs h.1)

take-length : (n : ℕ) (cs : Text) → length (take n cs) ≤ n
take-length n cs = omega (arith, length-take n cs)

build_short :
    (bs : Bytes) → length bs ≤ 4 → (frame : Bytes) × (build msg_notify_bl_ver bs ≡ ok frame)
unfolding build
build_short bs h =
    let fits : ltb msg_notify_bl_ver 0x10000 && ltb (length bs + 4) 0x10000 ≡ true = ground arith in
    (
      magic
          ++ (pack16 (length bs + 4) ++ (obfuscate (frame_body msg_notify_bl_ver bs) ++ end_mark)),
      rw fits refl,
    )

IsBytes-plain : (cs : Text) → IsPlain cs → IsBytes cs
IsBytes-plain [] h = tt
IsBytes-plain (c ∷ cs) h = (omega arith, IsBytes-plain cs h.1)

zeros-IsBytes : (n : ℕ) → IsBytes (replicate n 0)
unfolding replicate
zeros-IsBytes zero = tt
zeros-IsBytes (suc n) = (omega arith, zeros-IsBytes n)

abbrev pub want_of : Text → Bytes
want_of bl = pad_nul 4 (take 4 bl)

want_of-IsBytes : (bl : Text) → IsPlain bl → IsBytes (want_of bl)
unfolding pad_nul
want_of-IsBytes bl h =
    IsBytes-append (take 4 bl) (replicate (4 - length (take 4 bl)) 0)
      (IsBytes-plain (take 4 bl) (take-IsPlain 4 bl h)) (zeros-IsBytes (4 - length (take 4 bl)))

handshake-IsPlain :
    (bl : Text) (times : ℕ) (rounds : List (List Message)) (frame : Bytes)
    → IsPlain bl
    → build msg_notify_bl_ver (want_of bl) ≡ ok frame
    → handshake bl times rounds ≡ (ok tt, replicate (min times (announced rounds)) frame)
unfolding handshake
handshake-IsPlain bl times rounds frame h built =
    rw (encode_ascii-IsPlain (take 4 bl) (take-IsPlain 4 bl h), built)
      (shake_rounds_lem times frame rounds)

-- The device's side of a reply.
abbrev pub Understood : Bytes → Bytes → Type 0
Understood frame want =
    (rest : Bytes)
    → take_frame (record { buf = frame ++ rest })
      ≡ some (some (msg_notify_bl_ver, want), record { buf = rest })

-- A device that announces itself, after any rounds and any messages without an announcement, with a
-- version that is printable ASCII in a field padded with NUL: the version is read as it is, and what
-- follows the announcement is left for the handshake. The handshake then sends one reply in each of
-- the next rounds with an announcement, up to `times`, and nothing in the others. All of the replies
-- are the frame from which a device that unframes it reads the first four characters of its own version.
pub handshake-wait_for_device :
    (quiet : List (List Message)) (before after : List Message) (content : Bytes)
    (later : List (List Message)) (bl : Text) (times : ℕ) (rounds : List (List Message))
    → announced quiet ≡ 0
    → any_announced before ≡ false
    → IsPlain bl
    → slice content 16 32 ≡ pad_nul 16 bl
    → (wait_for_device (quiet ++ (before ++ (msg_notify_dev_info, content) ∷ after) ∷ later)
        ≡ some (bl, after))
      × (frame : Bytes) × (handshake bl times rounds
          ≡ (ok tt, replicate (min times (announced rounds)) frame))
      × Understood frame (want_of bl)
handshake-wait_for_device quiet before after content later bl times rounds h k plain field =
    let (frame, built) =
      build_short (want_of bl) (omega (arith, length-pad_nul 4 (take 4 bl) (take-length 4 bl))) in
    (
      wait_for_device-announcement quiet before after content later h k
          ∙ ap (λ t. some (t, after)) (bl_of-pad_nul content bl plain field),
      frame,
      handshake-IsPlain bl times rounds frame plain built,
      λ rest.
          take_frame-build [] msg_notify_bl_ver (want_of bl) frame rest built
            (want_of-IsBytes bl plain) nothing-IsNoise,
    )
