-- ===== src/Serial/Handshake.antt =====
-- `Flasher.wait_for_device` and `Flasher.handshake` of tools/uvk5_serial_flash.py. A round is the list of
-- the messages that `take` gives after one call of `_pump`.
pub mod Replied
mod Tests
use uv_k5_v3_emulator.Common.{
  ℕ, zero, suc, Bool, true, false, Option, none, some, List, [], ◌∷◌, ◌++◌, ◌||◌, ◌==◌,
  if◌then◌else◌, take,
}
use uv_k5_v3_emulator.Common.Slices.{slice}
use uv_k5_v3_emulator.Common.Words.{Bytes}
use uv_k5_v3_emulator.Common.Text.{Text, before_nul, decode_ascii, encode_ascii, pad_nul}
use uv_k5_v3_emulator.Common.Result.{Result, ok, err}
use uv_k5_v3_emulator.Serial.Frame.{StructError, build}
use uv_k5_v3_emulator.Serial.Reassembly.{Message}

abbrev pub msg_notify_dev_info : ℕ
msg_notify_dev_info = 0x0518

abbrev pub msg_notify_bl_ver : ℕ
msg_notify_bl_ver = 0x0530

-- The bootloader's version in an announcement.
unfoldable pub bl_of : Bytes → Text
bl_of content = decode_ascii (before_nul (slice content 16 32))

-- The version of the first announcement, and the messages that are left to be taken.
unfoldable pub find_device : List Message → Option (Text × List Message)
find_device [] = none
find_device ((kind, content) ∷ msgs) =
    let later = find_device msgs in
    if kind == msg_notify_dev_info then some (bl_of content, msgs) else later

abbrev pub waited :
    Option (Text × List Message) → Option (Text × List Message) → Option (Text × List Message)
waited none later = later
waited (some found) later = some found

-- The rounds before the deadline; `none` is the SystemExit.
unfoldable pub wait_for_device : List (List Message) → Option (Text × List Message)
wait_for_device [] = none
wait_for_device (msgs ∷ rounds) =
    let later = wait_for_device rounds in waited (find_device msgs) later

unfoldable pub any_announced : List Message → Bool
any_announced [] = false
any_announced ((kind, content) ∷ msgs) = kind == msg_notify_dev_info || any_announced msgs

pub data HandshakeError : Type 0 where
  -- the UnicodeEncodeError of the version
  no_ascii : HandshakeError
  struct_error : HandshakeError

-- How the handshake ended, and the frames that it sent.
abbrev pub Shaken : Type 0
Shaken = Result HandshakeError (Unit {0}) × List Bytes

abbrev pub reply_then : Result StructError Bytes → Shaken → Shaken
reply_then (err e) more = (err struct_error, [])
reply_then (ok frame) (result, sent) = (result, frame ∷ sent)

-- The loop, with `n` replies still to send.
unfoldable pub shake_rounds : ℕ → Result StructError Bytes → List (List Message) → Shaken
shake_rounds zero frame rounds = (ok tt, [])
shake_rounds (suc n) frame [] = (ok tt, [])
shake_rounds (suc n) frame (msgs ∷ rounds) =
    let more = shake_rounds n frame rounds in
    let skipped = shake_rounds (suc n) frame rounds in
    if any_announced msgs then reply_then frame more else skipped

abbrev pub shake_with : ℕ → List (List Message) → Option Bytes → Shaken
shake_with times rounds none = (err no_ascii, [])
shake_with times rounds (some bl) =
    shake_rounds times (build msg_notify_bl_ver (pad_nul 4 bl)) rounds

unfoldable pub handshake : Text → ℕ → List (List Message) → Shaken
handshake bl_ver times rounds = shake_with times rounds (encode_ascii (take 4 bl_ver))
