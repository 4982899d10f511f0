-- ===== src/SlotRadio.antt =====
-- tools/uvk5_slots_serial.py: the slot commands of the firmware over the serial link. A call takes
-- the number of frames that were sent before it, and returns its result and the frames that it
-- sends; `replies` gives the messages that `_pump` takes after the frame of a number.
pub mod Carries
pub mod Sent
pub mod Size
pub mod Answered
mod Tests
use uv_k5_v3_emulator.Common.{
  ℕ, zero, suc, ◌+◌, ◌*◌, ◌/◌, ◌%◌, ◌-◌, ◌^◌, Bool, true, false, Option, none, some, List, [], ◌∷◌,
  ◌++◌, ◌&&◌, ltb, leb, ◌==◌, if◌then◌else◌, length, take, replicate, get_elem?, not,
}
use uv_k5_v3_emulator.Common.Slices.{slice}
use uv_k5_v3_emulator.Common.Words.{Bytes, pack16, pack32, u32_at, byte_at}
use uv_k5_v3_emulator.Common.Text.{Text, before_nul, decode_ascii}
use uv_k5_v3_emulator.Common.Crc32.{crc32}
use uv_k5_v3_emulator.Common.Result.{Result, ok, err}
use uv_k5_v3_emulator.Serial.Frame.{StructError, build}
use uv_k5_v3_emulator.Serial.Reassembly.{Message}
use uv_k5_v3_emulator.Slots.{SlotError, build_header, slot_image_offset}

abbrev pub msg_session : ℕ
msg_session = 0x0514

abbrev pub msg_session_ack : ℕ
msg_session_ack = 0x0515

abbrev pub msg_slot_info : ℕ
msg_slot_info = 0x0720

abbrev pub msg_slot_info_ack : ℕ
msg_slot_info_ack = 0x0721

abbrev pub msg_slot_erase : ℕ
msg_slot_erase = 0x0722

abbrev pub msg_slot_erase_ack : ℕ
msg_slot_erase_ack = 0x0723

abbrev pub msg_slot_write : ℕ
msg_slot_write = 0x0724

abbrev pub msg_slot_write_ack : ℕ
msg_slot_write_ack = 0x0725

abbrev pub msg_slot_validate : ℕ
msg_slot_validate = 0x0726

abbrev pub msg_slot_validate_ack : ℕ
msg_slot_validate_ack = 0x0727

abbrev pub msg_app_info : ℕ
msg_app_info = 0x0730

abbrev pub msg_app_info_ack : ℕ
msg_app_info_ack = 0x0731

abbrev pub chunk : ℕ
chunk = 200

-- A SlotError, or an exception of Python's own.
pub data RadioError : Type 0 where
  no_session : RadioError
  no_reply : ℕ → RadioError
  no_chunk_reply : ℕ → RadioError
  chunk_status : ℕ → ℕ → RadioError
  erase_status : ℕ → RadioError
  validate_status : ℕ → RadioError
  crc_differs : ℕ → ℕ → RadioError
  bad_image : SlotError → RadioError
  python_error : RadioError

abbrev pub Radio {ℓ} : Type ℓ → Type ℓ
Radio A = ℕ → Result RadioError A × List Bytes

abbrev pub Replies : Type 0
Replies = ℕ → List Message

abbrev pub after_sent {ℓ} :
    {A : Type ℓ} → List Bytes → Result RadioError A × List Bytes → Result RadioError A × List Bytes
after_sent sent (r, more) = (r, sent ++ more)

abbrev pub bound {ℓ κ} :
    {A : Type ℓ} {B : Type κ} → Result RadioError A × List Bytes → (A → Radio B) → Radio B
bound (ok a, sent) k n = after_sent sent (k a (n + length sent))
bound (err e, sent) k n = (err e, sent)

infixl 5 ◌>>=◌
abbrev pub ◌>>=◌ {ℓ κ} : {A : Type ℓ} {B : Type κ} → Radio A → (A → Radio B) → Radio B
(m >>= k) n = bound (m n) k n

abbrev pub returns {ℓ} : {A : Type ℓ} → Result RadioError A → Radio A
returns r n = (r, [])

abbrev pub framed : Result StructError Bytes → Result RadioError Bytes
framed (ok frame) = ok frame
framed (err e) = err python_error

-- `got.get(want)`: the last of the messages of this kind.
unfoldable pub answer_from : Option Bytes → ℕ → List Message → Option Bytes
answer_from found want [] = found
answer_from found want ((kind, content) ∷ msgs) =
    answer_from (if kind == want then some content else found) want msgs

unfoldable pub answer : ℕ → List Message → Option Bytes
answer want msgs = answer_from none want msgs

-- `bytes([slot])`
abbrev pub slot_byte : ℕ → Result RadioError Bytes
slot_byte slot = if ltb slot 256 then ok (slot ∷ []) else err python_error

-- "<I" and "<H"
abbrev pub field32 : ℕ → Result RadioError Bytes
field32 n = if ltb n (2 ^ 32) then ok (pack32 n) else err python_error

-- `ack[i]`
abbrev pub byte_of : Option ℕ → Result RadioError ℕ
byte_of none = err python_error
byte_of (some b) = ok b

-- `except SlotError: pass`
abbrev pub passed : {A : Type 0} → Result RadioError A → Result RadioError (Unit {0})
passed (ok a) = ok tt
passed (err python_error) = err python_error
passed (err no_session) = ok tt
passed (err (no_reply m)) = ok tt
passed (err (no_chunk_reply o)) = ok tt
passed (err (chunk_status o s)) = ok tt
passed (err (erase_status s)) = ok tt
passed (err (validate_status s)) = ok tt
passed (err (crc_differs a b)) = ok tt
passed (err (bad_image e)) = ok tt

abbrev pub pass_error :
    {A : Type 0} → Result RadioError A × List Bytes → Result RadioError (Unit {0}) × List Bytes
pass_error (r, sent) = (passed r, sent)

abbrev pub present : Option Bytes → RadioError → Result RadioError Bytes
present none e = err e
present (some ack) e = ok ack

-- The version in the reply to the handshake.
unfoldable pub version_of : Bytes → Text
version_of ack = decode_ascii (before_nul (take 16 ack))

unfoldable pub session_data : ℕ → Bytes
session_data timestamp = pack32 timestamp ++ replicate 4 0

abbrev pub zero_status : ℕ → RadioError → Result RadioError (Unit {0})
zero_status status e = if status == 0 then ok tt else err e

unfoldable pub chunk_data : ℕ → ℕ → ℕ → Bytes → Bytes
chunk_data timestamp slot at piece =
    slot ∷ 0 ∷ (pack32 at ++ (pack16 (length piece) ++ (pack32 timestamp ++ piece)))

-- The handshake that is renewed before every 25th chunk; `done` chunks are sent.
abbrev pub is_due : ℕ → Bool
is_due done = ltb 0 done && done % 25 == 0

unfoldable pub chunk_count : Bytes → ℕ
chunk_count blob = (length blob + 199) / chunk

abbrev pub crc_of : Bytes → Result RadioError ℕ
crc_of ack = if ltb (length ack) 4 then err python_error else ok (u32_at ack 0)

abbrev pub header_of : Result SlotError Bytes → Result RadioError Bytes
header_of (ok header) = ok header
header_of (err e) = err (bad_image e)

abbrev pub same_crc : ℕ → ℕ → Result RadioError ℕ
same_crc crc own = if crc == own then ok crc else err (crc_differs crc own)

module _ (replies : Replies) (timestamp : ℕ) where
  abbrev pub send : Bytes → Radio (List Message)
  send frame n = (ok (replies n), frame ∷ [])

  -- The handshakes that are left.
  unfoldable pub session_tries : ℕ → Bytes → Radio Text
  session_tries zero frame = returns (err no_session)
  session_tries (suc k) frame = do
    msgs ← send frame
    elim (answer msg_session_ack msgs) [
      | some ack ↦ returns (ok (version_of ack))
      | none ↦ session_tries k frame
    ]

  unfoldable pub session : Radio Text
  session = do
    frame ← returns (framed (build msg_session (session_data timestamp)))
    session_tries 6 frame

  abbrev pub caught_session : Radio (Unit {0})
  caught_session n = pass_error (session n)

  -- Between two attempts of `_command`, if one is left.
  abbrev pub renewed : ℕ → Radio (Unit {0})
  renewed zero = returns (ok tt)
  renewed (suc k) = caught_session

  -- The attempts that are left.
  unfoldable pub attempts : ℕ → ℕ → Bytes → Radio (Option Bytes)
  attempts zero ack_id frame = returns (ok none)
  attempts (suc k) ack_id frame = do
    msgs ← send frame
    elim (answer ack_id msgs) [
      | some ack ↦ returns (ok (some ack))
      | none ↦ renewed k >>= λ u. attempts k ack_id frame
    ]

  -- `_command`, with its 4 tries
  unfoldable pub command : ℕ → Bytes → ℕ → Radio (Option Bytes)
  command msg_id content ack_id = do
    frame ← returns (framed (build msg_id content))
    attempts 4 ack_id frame

  -- `_command`, and the SlotError of no reply
  unfoldable pub required : ℕ → Bytes → ℕ → RadioError → Radio Bytes
  required msg_id content ack_id e = do ack ← command msg_id content ack_id; returns (present ack e)

  unfoldable pub app_info : ℕ → Radio (Option Bytes)
  app_info slot = do
    content ← returns (slot_byte slot)
    command msg_app_info content msg_app_info_ack

  -- The status, and the header.
  unfoldable pub info : ℕ → Radio (ℕ × Bytes)
  info slot = do
    content ← returns (slot_byte slot)
    ack ← required msg_slot_info content msg_slot_info_ack (no_reply msg_slot_info)
    status ← returns (byte_of (get_elem? ack 1))
    returns (ok (status, slice ack 2 66))

  unfoldable pub erase : ℕ → Radio ℕ
  erase slot = do
    first ← returns (slot_byte slot)
    ack ←
        required msg_slot_erase (first ++ 0 ∷ pack32 timestamp) msg_slot_erase_ack
          (no_reply msg_slot_erase)
    returns (byte_of (get_elem? ack 1))

  -- One round of the loop of `write`, from its position in the slot on.
  unfoldable pub write_chunk : ℕ → ℕ → Bytes → Radio (Unit {0})
  write_chunk slot at piece = do
    first ← returns (slot_byte slot)
    field ← returns (field32 at)
    ack ←
        required msg_slot_write (chunk_data timestamp slot at piece) msg_slot_write_ack
          (no_chunk_reply at)
    status ← returns (byte_of (get_elem? ack 1))
    returns (zero_status status (chunk_status at status))

  unfoldable pub renewal : Bool → Radio (Unit {0})
  renewal false = returns (ok tt)
  renewal true = session >>= λ version. returns (ok tt)

  -- `n` chunks; `done` are sent.
  unfoldable pub write_chunks : ℕ → ℕ → ℕ → ℕ → Bytes → Radio (Unit {0})
  write_chunks zero done slot offset blob = returns (ok tt)
  write_chunks (suc n) done slot offset blob = do
    u ← renewal (is_due done)
    v ← write_chunk slot (offset + done * chunk) (slice blob (done * chunk) (done * chunk + chunk))
    write_chunks n (done + 1) slot offset blob

  unfoldable pub write : ℕ → ℕ → Bytes → Radio (Unit {0})
  write slot offset blob = write_chunks (chunk_count blob) 0 slot offset blob

  -- The status, and the CRC of the device.
  unfoldable pub validate : ℕ → Radio (ℕ × ℕ)
  validate slot = do
    content ← returns (slot_byte slot)
    ack ← required msg_slot_validate content msg_slot_validate_ack (no_reply msg_slot_validate)
    crc ← returns (crc_of ack)
    status ← returns (byte_of (get_elem? ack 5))
    returns (ok (status, crc))

  unfoldable pub install : ℕ → Bytes → Text → Text → Radio ℕ
  install slot image name version = do
    header ← returns (header_of (build_header image name version))
    status ← erase slot
    u ← returns (zero_status status (erase_status status))
    v ← write slot 0 header
    w ← write slot slot_image_offset image
    verdict ← validate slot
    let (status', crc) = verdict
    x ← returns (zero_status status' (validate_status status'))
    returns (same_crc crc (crc32 image))
