-- ===== src/SlotRadio/Tests.antt =====
-- An install with a device that answers each command with its own reply.
use Prim.Native.Nat.{bit_xor}
use uv_k5_v3_emulator.Common.{
  ℕ, zero, suc, ◌+◌, ◌%◌, ◌≡◌, refl, inl, inr, arith, Option, none, some, List, [], ◌∷◌, ◌++◌, ◌&&◌,
  ◌==◌, ltb, if◌then◌else◌, Bool-cases, get_elem?, replicate, take, drop, length,
}
use uv_k5_v3_emulator.Common.Slices.{slice}
use uv_k5_v3_emulator.Common.Words.{Bytes, pack16, pack32, u32_at, byte_at}
use uv_k5_v3_emulator.Common.Text.{encode_replace, pad_nul}
use uv_k5_v3_emulator.Common.Crc32.{crc32}
use uv_k5_v3_emulator.Common.Result.{ok}
use uv_k5_v3_emulator.Serial.Frame.{build, magic, end_mark, obfuscate, obfuscate_from, frame_body}
use uv_k5_v3_emulator.Serial.Reassembly.{Message}
use uv_k5_v3_emulator.Slots.{build_header, header_bytes, header_text}
use uv_k5_v3_emulator.SlotRadio.{
  Replies, install, answer, answer_from, msg_session, msg_session_ack, msg_slot_erase,
  msg_slot_erase_ack, msg_slot_write, msg_slot_write_ack, msg_slot_validate, msg_slot_validate_ack,
  erase, write, write_chunks, chunk_count, write_chunk, renewal, validate, required, command,
  attempts, chunk_data,
}
use uv_k5_v3_emulator.SlotRadio.Sent.{install-Carries}
use uv_k5_v3_emulator.SlotRadio.Carries.{Carries, shake_of, install_frames}
use uv_k5_v3_emulator.SlotRadio.Size.{AllFit, install-Fits}
use uv_k5_v3_emulator.SlotRadio.Answered.{Responder, Follows, Answers, Device, install-Device}

abbrev image : Bytes
image = 1 ∷ 2 ∷ 3 ∷ []

abbrev accepted : Bytes
accepted = 2 ∷ 0 ∷ []

abbrev checked : Bytes
checked = pack32 (crc32 image) ++ 2 ∷ 0 ∷ []

-- The reply to a command, by the first byte of its obfuscated type.
abbrev reply_to : Option ℕ → List Message
reply_to none = []
reply_to (some b) =
    if b == 0x02
    then (msg_session_ack, 0x76 ∷ []) ∷ []
    else if b == 0x34
    then (msg_slot_erase_ack, accepted) ∷ []
    else if b == 0x32
    then (msg_slot_write_ack, accepted) ∷ []
    else if b == 0x30
    then (msg_slot_validate_ack, checked) ∷ []
    else []

abbrev device : Responder
device frame = reply_to (get_elem? frame 4)

type_byte :
    (msg_id : ℕ) (content frame : Bytes)
    → build msg_id content ≡ ok frame
    → get_elem? frame 4 ≡ some (bit_xor (msg_id % 256) 0x16)
unfolding build obfuscate obfuscate_from frame_body get_elem? byte_at
type_byte msg_id content frame h =
    elim (Bool-cases (ltb msg_id 0x10000 && ltb (length content + 4) 0x10000)) [
      | inr e ↦ absurd (ground (arith, e, h))
      | inl e ↦
          let made : magic
                ++ (pack16 (length content + 4)
                    ++ (obfuscate (frame_body msg_id content) ++ end_mark))
              ≡ frame =
            ground (arith, e, h) in
          rw (← made) refl
    ]

answers :
    (msg_id ack_id : ℕ) (ack : Bytes)
    → answer ack_id (reply_to (some (bit_xor (msg_id % 256) 0x16))) ≡ some ack
    → Answers device msg_id ack_id ack
answers msg_id ack_id ack h content frame built = rw (type_byte msg_id content frame built) h

image_device : Device device image
unfolding answer answer_from u32_at byte_at get_elem? crc32
image_device = record {
  shake = 0x76 ∷ [];
  erase_ack = accepted;
  write_ack = accepted;
  check_ack = checked;
  shakes = answers msg_session msg_session_ack (0x76 ∷ []) refl;
  erases = answers msg_slot_erase msg_slot_erase_ack accepted refl;
  erased = refl;
  writes = answers msg_slot_write msg_slot_write_ack accepted refl;
  written = refl;
  checks = answers msg_slot_validate msg_slot_validate_ack checked refl;
  checked = refl;
  whole = omega arith;
  crc = refl;
}

-- An erase, two writes and a check.
abbrev replies : Replies
replies zero = reply_to (some 0x34)
replies (suc zero) = reply_to (some 0x32)
replies (suc (suc zero)) = reply_to (some 0x32)
replies (suc (suc (suc n))) = reply_to (some 0x30)

answered : Follows replies device 0 (install replies 77 2 image [] [] 0).1
unfolding install erase write write_chunks chunk_count write_chunk renewal validate required command
    attempts chunk_data answer answer_from build_header header_bytes crc32 build obfuscate
    obfuscate_from frame_body header_text pad_nul replicate take drop slice get_elem? byte_at u32_at
    encode_replace
answered = (refl, (refl, (refl, (refl, tt))))

install-Device_example : (install replies 77 2 image [] [] 0).0 ≡ ok (crc32 image)
install-Device_example =
    install-Device replies device 77 2 image [] [] 0 (omega arith) (omega arith) image_device
      answered

returned : (install replies 77 2 image [] [] 0).0 ≡ ok (crc32 image)
returned =
    install-Device replies device 77 2 image [] [] 0 (omega arith) (omega arith) image_device
      answered

install-Carries_example :
    (crc32 image ≡ crc32 image)
    × (header : Bytes) × (build_header image [] [] ≡ ok header)
    × Carries
        (shake_of 77)
        (install replies 77 2 image [] [] 0).1
        (install_frames 77 2 header image)
install-Carries_example = install-Carries replies 77 2 image [] [] 0 (crc32 image) returned

install-Fits_example : AllFit (install replies 77 2 image [] [] 0).1
install-Fits_example = install-Fits replies 77 2 image [] [] 0
