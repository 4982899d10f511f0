-- ===== src/Serial/Flasher/Tests.antt =====
-- An image of one page, which the device acknowledges at the second attempt.
use uv_k5_v3_emulator.Common.{ℕ, zero, suc, ◌≡◌, ◌<◌, none, List, [], ◌∷◌, refl, arith, get_elem?}
use uv_k5_v3_emulator.Common.Words.{Bytes, u16_at, byte_at}
use uv_k5_v3_emulator.Common.Result.{ok}
use uv_k5_v3_emulator.Serial.Reassembly.{Message}
use uv_k5_v3_emulator.Serial.Flasher.{
  Replies, page_count, program, verdict, last_reply, msg_prog_fw_resp,
}
use uv_k5_v3_emulator.Serial.Flasher.Delivery.{InOrder, program-InOrder}
use uv_k5_v3_emulator.Serial.Flasher.Liveness.{Answers, program_answered}

abbrev image : Bytes
image = 1 ∷ 2 ∷ []

abbrev reply : List Message
reply = (msg_prog_fw_resp, 0 ∷ 0 ∷ 0 ∷ 0 ∷ 0 ∷ 0 ∷ 0 ∷ 0 ∷ []) ∷ []

abbrev replies : Replies
replies index zero = []
replies index (suc attempt) = reply

one_page : page_count image none ≡ 1
unfolding page_count
one_page = refl

answered : (i : ℕ) → i < page_count image none → (k : ℕ) × (k < 3) × Answers replies i 0 k
unfolding verdict last_reply u16_at byte_at get_elem?
answered i p =
    let first : i ≡ 0 = omega (arith, one_page) in
    (1, omega arith, (λ j low. let start : j ≡ 0 = omega arith in rw start refl, rw first refl))

program_answered_example : (program image none 0 3 replies).0 ≡ ok (page_count image none)
program_answered_example =
    program_answered image none 0 3 replies (omega (arith, one_page)) answered

program-InOrder_example :
    (page_count image none ≡ page_count image none)
    × InOrder replies
        (page_count image none)
        0
        (page_count image none)
        image
        0
        3
        (program image none 0 3 replies).1
program-InOrder_example =
    program-InOrder image none 0 3 replies (page_count image none) program_answered_example
