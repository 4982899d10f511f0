-- ===== src/Serial/Flasher.antt =====
-- `Flasher.program` of tools/uvk5_serial_flash.py. What the device answers is given by the messages
-- that `Frames` returns after each attempt on a page.
pub mod Delivery
pub mod Liveness
mod Tests
use uv_k5_v3_emulator.Common.{
  ℕ, zero, suc, ◌+◌, ◌*◌, ◌/◌, Bool, true, false, Option, none, some, List, [], ◌∷◌, ◌++◌, ◌&&◌,
  ltb, leb, ◌==◌, if◌then◌else◌, length, min, replicate,
}
use uv_k5_v3_emulator.Common.Slices.{slice}
use uv_k5_v3_emulator.Common.Words.{Bytes, pack16, pack32, u16_at}
use uv_k5_v3_emulator.Common.Result.{Result, ok, err}
use uv_k5_v3_emulator.Serial.Frame.{StructError, build}
use uv_k5_v3_emulator.Serial.Reassembly.{Message}

abbrev pub msg_prog_fw : ℕ
msg_prog_fw = 0x0519

abbrev pub msg_prog_fw_resp : ℕ
msg_prog_fw_resp = 0x051A

abbrev pub page_size : ℕ
page_size = 256

pub data FlashError : Type 0 where
  struct_error : FlashError
  never_acknowledged : ℕ → FlashError

-- The messages after the attempt on a page: of the page's index and the attempt's number.
abbrev pub Replies : Type 0
Replies = ℕ → ℕ → List Message

unfoldable pub page_count : Bytes → Option ℕ → ℕ
page_count image none = (length image + 255) / page_size
page_count image (some pages) = min ((length image + 255) / page_size) pages

unfoldable pub page_data : Bytes → ℕ → ℕ → ℕ → Bytes
page_data image stamp index total =
    pack32 stamp
    ++ (pack16 index
        ++ (pack16 total
            ++ (replicate 4 0 ++ slice image (index * page_size) ((index + 1) * page_size))))

-- The last of the messages that is a reply; `reply` is the one before them.
unfoldable pub last_reply : Option Bytes → List Message → Option Bytes
last_reply reply [] = reply
last_reply reply ((kind, content) ∷ msgs) =
    last_reply (if kind == msg_prog_fw_resp then some content else reply) msgs

pub data Verdict : Type 0 where
  acknowledged : Verdict
  refused : Verdict
  broken : Verdict

-- `broken` is a reply that is too short to be unpacked.
unfoldable pub verdict : ℕ → Option Bytes → Verdict
verdict index none = refused
verdict index (some reply) =
    if ltb (length reply) 8
    then broken
    else if u16_at reply 6 == 0 && u16_at reply 4 == index
    then acknowledged
    else refused

-- What was sent up to the end of a part, and how the part ended.
abbrev pub Sent : Type 0 → Type 0
Sent A = Result FlashError A × List Bytes

abbrev pub tried : Verdict → Bytes → Sent (Unit {0}) → Sent (Unit {0})
tried acknowledged frame rest = (ok tt, frame ∷ [])
tried broken frame rest = (err struct_error, frame ∷ [])
tried refused frame (result, sent) = (result, frame ∷ sent)

-- `n` attempts from `attempt` on.
unfoldable pub attempts : ℕ → ℕ → ℕ → Bytes → Replies → Sent (Unit {0})
attempts zero attempt index frame replies = (err (never_acknowledged index), [])
attempts (suc n) attempt index frame replies =
    tried (verdict index (last_reply none (replies index attempt))) frame
      (attempts n (attempt + 1) index frame replies)

abbrev pub counted : Sent (Unit {0}) → Sent ℕ → Sent ℕ
counted (err e, sent) rest = (err e, sent)
counted (ok u, sent) (err e, sent') = (err e, sent ++ sent')
counted (ok u, sent) (ok written, sent') = (ok (suc written), sent ++ sent')

unfoldable pub page_frame : Bytes → ℕ → ℕ → ℕ → Result StructError Bytes
page_frame image stamp index total = build msg_prog_fw (page_data image stamp index total)

abbrev pub framed : Result StructError Bytes → (Bytes → Sent (Unit {0})) → Sent ℕ → Sent ℕ
framed (err e) send rest = (err struct_error, [])
framed (ok frame) send rest = counted (send frame) rest

-- `n` pages from `index` on.
unfoldable pub program_pages : ℕ → ℕ → ℕ → Bytes → ℕ → ℕ → Replies → Sent ℕ
program_pages zero index total image stamp retries replies = (ok 0, [])
program_pages (suc n) index total image stamp retries replies =
    framed (page_frame image stamp index total) (λ frame. attempts retries 0 index frame replies)
      (program_pages n (index + 1) total image stamp retries replies)

-- The number of the pages written, and the frames sent. A page count that no 16-bit field holds is
-- refused with the first page.
unfoldable pub program : Bytes → Option ℕ → ℕ → ℕ → Replies → Sent ℕ
program image pages stamp retries replies =
    let total = page_count image pages in
    if leb 0x10000 total
    then (err struct_error, [])
    else program_pages total 0 total image stamp retries replies
