-- ===== src/Apps/Radio/Told.antt =====
-- The firmware's answer for an app that was accepted.
use uv_k5_v3_emulator.Common.{
  ℕ, ◌≤◌, ◌≡◌, ◌∙◌, refl, sym, arith, true, false, [], ◌∷◌, ◌++◌, leb, length, length-append,
  get_elem?, ltb-false, take, drop,
}
use uv_k5_v3_emulator.Common.Slices.{slice, get_elem?-slice, length-slice}
use uv_k5_v3_emulator.Common.Regions.{SameOn, SameOn-slice, SameOn-u32_at}
use uv_k5_v3_emulator.Common.Words.{Bytes, IsBytes, bytes_eq, byte_at, u32_at}
use uv_k5_v3_emulator.Common.Result.{ok}
use uv_k5_v3_emulator.Apps.Header.{Info, app_magic, header_info, parse}
use uv_k5_v3_emulator.Apps.Image.Local.{header_info-SameOn, head-SameOn, Accepted, parse-Accepted}
use uv_k5_v3_emulator.Apps.Radio.{holds_app, fap1, app_of, header_reply, parse_radio_reply}

magic-fap1 :
    (blob : Bytes)
    → IsBytes blob
    → 4 ≤ length blob
    → u32_at blob 0 ≡ app_magic
    → bytes_eq (slice blob 0 4) fap1 ≡ true
unfolding u32_at byte_at get_elem? slice take drop bytes_eq
magic-fap1 [] bytes long h = absurd (omega arith)
magic-fap1 (a ∷ []) bytes long h = absurd (omega arith)
magic-fap1 (a ∷ b ∷ []) bytes long h = absurd (omega arith)
magic-fap1 (a ∷ b ∷ c ∷ []) bytes long h = absurd (omega arith)
magic-fap1 (a ∷ b ∷ c ∷ d ∷ blob) bytes long h =
    let ea : a ≡ 0x46 = omega arith in
    let eb : b ≡ 0x41 = omega arith in
    let ec : c ≡ 0x50 = omega arith in let ed : d ≡ 0x31 = omega arith in rw (ea, eb, ec, ed) refl

-- The header behind the slot and the status.
abbrev answer : ℕ → ℕ → Bytes → Bytes → Bytes
answer slot status blob rest = slot ∷ status ∷ (slice blob 0 64 ++ rest)

answer-SameOn :
    (slot status : ℕ) (blob rest : Bytes)
    → 64 ≤ length blob
    → SameOn 0 64 (slice (answer slot status blob rest) 2 66) blob
unfolding get_elem?
answer-SameOn slot status blob rest long i low high =
    get_elem?-slice (answer slot status blob rest) 2 66 i
    ∙ ground (arith, head-SameOn blob rest long i low high)

parse-loose :
    (header : Bytes)
    → 64 ≤ length header
    → u32_at header 0 ≡ app_magic
    → parse header false ≡ ok (header_info header)
unfolding parse
parse-loose header long magic = rw (ltb-false (length header) 64 long, magic) refl

header_reply-told :
    (slot status : ℕ) (header blob : Bytes) (info : Info)
    → SameOn 0 64 header blob
    → 64 ≤ length header
    → IsBytes blob
    → Accepted blob info
    → header_reply slot status header ≡ holds_app slot status (app_of info)
unfolding header_reply
header_reply-told slot status header blob info same long bytes acc =
    let magic : u32_at header 0 ≡ app_magic =
      SameOn-u32_at 0 64 header blob same 0 (omega arith) (omega arith) ∙ acc.magic in
    let start : slice header 0 4 ≡ slice blob 0 4 =
      SameOn-slice 0 64 header blob same 0 4 (omega arith) (omega arith) in
    let fap : bytes_eq (slice blob 0 4) fap1 ≡ true =
      magic-fap1 blob bytes (omega (arith, acc.long)) acc.magic in
    let fields : header_info header ≡ info = header_info-SameOn header blob same ∙ sym acc.same in
    rw (start, fap, parse-loose header long magic, fields) refl

-- The firmware's answer for a slot whose header is that of a blob that the strict `parse` accepts, with
-- anything behind it: the name, the version, the size, the CRC, the shortcut and the committed flag are
-- told as `parse` gives them for the blob, next to the slot and the status of the answer.
pub parse_radio_reply-parse :
    (slot status : ℕ) (blob rest : Bytes) (info : Info)
    → IsBytes blob
    → parse blob true ≡ ok info
    → parse_radio_reply (slot ∷ status ∷ (slice blob 0 64 ++ rest))
      ≡ holds_app slot status (app_of info)
unfolding parse_radio_reply
parse_radio_reply-parse slot status blob rest info bytes accepted =
    let acc = parse-Accepted blob info accepted in
    let long : 64 ≤ length blob = omega (arith, acc.long) in
    let whole : 66 ≤ length (answer slot status blob rest) =
      omega (arith, length-append (slice blob 0 64) rest, length-slice blob 0 64) in
    let fits : leb 66 (length (answer slot status blob rest)) ≡ true = ground arith in
    rw fits (
      header_reply-told slot status (slice (answer slot status blob rest) 2 66) blob info
        (answer-SameOn slot status blob rest long)
        (omega (arith, length-slice (answer slot status blob rest) 2 66)) bytes acc)
