-- ===== src/Apps/Radio.antt =====
-- `parse_radio_reply` of tools/uvk5_apps.py: what the firmware says of an app slot.
pub mod Told
use Prim.Native.String.{String}
use uv_k5_v3_emulator.Common.{
  ℕ, ◌+◌, Bool, true, false, Option, none, some, List, [], ◌∷◌, leb, if◌then◌else◌, length,
}
use uv_k5_v3_emulator.Common.Slices.{slice}
use uv_k5_v3_emulator.Common.Words.{Bytes, bytes_eq}
use uv_k5_v3_emulator.Common.Text.{Text}
use uv_k5_v3_emulator.Common.Chars.{chars}
use uv_k5_v3_emulator.Common.Result.{Result, ok, err}
use uv_k5_v3_emulator.Apps.Header.{AppError, Info, hdr_size, parse}

-- What the reply tells of an app.
pub record App : Type 0 where
  pub name : Text
  pub version : Text
  pub code_size : ℕ
  pub crc : ℕ
  pub shortcut : String
  pub committed : Bool

-- The answer: a note on a reply that is too short, one with its slot and status alone, one with an error
-- of the header, one with another magic, and one with an app.
pub data RadioReply : Type 0 where
  short_reply : RadioReply
  bare : ℕ → ℕ → RadioReply
  bad_header : ℕ → ℕ → AppError → RadioReply
  other_magic : ℕ → ℕ → Text → RadioReply
  holds_app : ℕ → ℕ → App → RadioReply

-- The bytes of "FAP1"
abbrev pub fap1 : Bytes
fap1 = chars "FAP1"

abbrev pub app_of : Info → App
app_of info = record {
  name = info.name;
  version = info.version;
  code_size = info.code_size;
  crc = info.crc;
  shortcut = info.shortcut;
  committed = info.committed;
}

abbrev pub told : ℕ → ℕ → Result AppError Info → RadioReply
told slot status (ok info) = holds_app slot status (app_of info)
told slot status (err e) = bad_header slot status e

-- The header, once it is there; latin-1 keeps every byte.
unfoldable pub header_reply : ℕ → ℕ → Bytes → RadioReply
header_reply slot status header =
    if bytes_eq (slice header 0 4) fap1
    then told slot status (parse header false)
    else other_magic slot status (slice header 0 4)

unfoldable pub parse_radio_reply : Bytes → RadioReply
parse_radio_reply [] = short_reply
parse_radio_reply (slot ∷ []) = short_reply
parse_radio_reply (slot ∷ status ∷ rest) =
    if leb (2 + hdr_size) (length (slot ∷ status ∷ rest))
    then header_reply slot status (slice (slot ∷ status ∷ rest) 2 (2 + hdr_size))
    else bare slot status
