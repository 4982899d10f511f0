-- ===== src/Qmp/Tests.antt =====
-- A reply behind an event, in chunks that cut both lines.
use uv_k5_v3_emulator.Common.{ℕ, ◌≡◌, refl, some, [], ◌∷◌}
use uv_k5_v3_emulator.Common.Words.{Bytes}
use uv_k5_v3_emulator.Common.Text.{Text}
use uv_k5_v3_emulator.Common.Chars.{chars}
use uv_k5_v3_emulator.Common.Result.{Result, ok}
use uv_k5_v3_emulator.Qmp.{
  Message, returned, event, no_json, Client, command, command_loop, read_line, split_newline,
  stream, joined,
}
use uv_k5_v3_emulator.Qmp.Stream.{scan, command-eq-scan}

abbrev closed : Text
closed = chars "QMP connection closed"

-- A line of one byte is an event, a longer one holds a value.
abbrev parse : Bytes → Message ℕ
parse [] = no_json closed
parse (b ∷ []) = event
parse (b ∷ c ∷ bs) = returned c

abbrev client : Client
client = record { buf = 1 ∷ []; chunks = (0x0a ∷ 7 ∷ []) ∷ (9 ∷ []) ∷ (0x0a ∷ 5 ∷ []) ∷ [] }

replied : command parse closed client ≡ some (ok 9, record { buf = 5 ∷ []; chunks = [] })
unfolding command command_loop read_line split_newline joined
replied = refl

command-eq-scan_example :
    (result : Result Text ℕ) × (left : Client) × (command parse closed client ≡ some (result, left))
    × ((result, stream left) ≡ scan parse closed [] (stream client))
command-eq-scan_example = command-eq-scan parse closed client tt
