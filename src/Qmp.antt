-- ===== src/Qmp.antt =====
-- tools/uvk5_qmp.py: the client of QEMU's monitor. The socket is the list of the chunks that `recv`
-- has still to return; at its end the connection is closed.
pub mod Stream
mod Tests
use uv_k5_v3_emulator.Common.{
  ℕ, zero, suc, ◌+◌, Option, none, some, List, [], ◌∷◌, ◌++◌, ◌==◌, if◌then◌else◌, length, Bool,
  true, false,
}
use uv_k5_v3_emulator.Common.Words.{Bytes}
use uv_k5_v3_emulator.Common.Text.{Text}
use uv_k5_v3_emulator.Common.Result.{Result, ok, err}

-- What `json.loads` gives for a line: an object with "error", one with "return", another one, or its
-- exception.
pub data Message (V : Type 0) : Type 0 where
  failed : Text → Message V
  returned : V → Message V
  event : Message V
  no_json : Text → Message V

-- `_buf`, and what the socket has still to give.
pub record Client : Type 0 where
  pub buf : Bytes
  pub chunks : List Bytes

-- A byte in front of the first line.
abbrev pub put_front : ℕ → Option (Bytes × Bytes) → Option (Bytes × Bytes)
put_front b none = none
put_front b (some (line, rest)) = some (b ∷ line, rest)

-- `buf.split(b"\n", 1)`, if there is a newline.
unfoldable pub split_newline : Bytes → Option (Bytes × Bytes)
split_newline [] = none
split_newline (b ∷ bs) =
    let rest = split_newline bs in if b == 0x0a then some ([], bs) else put_front b rest

-- A line that stands in the buffer; `more` is the outcome if there is none.
abbrev pub take_line :
    List Bytes → Option (Bytes × Bytes) → Option Bytes × Client → Option Bytes × Client
take_line chunks none more = more
take_line chunks (some (line, rest)) more = (some line, record { buf = rest; chunks = chunks })

-- `_read_json` up to the line: none if the connection is closed.
unfoldable pub read_line : List Bytes → Bytes → Option Bytes × Client
read_line [] buf = take_line [] (split_newline buf) (none, record { buf = buf; chunks = [] })
read_line ([] ∷ cs) buf =
    take_line ([] ∷ cs) (split_newline buf) (none, record { buf = buf; chunks = cs })
read_line ((b ∷ bs) ∷ cs) buf =
    let more = read_line cs (buf ++ b ∷ bs) in take_line ((b ∷ bs) ∷ cs) (split_newline buf) more

-- The bytes that the socket has still to give.
unfoldable pub joined : List Bytes → Bytes
joined [] = []
joined (c ∷ cs) = c ++ joined cs

abbrev pub stream : Client → Bytes
stream client = client.buf ++ joined client.chunks

module _ {V : Type 0} (parse : Bytes → Message V) (closed : Text) where
  -- One message of the loop: the result of `command`, or none to go on.
  abbrev pub verdict : Message V → Option (Result Text V)
  verdict (failed e) = some (err e)
  verdict (returned v) = some (ok v)
  verdict event = none
  verdict (no_json e) = some (err e)

  abbrev pub decided :
      Option (Result Text V)
      → Client
      → Option (Result Text V × Client)
      → Option (Result Text V × Client)
  decided none client rest = rest
  decided (some result) client rest = some (result, client)

  abbrev pub answered :
      Option Bytes → Client → Option (Result Text V × Client) → Option (Result Text V × Client)
  answered none client rest = some (err closed, client)
  answered (some line) client rest = decided (verdict (parse line)) client rest

  -- The loop of `command`, on fuel; `none` means that the fuel ran out.
  unfoldable pub command_loop : ℕ → Client → Option (Result Text V × Client)
  command_loop zero client = none
  command_loop (suc n) client =
      let (found, left) = read_line client.chunks client.buf in
      let rest = command_loop n left in answered found left rest

  -- `command`, once its line is sent.
  unfoldable pub command : Client → Option (Result Text V × Client)
  command client = command_loop (length (stream client) + 1) client
