-- ===== src/Socket.antt =====
-- tools/uvk5_socket.py: the address that `connect` dials, and its loop until a deadline.
pub mod Agree
mod Tests
use uv_k5_v3_emulator.Common.{
  ℕ, Bool, true, false, Option, none, some, List, [], ◌∷◌, ◌||◌, ◌==◌, if◌then◌else◌, not,
}
use uv_k5_v3_emulator.Common.Text.{Text}
use uv_k5_v3_emulator.Common.Chars.{chars}
use uv_k5_v3_emulator.Common.Signed.{ℤ}
use uv_k5_v3_emulator.Common.Words.{bytes_eq}
use uv_k5_v3_emulator.Launch.{colon, rpartition}

-- ","
abbrev pub comma : ℕ
comma = 0x2c

-- The first and the last part of `cs.partition(c)`; without the separator all is in the first.
unfoldable pub partition : ℕ → Text → Text × Text
partition c [] = ([], [])
partition c (d ∷ ds) =
    let (before, behind) = partition c ds in if d == c then ([], ds) else (d ∷ before, behind)

-- What an attempt dials: a Unix socket, or a host and the text of its port.
pub data Address : Type 0 where
  at_path : Text → Address
  at_port : Text → Text → Address

-- `host, _, port = ....rpartition(":")`: without a colon all is the port.
abbrev pub port_address : Text → Option (Text × Text) → Address
port_address place none = at_port [] place
port_address place (some (host, port)) = at_port host port

unfoldable pub tcp_address : Text → Address
tcp_address rest = let place = (partition comma rest).0 in port_address place (rpartition place)

unfoldable pub unix_address : Text → Address
unix_address rest = at_path (partition comma rest).0

unfoldable pub address_of : Text → Address
address_of endpoint =
    let (kind, rest) = partition colon endpoint in
    if bytes_eq kind (chars "unix")
    then unix_address rest
    else tcp_address (if bytes_eq kind (chars "tcp") then rest else endpoint)

-- What the system answers to an attempt: an open socket, an OSError, or another exception.
pub data Answer : Type 0 where
  opened : Answer
  os_error : Answer
  other_error : Answer

-- What `connect` ends with: the socket, the OSError of its deadline, the ValueError of a port that is
-- no number, or an exception of the system's.
pub data Connection : Type 0 where
  connected_path : Text → Connection
  connected_port : Text → ℤ → Connection
  out_of_time : Connection
  no_number : Connection
  escaped : Connection

abbrev pub on_answer : Connection → Answer → Connection → Connection
on_answer socket opened later = socket
on_answer socket os_error later = later
on_answer socket other_error later = escaped

-- A round of the loop; `later` is the outcome of the rounds that follow.
abbrev pub dial_port : Text → Option ℤ → Answer → Connection → Connection
dial_port host none answer later = no_number
dial_port host (some port) answer later = on_answer (connected_port host port) answer later

abbrev pub dial : (Text → Option ℤ) → Address → Answer → Connection → Connection
dial int (at_path path) answer later = on_answer (connected_path path) answer later
dial int (at_port host port) answer later = dial_port host (int port) answer later

-- The rounds before the deadline, with the answer to the attempt of each.
unfoldable pub dialled : (Text → Option ℤ) → Address → List Answer → Connection
dialled int address [] = out_of_time
dialled int address (answer ∷ answers) =
    let later = dialled int address answers in dial int address answer later

-- `int` is Python's, on texts: none is its ValueError.
unfoldable pub connect : (Text → Option ℤ) → Text → List Answer → Connection
connect int endpoint answers = dialled int (address_of endpoint) answers
