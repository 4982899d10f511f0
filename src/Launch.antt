-- ===== src/Launch.antt =====
-- The functions of tools/uvk5_supervisor.py around the class `Supervisor`: the endpoint, the boot
-- key, the image of a launch, the command line of QEMU, and the wait for its monitor.
pub mod Endpoint
pub mod Spawn
mod Tests
use Prim.Native.String.{String}
use uv_k5_v3_emulator.Common.{
  ℕ, Bool, true, false, Option, none, some, List, [], ◌∷◌, ◌++◌, ◌&&◌, ◌||◌, ltb, leb, ◌==◌,
  if◌then◌else◌, length, not,
}
use uv_k5_v3_emulator.Common.Text.{Text}
use uv_k5_v3_emulator.Common.Signed.{ℤ}
use uv_k5_v3_emulator.Common.Result.{Result, ok, err}
use uv_k5_v3_emulator.Image.{ImageInfo}
use uv_k5_v3_emulator.Image.Slot.{ImageSlot}

-- ":"
abbrev pub colon : ℕ
colon = 0x3a

-- `endpoint.rpartition(":")`: the parts before and behind the last colon; `none` if there is none.
unfoldable pub rpartition : Text → Option (Text × Text)
rpartition [] = none
rpartition (c ∷ cs) = elim (rpartition cs) [
  | some (host, port) ↦ some (c ∷ host, port)
  | none ↦ if c == colon then some ([], cs) else none
]

unfoldable pub all_digits : Text → Bool
all_digits [] = true
all_digits (c ∷ cs) = (leb 0x30 c && leb c 0x39) && all_digits cs

-- `isdigit`, on the digits below 128
unfoldable pub is_digits : Text → Bool
unfolding all_digits
is_digits cs = not (length cs == 0) && all_digits cs

-- The argument "tcp:<host>:<port>,server=on,wait=off" or "unix:<endpoint>,server=on,wait=off".
pub data QmpArgument : Type 0 where
  tcp : Text → Text → QmpArgument
  unix : Text → QmpArgument

abbrev pub parts_argument : Text → Option (Text × Text) → QmpArgument
parts_argument endpoint none = unix endpoint
parts_argument endpoint (some (host, port)) =
    if not (length host == 0) && is_digits port then tcp host port else unix endpoint

unfoldable pub qmp_argument : Text → QmpArgument
qmp_argument endpoint = parts_argument endpoint (rpartition endpoint)

pub record FlashSlot : Type 0 where
  pub path : Text

pub record BootKey : Type 0 where
  pub name : Option Text
  pub hold_ms : ℤ

unfoldable pub clear : BootKey → BootKey
clear key = record { name = none; hold_ms = key.hold_ms }

-- What the launcher is given for its image.
pub data Elf : Type 0 where
  nothing : Elf
  by_path : Text → Elf
  by_info : ImageInfo → Elf
  by_slot : ImageSlot → Elf

abbrev pub info_image : Option ImageInfo → Option Text × Option ℕ
info_image none = (none, none)
info_image (some info) = (some info.path, some info.app_offset)

unfoldable pub resolve_image : Elf → Option Text × Option ℕ
resolve_image nothing = (none, none)
resolve_image (by_path path) = (some path, none)
resolve_image (by_info info) = info_image (some info)
resolve_image (by_slot slot) = info_image slot.current

-- An argument of the command line: a word, a path, the QMP endpoint, the port of gdb or serial.
pub data Argument : Type 0 where
  word : String → Argument
  text : Text → Argument
  qmp : QmpArgument → Argument
  gdb : ℕ → Argument
  serial_tcp : ℕ → Argument

-- A variable that is set in the environment of the process.
pub data Variable : Type 0 where
  flash_image : Text → Variable
  boot_key : Text → Variable
  boot_key_ms : ℤ → Variable

pub record Launch : Type 0 where
  -- The stale socket is removed.
  pub unlinks : Bool
  pub argv : List Argument
  pub env : List Variable

pub data LaunchError : Type 0 where
  no_firmware : LaunchError

abbrev pub serial_arguments : Option ℕ → List Argument
serial_arguments none = []
serial_arguments (some port) = if not (port == 0) then word "-serial" ∷ serial_tcp port ∷ [] else []

unfoldable pub argv_of : Text → Text → Text → ℕ → Option ℕ → List Argument
argv_of qemu path qmp_path gdb_port serial_port =
    text qemu
    ∷ word "-M"
    ∷ word "uv-k5-v3"
    ∷ word "-nographic"
    ∷ word "-monitor"
    ∷ word "none"
    ∷ word "-qmp"
    ∷ qmp (qmp_argument qmp_path)
    ∷ word "-kernel"
    ∷ text path
    ∷ word "-gdb"
    ∷ gdb gdb_port
    ∷ serial_arguments serial_port

-- `if name:` is also false for the empty name.
abbrev pub key_variables : Option BootKey → List Variable
key_variables none = []
key_variables (some key) = elim key.name [
  | none ↦ []
  | some name ↦ if not (length name == 0) then boot_key name ∷ boot_key_ms key.hold_ms ∷ [] else []
]

unfoldable pub has_colon : Text → Bool
has_colon [] = false
has_colon (c ∷ cs) = c == colon || has_colon cs

abbrev pub launch_path :
    Text
    → Text
    → Option BootKey
    → Text
    → ℕ
    → Option ℕ
    → Bool
    → Option Text
    → Result LaunchError Launch
launch_path qemu flash key qmp_path gdb_port serial_port socket_exists none = err no_firmware
launch_path qemu flash key qmp_path gdb_port serial_port socket_exists (some path) = ok (record {
  unlinks = not (has_colon qmp_path) && socket_exists;
  argv = argv_of qemu path qmp_path gdb_port serial_port;
  env = flash_image flash ∷ key_variables key;
})

-- The launch at spawn time; `socket_exists` is whether the path of the socket exists.
unfoldable pub launch :
    Text → FlashSlot → Elf → Option BootKey → Text → ℕ → Option ℕ → Bool → Result LaunchError Launch
launch qemu flash elf key qmp_path gdb_port serial_port socket_exists =
    launch_path qemu flash.path key qmp_path gdb_port serial_port socket_exists
      (resolve_image elf).0

-- One round of `wait_for_socket` before the deadline: whether the path exists, and whether a connect
-- is accepted.
pub record Probe : Type 0 where
  pub exists : Bool
  pub accepts : Bool

abbrev pub is_tcp : QmpArgument → Bool
is_tcp (tcp host port) = true
is_tcp (unix endpoint) = false

abbrev pub probe_ready : QmpArgument → Probe → Bool
probe_ready (tcp host port) p = p.accepts
probe_ready (unix endpoint) p = p.exists && p.accepts

-- The rounds that start before the deadline.
unfoldable pub wait_for_socket : Text → List Probe → Bool
wait_for_socket endpoint [] = false
wait_for_socket endpoint (p ∷ ps) =
    let rest = wait_for_socket endpoint ps in probe_ready (qmp_argument endpoint) p || rest
