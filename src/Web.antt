-- ===== src/Web.antt =====
-- tools/webui.py: the state that the handlers of `create_app` share, and their parts. A handler
-- takes the server and what the emulator, the file system and the request answer, and returns the
-- reply, the server after it, and its effects in their order.
pub mod Key
pub mod Power
pub mod Edit
pub mod Flash
pub mod Firmware
pub mod Screen
pub mod Radio
mod Tests
use uv_k5_v3_emulator.Common.{
  ℕ, Bool, true, false, Option, none, some, List, [], ◌∷◌, ◌++◌, ◌==◌, if◌then◌else◌,
}
use uv_k5_v3_emulator.Common.Text.{Text}
use uv_k5_v3_emulator.Common.Chars.{trim}
use uv_k5_v3_emulator.Supervisor.{Supervisor, Action, ExitCode, is_running}
use uv_k5_v3_emulator.Image.{ImageInfo}
use uv_k5_v3_emulator.Image.Slot.{ImageSlot}
use uv_k5_v3_emulator.Launch.{FlashSlot, BootKey}
use uv_k5_v3_emulator.Stream.{FramePump}
use uv_k5_v3_emulator.Buffers.Discover.{How, Found}

-- An exception: whether it is a `LookupError`, and its text.
pub record Exception : Type 0 where
  pub is_lookup : Bool
  pub text : Text

pub record Server : Type 0 where
  -- The client that `create_app` was called with.
  pub client : Option ℕ
  pub supervisor : Option Supervisor
  pub pump : FramePump
  pub image : Option ImageSlot
  pub boot_key : Option BootKey
  pub flash : Option FlashSlot
  -- `buffers["info"]`
  pub buffers : Option Found

-- A property of the keypad model that `qom-set` writes.
pub data Property : Type 0 where
  press : Text → Property
  ptt : Bool → Property

-- What a handler writes to the log, less the address of its caller.
pub data Notice : Type 0 where
  key_rejected : Text → Notice
  key_down : Text → Notice
  key_up : Text → Notice
  key_tap : Text → Bool → ℕ → Notice
  key_ignored : Text → Notice
  ptt_ignored : Notice
  ptt_is : Bool → Notice
  asking_for_key : Text → Notice
  power_requested : Text → Notice
  power_failed : Text → Text → Notice
  firmware_set : Text → ImageInfo → Notice
  restart_failed : Text → Notice
  slot_write_failed : ℕ → Text → Notice
  slot_erase_failed : ℕ → Text → Notice
  slot_written : ℕ → Text → ℕ → Bool → Notice
  slot_erased : ℕ → Notice
  app_refused : ℕ → Text → Notice
  app_erase_failed : ℕ → Text → Notice
  app_written : ℕ → Text → Text → ℕ → Notice
  app_erased : ℕ → Notice
  flash_set : Text → ℕ → Notice
  buffers_found : Found → Notice
  no_buffers : How → Notice
  asked_radio : ℕ → Notice

pub data Effect : Type 0 where
  -- `qom-set` on the client.
  set_property : ℕ → Property → Effect
  slept : ℕ → Effect
  logged : Notice → Effect
  supervised : List Action → Effect

-- A client of a call and what it answers: none if the command returns.
pub record Target : Type 0 where
  pub client : Option ℕ
  pub fails : Option Exception

-- Code that may raise, with its effects.
pub data Ran (A : Type 0) : Type 0 where
  gave : A → List Effect → Ran A
  threw : Exception → List Effect → Ran A

abbrev pub before : {A : Type 0} → List Effect → Ran A → Ran A
before effects (gave a rest) = gave a (effects ++ rest)
before effects (threw e rest) = threw e (effects ++ rest)

infixl 5 ◌>>◌
abbrev pub ◌>>◌ : {A : Type 0} → Ran (Unit {0}) → Ran A → Ran A
gave a effects >> k = before effects k
threw e effects >> k = threw e effects

abbrev pub effect : Effect → Ran (Unit {0})
effect e = gave tt (e ∷ [])

-- `client_ip`: the first hop of X-Forwarded-For, the empty text for a header that is missing.
abbrev pub or_remote : Text → Text → Text
or_remote [] remote = remote
or_remote (c ∷ cs) remote = c ∷ cs

unfoldable pub first_hop : Text → Text
first_hop [] = []
first_hop (c ∷ cs) = let rest = first_hop cs in if c == 0x2c then [] else c ∷ rest

unfoldable pub client_ip : Text → Text → Text
unfolding first_hop
client_ip forwarded remote = or_remote (trim (first_hop forwarded)) remote

abbrev pub client_of : Option ℕ → Option Supervisor → Option ℕ
client_of client none = client
client_of client (some s) = s.client

unfoldable pub active_client : Server → Option ℕ
active_client server = client_of server.client server.supervisor

abbrev pub answered : ℕ → Property → Option Exception → Ran (Unit {0})
answered client property none = effect (set_property client property)
answered client property (some e) = threw e (set_property client property ∷ [])

-- "emulator is off"
abbrev pub emulator_off : Exception
emulator_off = record { is_lookup = true; text = [] }

abbrev pub set_on : Option ℕ → Option Exception → Property → Ran (Unit {0})
set_on none fails property = threw emulator_off []
set_on (some client) fails property = answered client property fails

unfoldable pub set_press : Target → Text → Ran (Unit {0})
set_press target value = set_on target.client target.fails (press value)

unfoldable pub set_ptt : Target → Bool → Ran (Unit {0})
set_ptt target held = set_on target.client target.fails (ptt held)

-- `supervisor is not None and supervisor.is_running()`
unfoldable pub runs : (ℕ → Option ExitCode) → Option Supervisor → Bool
runs poll none = false
runs poll (some s) = is_running poll s

-- The `error` of a reply.
pub data Refusal : Type 0 where
  unknown_key : Refusal
  unknown_action : Refusal
  hold_no_number : Refusal
  hold_negative : Refusal
  held_no_boolean : Refusal
  is_off : Refusal
  no_supervisor : Refusal
  not_started_here : Refusal
  no_firmware_control : Refusal
  no_flash_control : Refusal
  out_of_range : ℕ → Refusal
  no_body : Refusal
  too_large : ℕ → Refusal
  failed : Text → Refusal

-- A reply of status 200 with its body, one with an error and its status, or an exception that no
-- handler catches.
pub data Reply (A : Type 0) : Type 0 where
  replied : A → Reply A
  refused : ℕ → Refusal → Reply A
  crashed : Exception → Reply A
