-- ===== src/Web/Power.antt =====
-- `api_power` of tools/webui.py.
pub mod Synced
pub mod Off
use uv_k5_v3_emulator.Common.{
  ℕ, Bool, true, false, Option, none, some, List, [], ◌∷◌, ◌++◌, ◌&&◌, if◌then◌else◌, not, take,
}
use uv_k5_v3_emulator.Common.Text.{Text}
use uv_k5_v3_emulator.Common.Signed.{ℤ, pos}
use uv_k5_v3_emulator.Common.Words.{bytes_eq}
use uv_k5_v3_emulator.Common.Chars.{chars, trim, lower}
use uv_k5_v3_emulator.Supervisor.{
  Supervisor, Process, StartEnv, StopEnv, Error, Outcome, returned, raised, ExitCode, Call, Action,
  power_on, power_off, reset, pause, resume, is_running, owns_process,
}
use uv_k5_v3_emulator.Launch.{BootKey, clear}
use uv_k5_v3_emulator.Stream.{FramePump, rebind}
use uv_k5_v3_emulator.Web.{
  Server, Exception, Effect, logged, supervised, asking_for_key, power_requested, power_failed,
  Reply, replied, refused, crashed, unknown_action, no_supervisor, not_started_here, failed,
}
use uv_k5_v3_emulator.Web.Key.{attribute_error}

pub data PowerAction : Type 0 where
  turn_on : PowerAction
  turn_off : PowerAction
  do_reset : PowerAction
  do_pause : PowerAction
  do_resume : PowerAction

-- `hold_ms` of the body: a value that counts as false, what `int` gives, or its exception.
pub data Millis : Type 0 where
  falsy : Millis
  number : ℤ → Millis
  no_number : Exception → Millis

-- The body, if it is an object: the text of `boot_key` if that counts as true, and `hold_ms`.
pub data PowerBody : Type 0 where
  no_object : PowerBody
  fields : Option Text → Millis → PowerBody

-- What the emulator answers during the request. `poll_after` is for the reply.
pub record PowerEnv : Type 0 where
  pub start : StartEnv
  pub stop : StopEnv
  pub fails : Option Error
  pub poll_after : ℕ → Option ExitCode

unfoldable pub action_of : Text → Option PowerAction
action_of action =
    if bytes_eq action (chars "on")
    then some turn_on
    else if bytes_eq action (chars "off")
    then some turn_off
    else if bytes_eq action (chars "reset")
    then some do_reset
    else if bytes_eq action (chars "pause")
    then some do_pause
    else if bytes_eq action (chars "resume")
    then some do_resume
    else none

unfoldable pub power_call : PowerEnv → PowerAction → Supervisor → Call
power_call env turn_on s = power_on env.start s
power_call env turn_off s = power_off env.stop s
power_call env do_reset s = reset env.start env.fails s
power_call env do_pause s = pause env.fails s
power_call env do_resume s = resume env.fails s

-- The boot key after the request, with what is logged; an exception leaves it half set.
pub data Choice : Type 0 where
  chosen : Option BootKey → List Effect → Choice
  broken : Exception → Option BootKey → Choice

unfoldable pub ask_key : Text → Millis → BootKey → Choice
ask_key name falsy key =
    chosen (some (record { name = some (take 16 name); hold_ms = pos 1500 }))
      (logged (asking_for_key (take 16 name)) ∷ [])
ask_key name (number n) key =
    chosen (some (record { name = some (take 16 name); hold_ms = n }))
      (logged (asking_for_key (take 16 name)) ∷ [])
ask_key name (no_number e) key =
    broken e (some (record { name = some (take 16 name); hold_ms = key.hold_ms }))

-- A plain On must not inherit the last boot mode.
unfoldable pub choose_key : PowerAction → PowerBody → Option BootKey → Choice
choose_key action body none = chosen none []
choose_key turn_on no_object (some key) = broken attribute_error (some key)
choose_key turn_on (fields none hold) (some key) = chosen (some (clear key)) []
choose_key turn_on (fields (some name) hold) (some key) = ask_key name hold key
choose_key turn_off body (some key) = chosen (some (clear key)) []
choose_key do_reset body (some key) = chosen (some (clear key)) []
choose_key do_pause body (some key) = chosen (some (clear key)) []
choose_key do_resume body (some key) = chosen (some (clear key)) []

abbrev pub PowerReply : Type 0
PowerReply = Reply (PowerAction × Bool) × Server × List Effect

-- The supervisor as the call left it, and the pump at its client.
abbrev pub rebound : Server → Option BootKey → Supervisor → Server
rebound server key s = record server {
  supervisor = some s;
  boot_key = key;
  pump = rebind s.client server.pump;
}

unfoldable pub power_reply :
    PowerEnv → Text → PowerAction → Server → Option BootKey → List Effect → Call → PowerReply
power_reply env word action server key effects (returned value, s, acts) = (
  replied (action, is_running env.poll_after s),
  rebound server key s,
  effects ++ logged (power_requested word) ∷ supervised acts ∷ [],
)
power_reply env word action server key effects (raised e, s, acts) = (
  refused 503 (failed e),
  rebound server key s,
  effects ++ logged (power_requested word) ∷ supervised acts ∷ logged (power_failed word e) ∷ [],
)

unfoldable pub power_chosen :
    PowerEnv → Text → PowerAction → Server → Supervisor → Choice → PowerReply
power_chosen env word action server s (broken e key) =
    (crashed e, record server { boot_key = key }, [])
power_chosen env word action server s (chosen key effects) =
    power_reply env word action server key effects (power_call env action s)

abbrev pub is_off_action : PowerAction → Bool
is_off_action turn_off = true
is_off_action turn_on = false
is_off_action do_reset = false
is_off_action do_pause = false
is_off_action do_resume = false

unfoldable pub power_known :
    PowerEnv → PowerBody → Text → PowerAction → Server → Option Supervisor → PowerReply
power_known env body word action server none = (refused 409 no_supervisor, server, [])
power_known env body word action server (some s) =
    if is_off_action action && not (owns_process s)
    then (refused 409 not_started_here, server, [])
    else power_chosen env word action server s (choose_key action body server.boot_key)

unfoldable pub power_parsed : PowerEnv → PowerBody → Text → Option PowerAction → Server → PowerReply
power_parsed env body word none server = (refused 400 unknown_action, server, [])
power_parsed env body word (some action) server =
    power_known env body word action server server.supervisor

unfoldable pub api_power : PowerEnv → PowerBody → Text → Server → PowerReply
api_power env body action server =
    let word = lower (trim action) in power_parsed env body word (action_of word) server
