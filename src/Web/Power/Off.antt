-- ===== src/Web/Power/Off.antt =====
-- A request to switch the emulator off.
use uv_k5_v3_emulator.Common.{
  ℕ, Bool, true, false, Option, none, some, List, [], ◌∷◌, ◌≡◌, refl, ◌∙◌, ap,
}
use uv_k5_v3_emulator.Common.Text.{Text}
use uv_k5_v3_emulator.Common.Chars.{chars, trim, lower}
use uv_k5_v3_emulator.Common.Words.{bytes_eq}
use uv_k5_v3_emulator.Supervisor.{
  Supervisor, Action, Process, is_running, owns_process, off, power_off, let_go,
}
use uv_k5_v3_emulator.Supervisor.Calls.{state, power_off-let_go}
use uv_k5_v3_emulator.Launch.{BootKey, clear}
use uv_k5_v3_emulator.Stream.{rebind, new_grabber}
use uv_k5_v3_emulator.Web.{
  Server, logged, supervised, power_requested, replied, refused, not_started_here,
}
use uv_k5_v3_emulator.Web.Power.{
  turn_off, PowerBody, PowerEnv, PowerReply, api_power, power_parsed, power_known, power_chosen,
  power_reply, power_call, choose_key, chosen, action_of,
}

abbrev cleared : Option BootKey → Option BootKey
cleared none = none
cleared (some key) = some (clear key)

choose_key-turn_off :
    (body : PowerBody) (key : Option BootKey)
    → choose_key turn_off body key ≡ chosen (cleared key) []
unfolding choose_key
choose_key-turn_off body none = refl
choose_key-turn_off body (some key) = refl

-- The server after an off that is carried out: no emulator, a dark screen, and no key for the next
-- boot.
abbrev pub IsDark : Bool → Server → Type 0
IsDark log server =
    (server.supervisor ≡ some (off log))
    × (server.pump.grabber ≡ none)
    × (server.pump.png ≡ none)
    × ((key : BootKey) → server.boot_key ≡ some key → key.name ≡ none)

cleared-name : (o : Option BootKey) (key : BootKey) → cleared o ≡ some key → key.name ≡ none
unfolding clear
cleared-name none key e = cc
cleared-name (some k) key e = let same : clear k ≡ key = cc in rw (← same) refl

abbrev pub IsOffWord : Text → Type 0
IsOffWord word = lower (trim word) ≡ chars "off"

abbrev pub CarriedOut : Bool → List Action → PowerReply → Type 0
CarriedOut log acts (reply, server, effects) =
    (reply ≡ replied (turn_off, false))
    × IsDark log server
    × (effects ≡ logged (power_requested (chars "off")) ∷ supervised acts ∷ [])

carries_out :
    (env : PowerEnv) (server : Server) (key : Option BootKey) (log : Bool) (proc : Option Process)
    (client : Option ℕ)
    → CarriedOut log (power_off env.stop (state log proc client)).2 (
        power_reply env
          (chars "off")
          turn_off
          server
          (cleared key)
          []
          (power_off env.stop (state log proc client)))
unfolding power_reply is_running rebind new_grabber
carries_out env server key log proc none =
    unfold power_off in (refl, (refl, refl, refl, cleared-name key), refl)
carries_out env server key log proc (some c) =
    rw (power_off-let_go env.stop log proc c)
      (unfold let_go in (refl, (refl, refl, refl, cleared-name key), refl))

reaches :
    (env : PowerEnv) (body : PowerBody) (word : Text) (server : Server) (s : Supervisor)
    → IsOffWord word
    → server.supervisor ≡ some s
    → api_power env body word server ≡ power_known env body (chars "off") turn_off server (some s)
unfolding api_power power_parsed
reaches env body word server s off_word e =
    let parsed : action_of (chars "off") ≡ some turn_off = unfold action_of bytes_eq in refl in
    rw (off_word, parsed) (ap (power_known env body (chars "off") turn_off server) e)

not_owned :
    (env : PowerEnv) (body : PowerBody) (server : Server) (s : Supervisor)
    → owns_process s ≡ false
    → power_known env body (chars "off") turn_off server (some s)
      ≡ (refused 409 not_started_here, server, [])
unfolding power_known
not_owned env body server s owns = rw owns refl

owned :
    (env : PowerEnv) (body : PowerBody) (server : Server) (s : Supervisor)
    → owns_process s ≡ true
    → CarriedOut s.has_log
        (power_off env.stop s).2
        (power_known env body (chars "off") turn_off server (some s))
unfolding power_known power_chosen power_call
owned env body server s owns =
    rw (owns, choose_key-turn_off body server.boot_key)
      (carries_out env server server.boot_key s.has_log s.proc s.client)

-- "off", in any case and with blanks around it, on an emulator that the server did not start is
-- refused with 409 and does nothing; on one that it started it never fails, whatever the monitor and
-- the process answer: the reply says that nothing runs, the supervisor has let go of the process, the
-- screen is dark at once, and no boot key is left for the next boot.
pub api_power-power_off :
    (env : PowerEnv) (body : PowerBody) (word : Text) (server : Server) (s : Supervisor)
    → IsOffWord word
    → server.supervisor ≡ some s
    → (owns_process s ≡ false
        → api_power env body word server ≡ (refused 409 not_started_here, server, []))
      × (owns_process s ≡ true
          → CarriedOut s.has_log (power_off env.stop s).2 (api_power env body word server))
api_power-power_off env body word server s off_word e = (
  λ owns. reaches env body word server s off_word e ∙ not_owned env body server s owns,
  λ owns. rw (reaches env body word server s off_word e) (owned env body server s owns),
)
