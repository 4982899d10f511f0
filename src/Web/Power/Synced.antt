-- ===== src/Web/Power/Synced.antt =====
-- The screen and the supervisor after a power request.
use uv_k5_v3_emulator.Common.{
  ℕ, Option, none, some, List, [], ◌≡◌, ◌≢◌, ◌⊎◌, inl, inr, refl, arith, ◌&&◌, not, Bool-cases,
  Option-cases,
}
use uv_k5_v3_emulator.Common.Text.{Text}
use uv_k5_v3_emulator.Supervisor.{Supervisor, Outcome, returned, raised, Action, owns_process}
use uv_k5_v3_emulator.Common.Chars.{trim, lower}
use uv_k5_v3_emulator.Launch.{BootKey, clear}
use uv_k5_v3_emulator.Stream.{FramePump, rebind, client_of, new_grabber}
use uv_k5_v3_emulator.Stream.Steps.{Dark}
use uv_k5_v3_emulator.Web.{Server, Effect, replied, refused, crashed, active_client}
use uv_k5_v3_emulator.Web.Power.{
  PowerAction, turn_on, turn_off, do_reset, do_pause, do_resume, PowerBody, no_object, fields,
  Millis, falsy, number, no_number, PowerEnv, PowerReply, api_power, power_parsed, power_known,
  power_chosen, power_reply, power_call, Choice, chosen, broken, choose_key, ask_key, action_of,
  is_off_action, rebound,
}

-- The pump grabs from the client that is live, and the screen is dark while there is none.
abbrev pub IsSynced : Server → Type 0
IsSynced server =
    (client_of server.pump.grabber ≡ active_client server)
    × Dark server.pump.grabber server.pump.png server.pump.raw

-- What is asked of the next boot: nothing, unless the action is "on".
abbrev KeyFits : PowerAction → Option BootKey → Type 0
KeyFits action none = Unit
KeyFits action (some key) = (key.name ≡ none) ⊎ (action ≡ turn_on)

-- What a reply says of the server before and after the request.
abbrev pub Settles : Server → PowerReply → Type 0
Settles before (replied (action, powered), server, effects) =
    IsSynced server × KeyFits action server.boot_key
Settles before (refused code why, server, effects) =
    ((code ≡ 503) × IsSynced server) ⊎ ((code ≢ 503) × (server ≡ before) × (effects ≡ []))
Settles before (crashed e, server, effects) =
    (server.pump ≡ before.pump) × (server.supervisor ≡ before.supervisor) × (effects ≡ [])

rebind-client_of : (c : Option ℕ) (p : FramePump) → client_of (rebind c p).grabber ≡ c
unfolding rebind new_grabber
rebind-client_of none p = refl
rebind-client_of (some c) p = refl

rebind-Dark :
    (c : Option ℕ) (p : FramePump) → Dark (rebind c p).grabber (rebind c p).png (rebind c p).raw
unfolding rebind new_grabber
rebind-Dark none p = (refl, refl)
rebind-Dark (some c) p = tt

rebound-IsSynced :
    (server : Server) (key : Option BootKey) (s : Supervisor) → IsSynced (rebound server key s)
unfolding active_client
rebound-IsSynced server key s =
    (rebind-client_of s.client server.pump, rebind-Dark s.client server.pump)

power_reply-Settles :
    (env : PowerEnv) (word : Text) (action : PowerAction) (server : Server) (key : Option BootKey)
    (effects : List Effect) (out : Outcome) (s : Supervisor) (acts : List Action)
    → KeyFits action key
    → Settles server (power_reply env word action server key effects (out, s, acts))
unfolding power_reply
power_reply-Settles env word action server key effects (returned value) s acts h =
    (rebound-IsSynced server key s, h)
power_reply-Settles env word action server key effects (raised e) s acts h =
    inl (refl, rebound-IsSynced server key s)

abbrev ChoiceFits : PowerAction → Choice → Type 0
ChoiceFits action (chosen key effects) = KeyFits action key
ChoiceFits action (broken e key) = Unit

ask_key-ChoiceFits :
    (name : Text) (hold : Millis) (key : BootKey) → ChoiceFits turn_on (ask_key name hold key)
unfolding ask_key
ask_key-ChoiceFits name falsy key = inr refl
ask_key-ChoiceFits name (number n) key = inr refl
ask_key-ChoiceFits name (no_number e) key = tt

choose_key-ChoiceFits :
    (action : PowerAction) (body : PowerBody) (key : Option BootKey)
    → ChoiceFits action (choose_key action body key)
unfolding choose_key clear
choose_key-ChoiceFits action body none = tt
choose_key-ChoiceFits turn_on no_object (some key) = tt
choose_key-ChoiceFits turn_on (fields none hold) (some key) = inl refl
choose_key-ChoiceFits turn_on (fields (some name) hold) (some key) =
    ask_key-ChoiceFits name hold key
choose_key-ChoiceFits turn_off body (some key) = inl refl
choose_key-ChoiceFits do_reset body (some key) = inl refl
choose_key-ChoiceFits do_pause body (some key) = inl refl
choose_key-ChoiceFits do_resume body (some key) = inl refl

power_chosen-Settles :
    (env : PowerEnv) (word : Text) (action : PowerAction) (server : Server) (s : Supervisor)
    (choice : Choice)
    → ChoiceFits action choice
    → Settles server (power_chosen env word action server s choice)
unfolding power_chosen
power_chosen-Settles env word action server s (broken e key) h = (refl, refl, refl)
power_chosen-Settles env word action server s (chosen key effects) h =
    let (out, s', acts) = power_call env action s in
    power_reply-Settles env word action server key effects out s' acts h

power_known-Settles :
    (env : PowerEnv) (body : PowerBody) (word : Text) (action : PowerAction) (server : Server)
    (o : Option Supervisor)
    → Settles server (power_known env body word action server o)
unfolding power_known
power_known-Settles env body word action server none = inr (omega arith, refl, refl)
power_known-Settles env body word action server (some s) =
    elim (Bool-cases (is_off_action action && not (owns_process s))) [
      | inl e ↦ rw e (inr (omega arith, refl, refl))
      | inr e ↦ rw e (
          power_chosen-Settles env word action server s (choose_key action body server.boot_key)
            (choose_key-ChoiceFits action body server.boot_key))
    ]

-- Every power request on every server: after a reply of 200, and also after a 503 for a call that
-- failed, the pump grabs from the client that the supervisor has now and the screen is dark if it has
-- none; after a 200 a boot key is asked for only if the action was "on". Any other refusal leaves the
-- whole server as it was, an exception leaves the supervisor and the pump, and neither has an effect.
pub api_power-IsSynced :
    (env : PowerEnv) (body : PowerBody) (action : Text) (server : Server)
    → Settles server (api_power env body action server)
unfolding api_power power_parsed
api_power-IsSynced env body action server = elim (Option-cases (action_of (lower (trim action)))) [
  | inl e ↦ rw e (inr (omega arith, refl, refl))
  | inr (a, e) ↦
      rw e (power_known-Settles env body (lower (trim action)) a server server.supervisor)
]
