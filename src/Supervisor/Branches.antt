-- ===== src/Supervisor/Branches.antt =====
-- What each call of the supervisor returns and leaves, on every branch.
use uv_k5_v3_emulator.Common.{
  ℕ, Bool, true, false, Option, none, some, [], ◌∷◌, ◌≡◌, refl, sym, Option-cases, inl, inr, arith,
  ap, ◌∙◌,
}
use uv_k5_v3_emulator.Supervisor.{
  Supervisor, Process, StartEnv, StopEnv, Answer, gave, threw, Outcome, returned, raised, off,
  is_running, owns_process, has_exited, power_on, forget_dead, forget_polled, launch_new, launched,
  connected, power_off, let_go, sent, closed, quit,
}
use uv_k5_v3_emulator.Supervisor.Account.{IsWhole, Whole}
use uv_k5_v3_emulator.Supervisor.Calls.{state, power_off-let_go}

abbrev pub is_some : Option ℕ → Bool
is_some none = false
is_some (some c) = true

-- What a power-on of a supervisor that does not run is meant to give.
abbrev pub boot_connect : Bool → Option Process → Answer ℕ → Outcome × Supervisor
boot_connect log proc (gave c) = (returned true, state log proc (some c))
boot_connect log proc (threw e) = (raised e, off log)

abbrev pub boot : Bool → Answer (Option Process) → Answer ℕ → Outcome × Supervisor
boot log (threw e) connect = (raised e, off log)
boot log (gave proc) connect = boot_connect log proc connect

launched-boot :
    (env : StartEnv) (log : Bool) (launch : Answer (Option Process)) (connect : Answer ℕ)
    → env.connect ≡ connect
    → let (out, s, _) = launched env (off log) launch in (out, s) ≡ boot log launch connect
unfolding launched connected
launched-boot env log (threw e) connect h = refl
launched-boot env log (gave proc) (gave c) h = rw h refl
launched-boot env log (gave proc) (threw e) h = rw h refl

power_on_dead :
    (env : StartEnv) (log : Bool) (proc : Option Process) (client : Option ℕ)
    → Whole client proc
    → is_running env.poll (state log proc client) ≡ false
    → let (out, s, _) = power_on env (state log proc client) in
      (out, s) ≡ boot log env.launch env.connect
unfolding power_on forget_dead forget_polled launch_new is_running has_exited
power_on_dead env log proc none h dead = rw h (launched-boot env log env.launch env.connect refl)
power_on_dead env log none (some c) h dead = absurd (ground arith)
power_on_dead env log (some p) (some c) h dead = elim (Option-cases (env.poll p.pid)) [
  | inl q ↦ absurd (ground (arith, q))
  | inr (code, q) ↦ rw q (launched-boot env log env.launch env.connect refl)
]

power_on_alive :
    (env : StartEnv) (log : Bool) (proc : Option Process) (client : Option ℕ)
    → is_running env.poll (state log proc client) ≡ true
    → power_on env (state log proc client) ≡ (returned false, state log proc client, [])
unfolding power_on forget_dead forget_polled launch_new is_running has_exited
power_on_alive env log proc none alive = absurd (ground arith)
power_on_alive env log none (some c) alive = refl
power_on_alive env log (some p) (some c) alive = elim (Option-cases (env.poll p.pid)) [
  | inl q ↦ rw q refl
  | inr (code, q) ↦ absurd (ground (arith, q))
]

-- A power-on of an emulator that runs does nothing and returns False. Otherwise, also when the last
-- process died on its own, it launches a new one: it returns True and runs with what the launcher
-- and the client gave, or it raises what one of them raised and the supervisor is off.
pub power_on_lem :
    (env : StartEnv) (s : Supervisor)
    → IsWhole s
    → (is_running env.poll s ≡ true → power_on env s ≡ (returned false, s, []))
      × (is_running env.poll s ≡ false
          → let (out, t, _) = power_on env s in (out, t) ≡ boot s.has_log env.launch env.connect)
power_on_lem env s h =
    (power_on_alive env s.has_log s.proc s.client, power_on_dead env s.has_log s.proc s.client h)

pub power_on-off :
    (env : StartEnv) (log : Bool)
    → let (out, t, _) = power_on env (off log) in boot log env.launch env.connect ≡ (out, t)
power_on-off env log = unfold is_running in sym ((power_on_lem env (off log) refl).1 refl)

pub power_off-state :
    (env : StopEnv) (log : Bool) (proc : Option Process) (client : Option ℕ)
    → (power_off env (state log proc client)).1 ≡ off log
unfolding power_off
power_off-state env log proc none = refl
power_off-state env log proc (some c) =
    ap (λ r. r.1) (power_off-let_go env log proc c) ∙ (unfold let_go in refl)

power_off_outcome :
    (env : StopEnv) (log : Bool) (proc : Option Process) (client : Option ℕ)
    → (power_off env (state log proc client)).0 ≡ returned (is_some client)
unfolding power_off
power_off_outcome env log proc none = refl
power_off_outcome env log proc (some c) =
    ap (λ r. r.0) (power_off-let_go env log proc c) ∙ (unfold let_go in refl)

power_off-sent :
    (env : StopEnv) (log : Bool) (proc : Option Process) (client : Option ℕ) (c : ℕ)
    → client ≡ some c
    → (power_off env (state log proc client)).2
      ≡ sent c quit ∷ closed c ∷ (let_go env (state log proc client)).2
power_off-sent env log proc client c h = rw h (ap (λ r. r.2) (power_off-let_go env log proc c))

-- A power-off never raises, whether or not `quit`, `close` and the two waits for the process raise:
-- it returns whether there was an emulator, launched or adopted, nothing runs or is owned after it,
-- and a power-on that follows is a cold boot of a new process. Where there was an emulator, it is sent
-- `quit`, and its client is closed, before all else. An adopted one is no exception: the power-off
-- does not refuse.
pub power_off-power_on :
    (stop : StopEnv) (env : StartEnv) (s : Supervisor)
    → let (out, t, acts) = power_off stop s in
      (out ≡ returned (is_some s.client))
      × (is_running env.poll t ≡ false)
      × (owns_process t ≡ false)
      × (let (out', u, _) = power_on env t in (out', u) ≡ boot s.has_log env.launch env.connect)
      × ((c : ℕ) → s.client ≡ some c → acts ≡ sent c quit ∷ closed c ∷ (let_go stop s).2)
unfolding is_running owns_process
power_off-power_on stop env s =
    let gone = power_off-state stop s.has_log s.proc s.client in
    (
      power_off_outcome stop s.has_log s.proc s.client,
      rw gone refl,
      rw gone refl,
      rw gone ((power_on_lem env (off s.has_log) refl).1 refl),
      power_off-sent stop s.has_log s.proc s.client,
    )
