-- ===== src/Supervisor/Calls.antt =====
-- What each call of the supervisor leaves to run.
use uv_k5_v3_emulator.Common.{
  ℕ, Bool, Option, none, some, List, [], ◌∷◌, ==_refl, ◌≡◌, refl, arith, Option-cases, inl, inr, ap,
  ◌∙◌,
}
use uv_k5_v3_emulator.Supervisor.{
  Supervisor, Process, Action, reaped, note, StartEnv, StopEnv, Answer, gave, threw, Error,
  ExitCode, off, forget_dead, forget_polled, connected, launched, Call, started, power_on_failed,
  exited_on_its_own, launch_new, power_on, reap, power_off, command_then, reset, pause, resume,
  Command, stop_note, system_reset, stop, cont, was_reset, quit, sent, closed, attempt, caught,
  let_go,
}
use uv_k5_v3_emulator.Supervisor.Account.{
  runs, without, after, after_all, owned, Whole, IsWhole, then_all, note_quiet, pump_quiet,
  spawn_lem, clean_up_ends, reap_ends, pump_again_quiet,
}

abbrev pub state : Bool → Option Process → Option ℕ → Supervisor
state log proc client = record { has_log = log; proc = proc; client = client }

-- The same for a call that starts where `ps` run.
abbrev pub KeepsFrom : List ℕ → Call → Type 0
KeepsFrom ps call = IsWhole call.1 × (after_all call.2 ps ≡ some (owned call.1.proc))

pub connected-KeepsFrom :
    (env : StartEnv) (s : Supervisor) (proc : Option Process) (answer : Answer ℕ)
    → KeepsFrom (owned proc) (connected env s proc answer)
unfolding connected owned
connected-KeepsFrom env s proc (gave c) = (
  tt,
  then_all _ _ _ _ _ (pump_quiet proc)
      (then_all _ _ _ _ _ (note_quiet s started (owned proc)) (pump_again_quiet proc)),
)
connected-KeepsFrom env s proc (threw e) = (
  refl,
  then_all _ _ _ _ _ (pump_quiet proc)
      (then_all _ _ _ _ _ (clean_up_ends env s proc) (note_quiet s (power_on_failed e) [])),
)

pub launched-KeepsFrom :
    (env : StartEnv) (log : Bool) (answer : Answer (Option Process))
    → KeepsFrom [] (launched env (off log) answer)
unfolding launched
launched-KeepsFrom env log (threw e) = (refl, unfold after_all owned in refl)
launched-KeepsFrom env log (gave proc) =
    let (whole, rest) = connected-KeepsFrom env (off log) proc env.connect in
    (whole, then_all _ _ _ _ _ (spawn_lem proc) rest)

pub launch_new-KeepsFrom :
    (env : StartEnv) (log : Bool) (proc : Option Process) (client : Option ℕ)
    → Whole client proc
    → KeepsFrom (owned proc) (launch_new env (state log proc client))
unfolding launch_new owned after_all
launch_new-KeepsFrom env log proc none h = rw h (launched-KeepsFrom env log env.launch)
launch_new-KeepsFrom env log proc (some c) h = (tt, refl)

pub ends : (p : ℕ) → after_all (reaped p ∷ []) (p ∷ []) ≡ some []
unfolding after_all after runs without
ends p = ground (arith, ==_refl p)

pub forget_dead-KeepsFrom :
    (poll : ℕ → Option ExitCode) (log : Bool) (proc : Option Process) (client : Option ℕ)
    → Whole client proc
    → IsWhole (forget_dead poll (state log proc client)).0
      × (after_all (forget_dead poll (state log proc client)).1 (owned proc)
          ≡ some (owned (forget_dead poll (state log proc client)).0.proc))
unfolding forget_dead forget_polled owned after_all
forget_dead-KeepsFrom poll log proc none h = rw h (refl, refl)
forget_dead-KeepsFrom poll log none (some c) h = (tt, refl)
forget_dead-KeepsFrom poll log (some p) (some c) h = elim (Option-cases (poll p.pid)) [
  | inl q ↦ rw q (tt, refl)
  | inr (code, q) ↦
      let quiet = note_quiet (state log (some p) (some c)) (exited_on_its_own code) [] in
      rw q (
        refl,
        then_all (reaped p.pid ∷ []) (note (state log (some p) (some c)) (exited_on_its_own code))
            (p.pid ∷ []) [] [] (ends p.pid) quiet,
      )
]

pub power_on-KeepsFrom :
    (env : StartEnv) (s : Supervisor) → IsWhole s → KeepsFrom (owned s.proc) (power_on env s)
unfolding power_on
power_on-KeepsFrom env s h =
    let (whole, known) = forget_dead-KeepsFrom env.poll s.has_log s.proc s.client h in
    let s' = (forget_dead env.poll s).0 in
    let (whole', rest) = launch_new-KeepsFrom env s'.has_log s'.proc s'.client whole in
    (whole', then_all _ _ _ _ _ known rest)

attempt-caught :
    (act : Action) (fails : Option Error) (rest : Call)
    → attempt act fails (caught rest) ≡ (rest.0, rest.1, act ∷ rest.2)
unfolding attempt caught
attempt-caught act none rest = refl
attempt-caught act (some e) rest = refl

-- Neither the exception of `quit` nor that of `close` stops a power-off.
pub power_off-let_go :
    (env : StopEnv) (log : Bool) (proc : Option Process) (c : ℕ)
    → let (out, s, acts) = let_go env (state log proc (some c)) in
      power_off env (state log proc (some c)) ≡ (out, s, sent c quit ∷ closed c ∷ acts)
unfolding power_off
power_off-let_go env log proc c =
    let last = let_go env (state log proc (some c)) in
    let rest = attempt (closed c) env.close_raises (caught last) in
    attempt-caught (sent c quit) env.quit_raises rest
    ∙ ap (λ (r : Call). (r.0, r.1, sent c quit ∷ r.2))
        (attempt-caught (closed c) env.close_raises last)

pub power_off-KeepsFrom :
    (env : StopEnv) (log : Bool) (proc : Option Process) (client : Option ℕ)
    → Whole client proc
    → KeepsFrom (owned proc) (power_off env (state log proc client))
unfolding owned after_all after
power_off-KeepsFrom env log proc none h = unfold power_off in (refl, rw h refl)
power_off-KeepsFrom env log proc (some c) h = rw (power_off-let_go env log proc c) (
    unfold let_go in
    (
      refl,
      then_all (reap env proc).1 _ (owned proc) [] [] (reap_ends env proc)
          (note_quiet (state log proc (some c)) (stop_note (reap env proc).0) []),
    ))

pub command_then-KeepsFrom :
    (fails : Option Error) (c : ℕ) (cmd : Command) (xs : List Action) (s : Supervisor)
    → IsWhole s
    → after_all xs (owned s.proc) ≡ some (owned s.proc)
    → KeepsFrom (owned s.proc) (command_then fails c cmd xs s)
unfolding command_then after_all after
command_then-KeepsFrom none c cmd xs s h quiet = (h, quiet)
command_then-KeepsFrom (some e) c cmd xs s h quiet = (h, refl)

pub no_action : (s : Supervisor) → after_all [] (owned s.proc) ≡ some (owned s.proc)
unfolding after_all
no_action s = refl

pub reset-KeepsFrom :
    (env : StartEnv) (fails : Option Error) (log : Bool) (proc : Option Process) (client : Option ℕ)
    → Whole client proc
    → KeepsFrom (owned proc) (reset env fails (state log proc client))
unfolding reset
reset-KeepsFrom env fails log proc none h = power_on-KeepsFrom env (state log proc none) h
reset-KeepsFrom env fails log proc (some c) h =
    let s = state log proc (some c) in
    command_then-KeepsFrom fails c system_reset (note s was_reset) s h
      (note_quiet s was_reset (owned proc))

pub pause-KeepsFrom :
    (fails : Option Error) (log : Bool) (proc : Option Process) (client : Option ℕ)
    → Whole client proc
    → KeepsFrom (owned proc) (pause fails (state log proc client))
unfolding pause
pause-KeepsFrom fails log proc none h = (h, no_action (state log proc none))
pause-KeepsFrom fails log proc (some c) h =
    let s = state log proc (some c) in command_then-KeepsFrom fails c stop [] s h (no_action s)

pub resume-KeepsFrom :
    (fails : Option Error) (log : Bool) (proc : Option Process) (client : Option ℕ)
    → Whole client proc
    → KeepsFrom (owned proc) (resume fails (state log proc client))
unfolding resume
resume-KeepsFrom fails log proc none h = (h, no_action (state log proc none))
resume-KeepsFrom fails log proc (some c) h =
    let s = state log proc (some c) in command_then-KeepsFrom fails c cont [] s h (no_action s)
