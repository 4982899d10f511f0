-- ===== src/Supervisor/Trace.antt =====
-- Runs of the supervisor: whatever the environment answers, the processes that run under it are the
-- one that it owns and those that `adopt` forgot.
use uv_k5_v3_emulator.Common.{ℕ, Bool, Option, none, some, List, [], ◌++◌, ◌≡◌, refl, ap, sym, ◌∙◌}
use uv_k5_v3_emulator.Supervisor.{
  Supervisor, Process, Action, Call, off, adopt, power_on, power_off, reset, pause, resume,
}
use uv_k5_v3_emulator.Supervisor.Account.{
  after_all, after_all-++, owned, IsWhole, Step, Reach, then_all, power_on_step, power_off_step,
  reset_step, pause_step, resume_step, adopt_step, start, then_step,
}
use uv_k5_v3_emulator.Supervisor.Calls.{
  KeepsFrom, power_on-KeepsFrom, power_off-KeepsFrom, no_action, reset-KeepsFrom, pause-KeepsFrom,
  resume-KeepsFrom,
}

owned-nil : (proc : Option Process) → owned proc ++ [] ≡ owned proc
unfolding owned
owned-nil none = refl
owned-nil (some p) = refl

owned-append :
    (proc : Option Process) (xs ys : List ℕ) → (owned proc ++ xs) ++ ys ≡ owned proc ++ (xs ++ ys)
unfolding owned
owned-append none xs ys = refl
owned-append (some p) xs ys = refl

-- The processes that run once `xs` is done, from `ps` on: the one that `t` owns and the lost ones.
abbrev Leaves : List ℕ → List Action → List ℕ → Supervisor → Type 0
Leaves ps xs lost t = IsWhole t × (after_all xs ps ≡ some (owned t.proc ++ lost))

Leaves-none : (ps : List ℕ) (call : Call) → KeepsFrom ps call → Leaves ps call.2 [] call.1
Leaves-none ps call (whole, known) =
    (whole, known ∙ ap (λ qs. some qs) (sym (owned-nil call.1.proc)))

Step-Leaves :
    (s t : Supervisor) (xs : List Action) (forgot : List ℕ)
    → Step s xs forgot t
    → IsWhole s
    → Leaves (owned s.proc) xs forgot t
unfolding adopt
Step-Leaves _ _ _ _ (power_on_step env s) h =
    Leaves-none (owned s.proc) (power_on env s) (power_on-KeepsFrom env s h)
Step-Leaves _ _ _ _ (power_off_step env s) h =
    Leaves-none (owned s.proc) (power_off env s)
      (power_off-KeepsFrom env s.has_log s.proc s.client h)
Step-Leaves _ _ _ _ (reset_step env fails s) h =
    Leaves-none (owned s.proc) (reset env fails s)
      (reset-KeepsFrom env fails s.has_log s.proc s.client h)
Step-Leaves _ _ _ _ (pause_step fails s) h =
    Leaves-none (owned s.proc) (pause fails s) (pause-KeepsFrom fails s.has_log s.proc s.client h)
Step-Leaves _ _ _ _ (resume_step fails s) h =
    Leaves-none (owned s.proc) (resume fails s) (resume-KeepsFrom fails s.has_log s.proc s.client h)
Step-Leaves _ _ _ _ (adopt_step c s) h = (tt, unfold after_all owned in refl)

Reach-Leaves :
    (s t : Supervisor) (xs : List Action) (lost : List ℕ)
    → Reach s xs lost t
    → IsWhole s
    → Leaves (owned s.proc) xs lost t
Reach-Leaves s _ _ _ (start _) h = (h, no_action s ∙ ap (λ qs. some qs) (sym (owned-nil s.proc)))
Reach-Leaves s _ _ _ (then_step _ t u xs ys lost forgot before step) h =
    let (whole, known) = Reach-Leaves s t xs lost before h in
    let (whole', rest) = Step-Leaves t u ys forgot step whole in
    (
      whole',
      then_all xs ys _ _ _ known (after_all-++ ys _ _ lost rest)
          ∙ ap (λ qs. some qs) (owned-append u.proc forgot lost),
    )

-- However the calls follow each other and whatever the environment answers, from a new supervisor
-- on: nothing is owned without a client; no process is waited for, terminated or killed that was not
-- launched here and still runs; and the processes that run are the one that the supervisor owns, or
-- none, and those that an `adopt` made it forget while it owned them, each once for every such call,
-- which no later call stops. So without such an `adopt` no process is left behind, by a failed
-- power-on neither.
pub after_all-Reach :
    (log : Bool) (t : Supervisor) (xs : List Action) (lost : List ℕ)
    → Reach (off log) xs lost t
    → IsWhole t × (after_all xs [] ≡ some (owned t.proc ++ lost))
after_all-Reach log t xs lost reach = unfold owned in Reach-Leaves (off log) t xs lost reach refl
