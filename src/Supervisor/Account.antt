-- ===== src/Supervisor/Account.antt =====
-- The processes that run under the supervisor, by its actions.
use uv_k5_v3_emulator.Common.{
  ℕ, Bool, true, false, Option, none, some, List, [], ◌∷◌, ◌++◌, ◌==◌, ==_refl, if◌then◌else◌, ◌≡◌,
  refl, arith, ◌||◌, Option-cases, Bool-cases, inl, inr, take, ap,
}
use uv_k5_v3_emulator.Common.Text.{Text}
use uv_k5_v3_emulator.Supervisor.{
  qemu_said, said, stop_failed, failure_notes, command_line, argv_repr, Supervisor, Process, Action,
  spawned, terminated, killed, reaped, drained, sent, closed, noted, Note, note, StartEnv, StopEnv,
  Error, start_stderr_pump, tail_notes, join_words, stderr_of, clean_up, spawn, power_on, reap,
  power_off, reset, pause, resume, adopt,
}

-- Whether a process runs, and the ones that run when it, the one launched last of its number, has
-- ended.
unfoldable pub runs : ℕ → List ℕ → Bool
runs p [] = false
runs p (q ∷ qs) = p == q || runs p qs

unfoldable pub without : ℕ → List ℕ → List ℕ
without p [] = []
without p (q ∷ qs) = let rest = without p qs in if p == q then qs else q ∷ rest

-- The processes that run after an action. `none` if it waits for, terminates or kills a process that
-- does not run under the supervisor.
unfoldable pub after : Action → List ℕ → Option (List ℕ)
unfolding runs without
after (spawned p) ps = some (p ∷ ps)
after (terminated p) ps = if runs p ps then some ps else none
after (killed p) ps = if runs p ps then some (without p ps) else none
after (reaped p) ps = if runs p ps then some (without p ps) else none
after (drained p) ps = if runs p ps then some ps else none
after (sent c cmd) ps = some ps
after (closed c) ps = some ps
after (noted n) ps = some ps

unfoldable pub after_all : List Action → List ℕ → Option (List ℕ)
unfolding after
after_all [] ps = some ps
after_all (a ∷ xs) ps = elim (after a ps) [ none ↦ none | some qs ↦ after_all xs qs ]

-- The process that the supervisor owns.
unfoldable pub owned : Option Process → List ℕ
owned none = []
owned (some p) = p.pid ∷ []

-- A process is owned only with a client: none is left half started.
abbrev pub Whole : Option ℕ → Option Process → Type 0
Whole none proc = proc ≡ none
Whole (some c) proc = Unit

abbrev pub IsWhole : Supervisor → Type 0
IsWhole s = Whole s.client s.proc

-- One call on the supervisor, with the environment's answers, what it does, and the process that it
-- forgets while it may still run: only `adopt` forgets one.
pub data Step : Supervisor → List Action → List ℕ → Supervisor → Type 0 where
  power_on_step :
      (env : StartEnv) (s : Supervisor) → Step s (power_on env s).2 [] (power_on env s).1
  power_off_step :
      (env : StopEnv) (s : Supervisor) → Step s (power_off env s).2 [] (power_off env s).1
  reset_step :
      (env : StartEnv) (fails : Option Error) (s : Supervisor)
      → Step s (reset env fails s).2 [] (reset env fails s).1
  pause_step :
      (fails : Option Error) (s : Supervisor) → Step s (pause fails s).2 [] (pause fails s).1
  resume_step :
      (fails : Option Error) (s : Supervisor) → Step s (resume fails s).2 [] (resume fails s).1
  adopt_step : (c : ℕ) (s : Supervisor) → Step s [] (owned s.proc) (adopt c s)

pub data Reach : Supervisor → List Action → List ℕ → Supervisor → Type 0 where
  start : (s : Supervisor) → Reach s [] [] s
  then_step :
      (s t u : Supervisor) (xs ys : List Action) (lost forgot : List ℕ)
      → Reach s xs lost t
      → Step t ys forgot u
      → Reach s (xs ++ ys) (forgot ++ lost) u

pub then_all :
    (xs ys : List Action) (ps qs rs : List ℕ)
    → after_all xs ps ≡ some qs
    → after_all ys qs ≡ some rs
    → after_all (xs ++ ys) ps ≡ some rs
unfolding after_all
then_all [] ys ps qs rs h k = ground (arith, k)
then_all (a ∷ xs) ys ps qs rs h k = elim (Option-cases (after a ps)) [
  | inl e ↦ absurd (ground (arith, e))
  | inr (ps', e) ↦ rw (after_all, e) (then_all xs ys ps' qs rs (ground (arith, e)) k)
]

runs-++ : (p : ℕ) (ps ls : List ℕ) → runs p ps ≡ true → runs p (ps ++ ls) ≡ true
unfolding runs
runs-++ p [] ls h = absurd (ground (arith, h))
runs-++ p (q ∷ qs) ls h = elim (Bool-cases (p == q)) [
  | inl e ↦ rw e refl
  | inr e ↦ ground (arith, runs-++ p qs ls (ground (arith, e)))
]

without-++ : (p : ℕ) (ps ls : List ℕ) → runs p ps ≡ true → without p (ps ++ ls) ≡ without p ps ++ ls
unfolding runs without
without-++ p [] ls h = absurd (ground (arith, h))
without-++ p (q ∷ qs) ls h = elim (Bool-cases (p == q)) [
  | inl e ↦ rw e refl
  | inr e ↦ rw (e, without-++ p qs ls (ground (arith, e))) refl
]

abbrev more : List ℕ → Option (List ℕ) → Option (List ℕ)
more ls none = none
more ls (some ps) = some (ps ++ ls)

guarded :
    (b : Bool) (rs qs : List ℕ)
    → (if b then some rs else none) ≡ some qs
    → (b ≡ true) × (some rs ≡ some qs)
guarded true rs qs h = (refl, h)
guarded false rs qs h = absurd (ground (arith, h))

-- An action on a process that runs does the same where more processes run.
after-++ :
    (a : Action) (ps qs ls : List ℕ) → after a ps ≡ some qs → after a (ps ++ ls) ≡ some (qs ++ ls)
unfolding after
after-++ (spawned p) ps qs ls h = ap (more ls) h
after-++ (terminated p) ps qs ls h =
    let (run, same) = guarded (runs p ps) ps qs h in rw (runs-++ p ps ls run) (ap (more ls) same)
after-++ (killed p) ps qs ls h =
    let (run, same) = guarded (runs p ps) (without p ps) qs h in
    rw (runs-++ p ps ls run, without-++ p ps ls run) (ap (more ls) same)
after-++ (reaped p) ps qs ls h =
    let (run, same) = guarded (runs p ps) (without p ps) qs h in
    rw (runs-++ p ps ls run, without-++ p ps ls run) (ap (more ls) same)
after-++ (drained p) ps qs ls h =
    let (run, same) = guarded (runs p ps) ps qs h in rw (runs-++ p ps ls run) (ap (more ls) same)
after-++ (sent c cmd) ps qs ls h = ap (more ls) h
after-++ (closed c) ps qs ls h = ap (more ls) h
after-++ (noted n) ps qs ls h = ap (more ls) h

-- The same for a list of actions.
pub after_all-++ :
    (xs : List Action) (ps qs ls : List ℕ)
    → after_all xs ps ≡ some qs
    → after_all xs (ps ++ ls) ≡ some (qs ++ ls)
unfolding after_all
after_all-++ [] ps qs ls h = ap (more ls) h
after_all-++ (a ∷ xs) ps qs ls h = elim (Option-cases (after a ps)) [
  | inl e ↦ absurd (ground (arith, e))
  | inr (ps', e) ↦
      rw (after_all, after-++ a ps ps' ls e) (after_all-++ xs ps' qs ls (ground (arith, e)))
]

pub note_quiet : (s : Supervisor) (n : Note) (ps : List ℕ) → after_all (note s n) ps ≡ some ps
unfolding note after_all after
note_quiet s n ps = elim (Bool-cases s.has_log) [ inl e ↦ rw e refl | inr e ↦ rw e refl ]

pub if_quiet :
    (b : Bool) (xs : List Action) (ps : List ℕ)
    → after_all xs ps ≡ some ps
    → after_all (if b then xs else []) ps ≡ some ps
unfolding after_all
if_quiet true xs ps h = h
if_quiet false xs ps h = refl

pub said_quiet : (s : Supervisor) (text : Text) (ps : List ℕ) → after_all (said s text) ps ≡ some ps
unfolding said after_all
said_quiet s [] ps = refl
said_quiet s (c ∷ cs) ps = note_quiet s (qemu_said (take 1500 (c ∷ cs))) ps

pub failure_notes_quiet :
    (env : StartEnv) (s : Supervisor) (p : Process) (ps : List ℕ)
    → after_all (failure_notes env s p) ps ≡ some ps
unfolding failure_notes tail_notes
failure_notes_quiet env s p ps =
    then_all _ _ ps ps ps
      (if_quiet p.has_stderr _ ps
        (said_quiet s (join_words false false (stderr_of env.stderr_text)) ps))
      (if_quiet p.has_args _ ps
        (then_all _ _ ps ps ps (note_quiet s command_line ps) (note_quiet s argv_repr ps)))

pub pump_quiet :
    (proc : Option Process) → after_all (start_stderr_pump proc).1 (owned proc) ≡ some (owned proc)
unfolding start_stderr_pump after_all after owned runs
pump_quiet none = refl
pump_quiet (some p) = ground (arith, ==_refl p.pid)

pub spawn_lem : (proc : Option Process) → after_all (spawn proc) [] ≡ some (owned proc)
unfolding after_all after owned
spawn_lem none = refl
spawn_lem (some p) = refl

pub stop_failed_ends :
    (env : StartEnv) (p : Process) → after_all (stop_failed env p) (p.pid ∷ []) ≡ some []
unfolding stop_failed after_all after runs without
stop_failed_ends env p = ground (arith, ==_refl p.pid)

pub clean_up_ends :
    (env : StartEnv) (s : Supervisor) (proc : Option Process)
    → after_all (clean_up env s proc) (owned proc) ≡ some []
unfolding clean_up owned
clean_up_ends env s none = unfold after_all in refl
clean_up_ends env s (some p) =
    then_all (stop_failed env p) (failure_notes env s p) (p.pid ∷ []) [] [] (stop_failed_ends env p)
      (failure_notes_quiet env s p [])

pub reap_ends :
    (env : StopEnv) (proc : Option Process) → after_all (reap env proc).1 (owned proc) ≡ some []
unfolding reap after_all after owned runs without
reap_ends env none = refl
reap_ends env (some p) = ground (arith, ==_refl p.pid)

pub pump_again_quiet :
    (proc : Option Process)
    → after_all (if (start_stderr_pump proc).0 then [] else (start_stderr_pump proc).1) (owned proc)
      ≡ some (owned proc)
unfolding start_stderr_pump after_all owned
pump_again_quiet none = refl
pump_again_quiet (some p) = elim (Bool-cases p.has_stderr) [ inl e ↦ rw e refl | inr e ↦ rw e refl ]
