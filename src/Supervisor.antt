-- ===== src/Supervisor.antt =====
-- The class `Supervisor` of tools/uvk5_supervisor.py: it owns the QEMU process. What the process,
-- the launcher and the QMP client answer to a call is a field of the call's environment, and what
-- the supervisor does to them is a list of actions, in the order of the code.
pub mod Account
pub mod Calls
pub mod Trace
pub mod Branches
mod Tests
use uv_k5_v3_emulator.Common.{
  ℕ, zero, suc, Bool, true, false, Option, none, some, List, [], ◌∷◌, ◌++◌, ◌==◌, ◌&&◌, ◌||◌, leb,
  if◌then◌else◌, not, take,
}
use uv_k5_v3_emulator.Common.Text.{Text}
use uv_k5_v3_emulator.Common.Chars.{is_blank}

-- The text of an exception.
abbrev pub Error : Type 0
Error = Text

-- A return code of a process: an exit status, or minus the number of a signal.
pub data ExitCode : Type 0 where
  status : ℕ → ExitCode
  signal : ℕ → ExitCode

pub record Process : Type 0 where
  pub pid : ℕ
  -- Whether it has a `stderr`, and `args`.
  pub has_stderr : Bool
  pub has_args : Bool

pub data Command : Type 0 where
  quit : Command
  system_reset : Command
  stop : Command
  cont : Command

-- What goes to the log under "power".
pub data Note : Type 0 where
  exited_on_its_own : ExitCode → Note
  qemu_said : Text → Note
  command_line : Note
  argv_repr : Note
  power_on_failed : Error → Note
  started : Note
  stopped : Note
  stopped_with : ExitCode → Note
  was_reset : Note

pub data Action : Type 0 where
  spawned : ℕ → Action
  terminated : ℕ → Action
  killed : ℕ → Action
  -- `poll` or `wait` returned the exit code.
  reaped : ℕ → Action
  -- The thread that drains the stderr is started.
  drained : ℕ → Action
  sent : ℕ → Command → Action
  closed : ℕ → Action
  noted : Note → Action

-- A client is its number.
pub record Supervisor : Type 0 where
  pub has_log : Bool
  pub proc : Option Process
  pub client : Option ℕ

-- What a call returns or raises.
pub data Outcome : Type 0 where
  returned : Bool → Outcome
  raised : Error → Outcome

pub data Answer (A : Type 0) : Type 0 where
  gave : A → Answer A
  threw : Error → Answer A

-- What the environment answers during one `power_on`.
pub record StartEnv : Type 0 where
  pub poll : ℕ → Option ExitCode
  pub launch : Answer (Option Process)
  pub connect : Answer ℕ
  -- `proc.wait(timeout=5)` returned.
  pub wait_ok : Bool
  -- `proc.stderr.read(4096).decode("utf-8", "replace")`, if it does not raise.
  pub stderr_text : Option Text

-- What it answers during one `power_off`: the exceptions of `quit` and of `close`, `none` for a call
-- that returns, and the two calls of `wait`, `none` for an exception.
pub record StopEnv : Type 0 where
  pub quit_raises : Option Error
  pub close_raises : Option Error
  pub wait_10 : Option ExitCode
  pub wait_5 : Option ExitCode

abbrev pub Call : Type 0
Call = Outcome × Supervisor × List Action

unfoldable pub note : Supervisor → Note → List Action
note s n = if s.has_log then noted n ∷ [] else []

unfoldable pub has_exited : (ℕ → Option ExitCode) → Option Process → Bool
has_exited poll none = false
has_exited poll (some p) = elim (poll p.pid) [ none ↦ false | some code ↦ true ]

unfoldable pub is_running : (ℕ → Option ExitCode) → Supervisor → Bool
is_running poll s = elim s.client [ none ↦ false | some c ↦ not (has_exited poll s.proc) ]

unfoldable pub owns_process : Supervisor → Bool
owns_process s = elim s.proc [ none ↦ false | some p ↦ true ]

unfoldable pub adopt : ℕ → Supervisor → Supervisor
adopt c s = record { has_log = s.has_log; proc = none; client = some c }

abbrev pub off : Bool → Supervisor
off log = record { has_log = log; proc = none; client = none }

-- By what `poll` answers for the process.
unfoldable pub forget_polled : Supervisor → Process → Option ExitCode → Supervisor × List Action
forget_polled s p none = (s, [])
forget_polled s p (some code) = (off s.has_log, reaped p.pid ∷ note s (exited_on_its_own code))

-- The first block of `power_on`: a process that died behind the supervisor's back.
unfoldable pub forget_dead : (ℕ → Option ExitCode) → Supervisor → Supervisor × List Action
forget_dead poll s = elim s.client [
  | none ↦ (s, [])
  | some c ↦ elim s.proc [ none ↦ (s, []) | some p ↦ forget_polled s p (poll p.pid) ]
]

-- `_start_stderr_pump`: whether the drain was started.
unfoldable pub start_stderr_pump : Option Process → Bool × List Action
start_stderr_pump none = (false, [])
start_stderr_pump (some p) = if p.has_stderr then (true, drained p.pid ∷ []) else (false, [])

-- `" ".join(tail.split())`: `begun` says that a word stands before, `gap` that a blank does.
unfoldable join_words : Bool → Bool → Text → Text
unfolding is_blank
join_words begun gap [] = []
join_words begun gap (c ∷ cs) = elim (is_blank c) [
  | true ↦ join_words begun true cs
  | false ↦ (if begun && gap then 0x20 ∷ c ∷ [] else c ∷ []) ++ join_words true false cs
]

abbrev pub stderr_of : Option Text → Text
stderr_of none = []
stderr_of (some text) = text

unfoldable pub said : Supervisor → Text → List Action
said s [] = []
said s (c ∷ cs) = note s (qemu_said (take 1500 (c ∷ cs)))

unfoldable pub tail_notes : Supervisor → Option Text → List Action
unfolding join_words
tail_notes s text = said s (join_words false false (stderr_of text))

-- The process is stopped, and what it said is noted.
unfoldable pub stop_failed : StartEnv → Process → List Action
stop_failed env p = terminated p.pid ∷ (if env.wait_ok then reaped p.pid else killed p.pid) ∷ []

unfoldable pub failure_notes : StartEnv → Supervisor → Process → List Action
failure_notes env s p =
    (if p.has_stderr then tail_notes s env.stderr_text else [])
    ++ (if p.has_args then note s command_line ++ note s argv_repr else [])

-- What `power_on` does to the process if `connect` raises.
unfoldable pub clean_up : StartEnv → Supervisor → Option Process → List Action
clean_up env s none = []
clean_up env s (some p) = stop_failed env p ++ failure_notes env s p

abbrev pub spawn : Option Process → List Action
spawn none = []
spawn (some p) = spawned p.pid ∷ []

-- `power_on` once the process is launched, by what `connect` answers.
unfoldable pub connected : StartEnv → Supervisor → Option Process → Answer ℕ → Call
connected env s proc (gave c) = (
  returned true,
  record { has_log = s.has_log; proc = proc; client = some c },
  (start_stderr_pump proc).1
      ++ (note s started
          ++ (if (start_stderr_pump proc).0 then [] else (start_stderr_pump proc).1)),
)
connected env s proc (threw e) = (
  raised e,
  off s.has_log,
  (start_stderr_pump proc).1 ++ (clean_up env s proc ++ note s (power_on_failed e)),
)

-- `power_on` with no client, by what `launch` answers.
unfoldable pub launched : StartEnv → Supervisor → Answer (Option Process) → Call
launched env s (threw e) = (raised e, s, [])
launched env s (gave proc) =
    let (out, s', acts) = connected env s proc env.connect in (out, s', spawn proc ++ acts)

-- `power_on` once a dead process is forgotten.
unfoldable pub launch_new : StartEnv → Supervisor → Call
launch_new env s = elim s.client [
  | some c ↦ (returned false, s, [])
  | none ↦ launched env s env.launch
]

unfoldable pub power_on : StartEnv → Supervisor → Call
power_on env s =
    let (s', forgotten) = forget_dead env.poll s in
    let (out, s'', acts) = launch_new env s' in (out, s'', forgotten ++ acts)

-- `wait`, and what follows if it raises: the exit code if one is known.
unfoldable pub reap : StopEnv → Option Process → Option ExitCode × List Action
reap env none = (none, [])
reap env (some p) = elim env.wait_10 [
  | some code ↦ (some code, reaped p.pid ∷ [])
  | none ↦ elim env.wait_5 [
    | some code ↦ (some code, terminated p.pid ∷ reaped p.pid ∷ [])
    | none ↦ (none, terminated p.pid ∷ killed p.pid ∷ [])
  ]
]

-- The note on the exit code: `code in (None, 0)`.
unfoldable pub stop_note : Option ExitCode → Note
stop_note none = stopped
stop_note (some (status zero)) = stopped
stop_note (some (status (suc n))) = stopped_with (status (suc n))
stop_note (some (signal n)) = stopped_with (signal n)

-- A call that is made, and goes on by whether it raised.
unfoldable pub attempt : Action → Option Error → (Option Error → Call) → Call
attempt act fails rest = let (out, s, acts) = rest fails in (out, s, act ∷ acts)

-- `except Exception: pass`: what follows is the same whether the call raised or not.
unfoldable pub caught : Call → Option Error → Call
caught rest none = rest
caught rest (some e) = rest

-- `power_off` once the client is closed.
unfoldable pub let_go : StopEnv → Supervisor → Call
let_go env s =
    let (code, acts) = reap env s.proc in
    (returned true, off s.has_log, acts ++ note s (stop_note code))

unfoldable pub power_off : StopEnv → Supervisor → Call
power_off env s = elim s.client [
  | none ↦ (returned false, off s.has_log, [])
  | some c ↦
      attempt (sent c quit) env.quit_raises
        (caught (attempt (closed c) env.close_raises (caught (let_go env s))))
]

-- A command whose exception is not caught; `none` is a command that returns.
unfoldable pub command_then : Option Error → ℕ → Command → List Action → Supervisor → Call
command_then none c cmd acts s = (returned true, s, sent c cmd ∷ acts)
command_then (some e) c cmd acts s = (raised e, s, sent c cmd ∷ [])

unfoldable pub reset : StartEnv → Option Error → Supervisor → Call
reset env fails s = elim s.client [
  | none ↦ power_on env s
  | some c ↦ command_then fails c system_reset (note s was_reset) s
]

unfoldable pub pause : Option Error → Supervisor → Call
pause fails s = elim s.client [
  | none ↦ (returned false, s, [])
  | some c ↦ command_then fails c stop [] s
]

unfoldable pub resume : Option Error → Supervisor → Call
resume fails s = elim s.client [
  | none ↦ (returned false, s, [])
  | some c ↦ command_then fails c cont [] s
]
