-- ===== src/Supervisor/Tests.antt =====
-- The supervisor with a process that starts, and with one whose monitor never answers.
use uv_k5_v3_emulator.Common.{ℕ, true, false, none, some, List, [], ◌∷◌, ◌++◌, ◌≡◌, refl}
use uv_k5_v3_emulator.Supervisor.{
  Supervisor, Process, StartEnv, StopEnv, gave, threw, status, returned, off, power_on, power_off,
  is_running, owns_process, Action, adopt, sent, closed, quit, let_go,
}
use uv_k5_v3_emulator.Supervisor.Account.{
  power_on_step, adopt_step, Reach, start, then_step, IsWhole, after_all, owned,
}
use uv_k5_v3_emulator.Supervisor.Trace.{after_all-Reach}
use uv_k5_v3_emulator.Supervisor.Branches.{boot, is_some, power_on_lem, power_off-power_on}

abbrev process : Process
process = record { pid = 7; has_stderr = true; has_args = true }

abbrev starts : StartEnv
starts = record {
  poll = λ p. none;
  launch = gave (some process);
  connect = gave 1;
  wait_ok = true;
  stderr_text = none;
}

abbrev mute : StartEnv
mute = record {
  poll = λ p. none;
  launch = gave (some process);
  connect = threw [];
  wait_ok = false;
  stderr_text = some (0x61 ∷ 0x0a ∷ 0x62 ∷ []);
}

abbrev stops : StopEnv
stops = record {
  quit_raises = some [];
  close_raises = none;
  wait_10 = some (status 0);
  wait_5 = none;
}

abbrev failed : Supervisor
failed = (power_on mute (off true)).1

abbrev running : Supervisor
running = (power_on starts failed).1

abbrev done : List Action
done = ([] ++ (power_on mute (off true)).2) ++ (power_on starts failed).2

abbrev adopted : Supervisor
adopted = adopt 5 running

power_on_lem_example :
    (is_running starts.poll (off true) ≡ true
      → power_on starts (off true) ≡ (returned false, off true, []))
    × (is_running starts.poll (off true) ≡ false
        → let (out, t, _) = power_on starts (off true) in
          (out, t) ≡ boot true starts.launch starts.connect)
power_on_lem_example = power_on_lem starts (off true) refl

power_off-power_on_example :
    let (out, t, acts) = power_off stops running in
    (out ≡ returned (is_some running.client))
    × (is_running starts.poll t ≡ false)
    × (owns_process t ≡ false)
    × (let (out', u, _) = power_on starts t in
        (out', u) ≡ boot running.has_log starts.launch starts.connect)
    × ((c : ℕ) → running.client ≡ some c → acts ≡ sent c quit ∷ closed c ∷ (let_go stops running).2)
power_off-power_on_example = power_off-power_on stops starts running

-- A failed power-on, one that succeeds, and an adopted emulator in place of the new one.
runs-adopted : Reach (off true) (done ++ []) (owned running.proc ++ ([] ++ ([] ++ []))) adopted
runs-adopted =
    then_step (off true) running adopted done [] ([] ++ ([] ++ [])) (owned running.proc)
      (then_step (off true) failed running ([] ++ (power_on mute (off true)).2)
        (power_on starts failed).2 ([] ++ []) []
        (then_step (off true) (off true) failed [] (power_on mute (off true)).2 [] []
          (start (off true)) (power_on_step mute (off true)))
        (power_on_step starts failed))
      (adopt_step 5 running)

after_all-Reach_example :
    IsWhole adopted
    × (after_all (done ++ []) []
        ≡ some (owned adopted.proc ++ (owned running.proc ++ ([] ++ ([] ++ [])))))
after_all-Reach_example =
    after_all-Reach true adopted (done ++ []) (owned running.proc ++ ([] ++ ([] ++ [])))
      runs-adopted
