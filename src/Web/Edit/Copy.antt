-- ===== src/Web/Edit/Copy.antt =====
-- What an edit of the flash image leaves: on the disk, and of the emulator.
use uv_k5_v3_emulator.Common.{
  ℕ, zero, suc, Bool, true, false, Option, some, List, [], ◌∷◌, ◌++◌, ◌≡◌, ◌≢◌, inl, inr, refl, ap,
  ◌∙◌, if◌then◌else◌, Bool-cases,
}
use uv_k5_v3_emulator.Common.Text.{Text}
use uv_k5_v3_emulator.Common.Words.{Bytes, bytes_eq, bytes_eq_refl, eq_of_bytes_eq}
use uv_k5_v3_emulator.Common.Result.{Result, ok, err}
use uv_k5_v3_emulator.Supervisor.{
  Supervisor, Outcome, returned, raised, ExitCode, Call, off, is_running, power_on, power_off,
}
use uv_k5_v3_emulator.Supervisor.Branches.{boot, power_on-off, power_off-state}
use uv_k5_v3_emulator.Image.{Files}
use uv_k5_v3_emulator.Launch.{FlashSlot}
use uv_k5_v3_emulator.Stream.{FramePump}
use uv_k5_v3_emulator.Web.{Server, Effect, supervised, runs}
use uv_k5_v3_emulator.Web.Edit.{
  EditEnv, Edited, Edit, Restart, put_file, wait_gone, on_call, switched_off, switched_on,
  same_path, copied, flash_path, edited, restart_then, edit_then, copy_then, edit_stopped, edit_on,
  edit_flash,
}

pub put_file_self :
    (path : Text) (content : Bytes) (files : Files)
    → put_file path content files path ≡ some content
unfolding put_file
put_file_self path content files = rw (bytes_eq_refl path) refl

pub put_file_ne :
    (path at : Text) (content : Bytes) (files : Files)
    → at ≢ path
    → put_file path content files at ≡ files at
unfolding put_file
put_file_ne path at content files ne = elim (Bool-cases (bytes_eq at path)) [
  | inl e ↦ absurd (ne (eq_of_bytes_eq at path e))
  | inr e ↦ rw e refl
]

-- The disk before the edit, by whether an emulator ran: it has written its flash back.
abbrev pub disk_of : EditEnv → Bool → Files
disk_of env true = env.exit_writes env.files
disk_of env false = env.files

-- What the working copy holds before the edit.
abbrev pub source : EditEnv → Files → Text → Option Bytes
source env files path = if same_path env path then files env.work else files path

-- The supervisor once the emulator is stopped, and what was done to stop it.
abbrev pub stopped : Bool → Supervisor → Option Supervisor
stopped true s = some (off s.has_log)
stopped false s = some s

abbrev pub stopping : EditEnv → Bool → Supervisor → List Effect
stopping env true s = supervised (power_off env.stop s).2 ∷ []
stopping env false s = []

-- What was done to launch an emulator again, by what the edit gave.
abbrev pub launching : {A : Type 0} → EditEnv → Bool → Supervisor → Result Text A → List Effect
launching env true s (ok a) = supervised (power_on env.start (off s.has_log)).2 ∷ []
launching env true s (err e) = []
launching env false s r = []

wait_gone-off : (n : ℕ) (poll : ℕ → Option ExitCode) (log : Bool) → wait_gone n poll (off log) ≡ []
unfolding wait_gone is_running
wait_gone-off zero poll log = refl
wait_gone-off (suc n) poll log = refl

switched_off-stopped :
    (env : EditEnv) (running : Bool) (s : Supervisor)
    → switched_off env running (some s)
      ≡ (stopped running s, disk_of env running, stopping env running s)
unfolding switched_off
switched_off-stopped env true s =
    let gone = power_off-state env.stop s.has_log s.proc s.client in
    rw (gone, wait_gone-off 40 env.poll_off s.has_log) refl
switched_off-stopped env false s = refl

module _ {A : Type 0} where
  -- The result and the supervisor after the emulator is booted again.
  abbrev pub Booted : A → Result Text A → Option Supervisor → Outcome × Supervisor → Type 0
  Booted a result sup (returned value, s) = (result ≡ ok a) × (sup ≡ some s)
  Booted a result sup (raised e, s) = (result ≡ err e) × (sup ≡ some s)

  -- The same after the whole edit, by whether an emulator ran and what the edit gave.
  abbrev pub Ends :
      EditEnv → Bool → Supervisor → Result Text A → Result Text A → Option Supervisor → Type 0
  Ends env false s edit result sup = (result ≡ edit) × (sup ≡ some s)
  Ends env true s (err e) result sup = (result ≡ err e) × (sup ≡ some (off s.has_log))
  Ends env true s (ok a) result sup =
      Booted a result sup (boot s.has_log env.start.launch env.start.connect)

  restart_then-Booted :
      (a : A) (server : Server) (files : Files) (effects : List Effect) (call : Call)
      → let (result, after, files', effects') =
          restart_then a server files effects (on_call call) in
        Booted a result after.supervisor (call.0, call.1)
  unfolding restart_then
  restart_then-Booted a server files effects (returned value, s, acts) = (refl, refl)
  restart_then-Booted a server files effects (raised e, s, acts) = (refl, refl)

  -- What stays the same of a server and of the disk.
  abbrev Keeps : Server → Files → Edited A → Type 0
  Keeps server files (result, after, files', effects) =
      (files' ≡ files) × (after.flash ≡ server.flash) × (after.pump ≡ server.pump)

  restart_then-Keeps :
      (a : A) (server : Server) (files : Files) (effects : List Effect) (r : Restart)
      → Keeps server files (restart_then a server files effects r)
  unfolding restart_then
  restart_then-Keeps a server files effects (ok u, s, more) = (refl, refl, refl)
  restart_then-Keeps a server files effects (err e, s, more) = (refl, refl, refl)

  edit_then-Keeps :
      (env : EditEnv) (running : Bool) (server : Server) (effects : List Effect) (r : Result Text A)
      (files : Files)
      → Keeps server files (edit_then env running server effects (r, files))
  unfolding edit_then
  edit_then-Keeps env running server effects (err e) files = (refl, refl, refl)
  edit_then-Keeps env running server effects (ok a) files =
      restart_then-Keeps a server files effects (switched_on env running server.supervisor)

  edit_then-Ends :
      (env : EditEnv) (running : Bool) (s : Supervisor) (server : Server) (effects : List Effect)
      (r : Result Text A) (files : Files)
      → server.supervisor ≡ stopped running s
      → let (result, after, files', effects') = edit_then env running server effects (r, files) in
        Ends env running s r result after.supervisor
  unfolding edit_then
  edit_then-Ends env true s server effects (err e) files h = (refl, h)
  edit_then-Ends env false s server effects (err e) files h = (refl, h)
  edit_then-Ends env false s server effects (ok a) files h =
      unfold restart_then switched_on in (refl, h)
  edit_then-Ends env true s server effects (ok a) files h =
      let again : switched_on env true server.supervisor
          ≡ on_call (power_on env.start (off s.has_log)) =
        unfold switched_on in ap (switched_on env true) h in
      rw (again, power_on-off env.start s.has_log)
        (restart_then-Booted a server files effects (power_on env.start (off s.has_log)))

  restart_then-effects :
      (a : A) (server : Server) (files : Files) (effects : List Effect) (call : Call)
      → let (result, after, files', effects') =
          restart_then a server files effects (on_call call) in
        effects' ≡ effects ++ (supervised call.2 ∷ [])
  unfolding restart_then
  restart_then-effects a server files effects (returned value, s, acts) = refl
  restart_then-effects a server files effects (raised e, s, acts) = refl

  -- The emulator is stopped before the edit, and launched after it.
  edit_then-effects :
      (env : EditEnv) (running : Bool) (s : Supervisor) (server : Server) (r : Result Text A)
      (files : Files)
      → server.supervisor ≡ stopped running s
      → let (result, after, files', effects) =
          edit_then env running server (stopping env running s) (r, files) in
        effects ≡ stopping env running s ++ launching env running s r
  unfolding edit_then
  edit_then-effects env true s server (err e) files h = refl
  edit_then-effects env false s server (err e) files h = refl
  edit_then-effects env false s server (ok a) files h = unfold restart_then switched_on in refl
  edit_then-effects env true s server (ok a) files h =
      let again : switched_on env true server.supervisor
          ≡ on_call (power_on env.start (off s.has_log)) =
        unfold switched_on in ap (switched_on env true) h in
      rw again (
        restart_then-effects a server files (stopping env true s)
          (power_on env.start (off s.has_log)))

  module _ (env : EditEnv) (edit : Edit A) (s : Supervisor) (content : Bytes) (pump : FramePump)
      (path : Text) where
    abbrev Meets : Bool → Edited A → Type 0
    Meets running (result, after, files, effects) =
        ((at : Text) → at ≢ env.work → files at ≡ disk_of env running at)
        × (files env.work ≡ some (edit content).1)
        × (after.flash ≡ some (record { path = flash_path env path }))
        × (after.pump ≡ pump)
        × Ends env running s (edit content).0 result after.supervisor
        × (effects ≡ stopping env running s ++ launching env running s (edit content).0)

    abbrev Copies : Files → Files → Type 0
    Copies disk files =
        ((at : Text) → at ≢ env.work → files at ≡ disk at) × (files env.work ≡ some content)

    edit_then-Meets :
        (running : Bool) (server : Server) (files : Files)
        → server.supervisor ≡ stopped running s
        → server.flash ≡ some (record { path = flash_path env path })
        → server.pump ≡ pump
        → Copies (disk_of env running) files
        → Meets running (
            edit_then env running server
              (stopping env running s)
              (edited env edit files (some content)))
    unfolding edited
    edit_then-Meets running server files h f p c =
        let effects = stopping env running s in
        let left = put_file env.work (edit content).1 files in
        let (same_files, same_flash, same_pump) =
          edit_then-Keeps env running server effects (edit content).0 left in
        (
          λ at ne. rw same_files (put_file_ne env.work at (edit content).1 files ne ∙ c.0 at ne),
          rw same_files (put_file_self env.work (edit content).1 files),
          same_flash ∙ f,
          same_pump ∙ p,
          edit_then-Ends env running s server effects (edit content).0 left h,
          edit_then-effects env running s server (edit content).0 left h,
        )

    copied-Copies :
        (disk : Files)
        → source env disk path ≡ some content
        → (files : Files) × (copied env path disk ≡ some files) × Copies disk files
    unfolding copied
    copied-Copies disk found = elim (Bool-cases (same_path env path)) [
      | inl e ↦ (disk, rw e refl, ((λ at ne. refl), (rw e at found)))
      | inr e ↦
          let there : disk path ≡ some content = rw e at found in
          (
            put_file env.work content disk,
            rw (e, there) refl,
            (
              (λ at ne. put_file_ne env.work at content disk ne),
              put_file_self env.work content disk,
            ),
          )
    ]

    edit_stopped-Meets :
        (running : Bool) (server : Server)
        → server.pump ≡ pump
        → source env (disk_of env running) path ≡ some content
        → Meets running (
            edit_stopped env edit running server path
              (stopped running s, disk_of env running, stopping env running s))
    unfolding edit_stopped copy_then
    edit_stopped-Meets running server p found =
        let (files, made, copies) = copied-Copies (disk_of env running) found in
        rw (made, copies.1)
          (edit_then-Meets running
            (record server {
              supervisor = stopped running s;
              flash = some (record { path = flash_path env path });
            })
            files refl refl p copies)

  pub edit_flash_lem :
      (env : EditEnv) (edit : Edit A) (server : Server) (s : Supervisor) (slot : FlashSlot)
      (content : Bytes)
      → server.supervisor ≡ some s
      → server.flash ≡ some slot
      → source env (disk_of env (is_running env.poll s)) slot.path ≡ some content
      → let (result, after, files, effects) = edit_flash env edit server in
        ((at : Text) → at ≢ env.work → files at ≡ disk_of env (is_running env.poll s) at)
        × (files env.work ≡ some (edit content).1)
        × (after.flash ≡ some (record { path = flash_path env slot.path }))
        × (after.pump ≡ server.pump)
        × Ends env (is_running env.poll s) s (edit content).0 result after.supervisor
        × (effects
            ≡ stopping env (is_running env.poll s) s
              ++ launching env (is_running env.poll s) s (edit content).0)
  unfolding edit_flash
  edit_flash_lem env edit server s slot content has_supervisor has_flash found =
      let running = is_running env.poll s in
      let reaches : edit_flash env edit server
          ≡ edit_stopped env edit running server slot.path (switched_off env running (some s)) =
        ap (edit_on env edit server) has_flash
        ∙ (unfold runs in
            ap
              (λ o.
                edit_stopped env edit (runs env.poll o) server slot.path
                  (switched_off env (runs env.poll o) o))
              has_supervisor) in
      rw (reaches, switched_off-stopped env running s)
        (edit_stopped-Meets env edit s content server.pump slot.path running server refl found)
