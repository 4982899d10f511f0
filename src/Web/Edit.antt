-- ===== src/Web/Edit.antt =====
-- `_edit_flash` of tools/webui.py: power off, edit a working copy of the flash image, power on again.
pub mod Copy
use uv_k5_v3_emulator.Common.{
  ℕ, zero, suc, Bool, true, false, Option, none, some, List, [], ◌∷◌, ◌++◌, if◌then◌else◌,
}
use uv_k5_v3_emulator.Common.Text.{Text}
use uv_k5_v3_emulator.Common.Words.{Bytes, bytes_eq}
use uv_k5_v3_emulator.Common.Result.{Result, ok, err}
use uv_k5_v3_emulator.Supervisor.{
  Supervisor, StartEnv, StopEnv, Outcome, returned, raised, ExitCode, Call, power_on, power_off,
  is_running,
}
use uv_k5_v3_emulator.Image.{Files}
use uv_k5_v3_emulator.Launch.{FlashSlot}
use uv_k5_v3_emulator.Web.{Server, Exception, Effect, slept, supervised, runs}

-- What the environment answers. `files` is the disk before the call, and `exit_writes` what an
-- emulator that is stopped makes of the disk: it writes its flash back as it exits. One that the
-- supervisor did not launch is not waited for, and may write later than that.
pub record EditEnv : Type 0 where
  pub start : StartEnv
  pub stop : StopEnv
  pub poll : ℕ → Option ExitCode
  pub poll_off : ℕ → Option ExitCode
  pub files : Files
  pub exit_writes : Files → Files
  -- For an upload, what `open` raises, and what `write` raises with the part of the body that it
  -- leaves in the file.
  pub open_raises : Option Exception
  pub write_raises : Option (Exception × Bytes)
  -- flash-current.img in the upload directory
  pub work : Text
  -- `os.path.abspath`
  pub abspath : Text → Text
  -- The texts of the OSError of a file that is missing, and of the RuntimeError of no flash control.
  pub missing : Text
  pub no_control : Text

-- The disk after a file is written.
unfoldable pub put_file : Text → Bytes → Files → Files
put_file path content files at = if bytes_eq at path then some content else files at

-- How the saving of an upload ends, and the disk then.
abbrev pub saved_by :
    Text → Bytes → Files → Option Exception → Option (Exception × Bytes) → Option Exception × Files
saved_by path data' files (some e) fails = (some e, files)
saved_by path data' files none (some (e, part)) = (some e, put_file path part files)
saved_by path data' files none none = (none, put_file path data' files)

abbrev pub Edited : Type 0 → Type 0
Edited A = Result Text A × Server × Files × List Effect

-- What an edit does to a file: its result, and the content that it leaves.
abbrev pub Edit : Type 0 → Type 0
Edit A = Bytes → Result Text A × Bytes

-- The wait for the process to go.
unfoldable pub wait_gone : ℕ → (ℕ → Option ExitCode) → Supervisor → List Effect
wait_gone zero poll s = []
wait_gone (suc n) poll s =
    let rest = wait_gone n poll s in if is_running poll s then slept 250 ∷ rest else []

-- The supervisor, the disk and what was done, once no emulator runs.
abbrev pub Stopped : Type 0
Stopped = Option Supervisor × Files × List Effect

-- A power-off does not raise.
abbrev pub off_call : EditEnv → Call → Stopped
off_call env (out, s, acts) =
    (some s, env.exit_writes env.files, supervised acts ∷ wait_gone 40 env.poll_off s)

unfoldable pub switched_off : EditEnv → Bool → Option Supervisor → Stopped
switched_off env false o = (o, env.files, [])
switched_off env true none = (none, env.files, [])
switched_off env true (some s) = off_call env (power_off env.stop s)

abbrev pub Restart : Type 0
Restart = Result Text (Unit {0}) × Option Supervisor × List Effect

abbrev pub on_call : Call → Restart
on_call (returned value, s, acts) = (ok tt, some s, supervised acts ∷ [])
on_call (raised e, s, acts) = (err e, some s, supervised acts ∷ [])

unfoldable pub switched_on : EditEnv → Bool → Option Supervisor → Restart
switched_on env false o = (ok tt, o, [])
switched_on env true none = (ok tt, none, [])
switched_on env true (some s) = on_call (power_on env.start s)

unfoldable pub same_path : EditEnv → Text → Bool
same_path env path = bytes_eq (env.abspath env.work) (env.abspath path)

abbrev pub copy_of : Text → Files → Option Bytes → Option Files
copy_of work files none = none
copy_of work files (some content) = some (put_file work content files)

-- The disk after the working copy is made; none if the image is missing.
unfoldable pub copied : EditEnv → Text → Files → Option Files
copied env path files =
    if same_path env path then some files else copy_of env.work files (files path)

unfoldable pub flash_path : EditEnv → Text → Text
flash_path env path = if same_path env path then path else env.work

abbrev pub saved_as : {A : Type 0} → Text → Files → Result Text A × Bytes → Result Text A × Files
saved_as work files (result, content) = (result, put_file work content files)

-- The edit of the working copy.
unfoldable pub edited :
    {A : Type 0} → EditEnv → Edit A → Files → Option Bytes → Result Text A × Files
edited env edit files none = (err env.missing, files)
edited env edit files (some content) = saved_as env.work files (edit content)

unfoldable pub restart_then : {A : Type 0} → A → Server → Files → List Effect → Restart → Edited A
restart_then a server files effects (ok u, s, more) =
    (ok a, record server { supervisor = s }, files, effects ++ more)
restart_then a server files effects (err e, s, more) =
    (err e, record server { supervisor = s }, files, effects ++ more)

unfoldable pub edit_then :
    {A : Type 0} → EditEnv → Bool → Server → List Effect → Result Text A × Files → Edited A
edit_then env running server effects (err e, files) = (err e, server, files, effects)
edit_then env running server effects (ok a, files) =
    restart_then a server files effects (switched_on env running server.supervisor)

unfoldable pub copy_then :
    {A : Type 0}
    → EditEnv
    → Edit A
    → Bool
    → Server
    → List Effect
    → Text
    → Files
    → Option Files
    → Edited A
copy_then env edit running server effects path disk none = (err env.missing, server, disk, effects)
copy_then env edit running server effects path disk (some files) =
    edit_then env running (record server { flash = some (record { path = flash_path env path }) })
      effects (edited env edit files (files env.work))

unfoldable pub edit_stopped :
    {A : Type 0} → EditEnv → Edit A → Bool → Server → Text → Stopped → Edited A
edit_stopped env edit running server path (s, files, effects) =
    copy_then env edit running (record server { supervisor = s }) effects path files
      (copied env path files)

abbrev pub edit_on : {A : Type 0} → EditEnv → Edit A → Server → Option FlashSlot → Edited A
edit_on env edit server none = (err env.no_control, server, env.files, [])
edit_on env edit server (some slot) =
    let running = runs env.poll server.supervisor in
    edit_stopped env edit running server slot.path (switched_off env running server.supervisor)

unfoldable pub edit_flash : {A : Type 0} → EditEnv → Edit A → Server → Edited A
edit_flash env edit server = edit_on env edit server server.flash
