-- ===== src/Web/Firmware.antt =====
-- `api_firmware_upload`, `image_has_multiboot`, `firmware_info` and `running_firmware` of
-- tools/webui.py.
pub mod Upload
use uv_k5_v3_emulator.Common.{
  ℕ, Bool, true, false, Option, none, some, List, [], ◌∷◌, ◌++◌, ◌||◌, ◌&&◌, ltb, ◌==◌,
  if◌then◌else◌, length, not, take,
}
use uv_k5_v3_emulator.Common.Text.{Text}
use uv_k5_v3_emulator.Common.Chars.{chars, is_blank, trim, trim_left, trim_right}
use uv_k5_v3_emulator.Common.Words.{Bytes, bytes_eq}
use uv_k5_v3_emulator.Common.Result.{Result, ok, err}
use uv_k5_v3_emulator.Supervisor.{
  Supervisor, StartEnv, StopEnv, ExitCode, Call, returned, raised, power_on, power_off,
}
use uv_k5_v3_emulator.Image.{Files, ImageError, ImageInfo, detect}
use uv_k5_v3_emulator.Image.Slot.{ImageSlot, set, by_info}
use uv_k5_v3_emulator.Banner.{contains, latest, image_mentions}
use uv_k5_v3_emulator.Web.{
  Server, Exception, Effect, logged, supervised, firmware_set, restart_failed, Reply, replied,
  refused, crashed, Refusal, no_firmware_control, failed, runs,
}
use uv_k5_v3_emulator.Web.Edit.{saved_by}
use uv_k5_v3_emulator.Web.Flash.{or_else, upload_name, body_refused}

abbrev pub multiboot_markers : List Bytes
multiboot_markers = chars "F4HWN MULTIBOOT" ∷ chars "RESTORE REFUSED" ∷ chars "SLOT NOT VALID" ∷ []

unfoldable pub any_in : List Bytes → Bytes → Bool
any_in [] blob = false
any_in (m ∷ ms) blob = contains m blob || any_in ms blob

abbrev pub multiboot_in : Option Bytes → Option Bool
multiboot_in none = none
multiboot_in (some blob) = some (any_in multiboot_markers blob)

-- `none` is a file that cannot be read.
unfoldable pub image_has_multiboot : Files → Text → Option Bool
image_has_multiboot files path = multiboot_in (files path)

abbrev pub current_of : Option ImageSlot → Option ImageInfo
current_of none = none
current_of (some slot) = slot.current

unfoldable pub firmware_info : Server → Option ImageInfo
firmware_info server = current_of server.image

-- What the environment answers. `files` is the disk before the upload, and `exit_writes` what an
-- emulator that is stopped makes of the disk: it writes its flash back as it exits.
pub record UploadEnv : Type 0 where
  pub start : StartEnv
  pub stop : StopEnv
  pub poll : ℕ → Option ExitCode
  pub files : Files
  pub exit_writes : Files → Files
  -- What `open` raises, and what `write` raises with the part of the body that it leaves in the file.
  pub open_raises : Option Exception
  pub write_raises : Option (Exception × Bytes)
  -- `os.path.join(directory, name)`
  pub join : Text → Text
  pub say : ImageError → Text

abbrev pub UploadReply : Type 0
UploadReply = Reply (ImageInfo × Option Bool × Bool) × Server × Files × List Effect

unfoldable pub firmware_name : Text → Text → Text
firmware_name argument header =
    or_else (upload_name argument header (chars "firmware.bin")) (chars "firmware.bin")

unfoldable pub restart_reply :
    UploadEnv → ImageInfo → Text → Server → Files → List Effect → Call → UploadReply
restart_reply env info path server files effects (returned value, s, acts) = (
  replied (info, image_has_multiboot files path, true),
  record server { supervisor = some s },
  files,
  effects ++ supervised acts ∷ [],
)
restart_reply env info path server files effects (raised e, s, acts) = (
  refused 500 (failed e),
  record server { supervisor = some s },
  files,
  effects ++ supervised acts ∷ logged (restart_failed e) ∷ [],
)

abbrev pub with_image : Server → Files → ImageInfo → ImageSlot → Server
with_image server files info slot = record server { image = some (set files (by_info info) slot).1 }

unfoldable pub quiet_reply : ImageInfo → Text → Text → Server → Files → UploadReply
quiet_reply info name path server files = (
  replied (info, image_has_multiboot files path, false),
  server,
  files,
  logged (firmware_set name info) ∷ [],
)

-- By whether an emulator runs; the image is set between the power-off and the power-on.
unfoldable pub adopt_image :
    UploadEnv → ImageInfo → Text → Text → Server → Files → Bool → Option Supervisor → UploadReply
adopt_image env info name path server files running none = quiet_reply info name path server files
adopt_image env info name path server files false (some s) = quiet_reply info name path server files
adopt_image env info name path server files true (some s) =
    let (out, gone, acts) = power_off env.stop s in
    restart_reply env info path server (env.exit_writes files)
      (supervised acts ∷ logged (firmware_set name info) ∷ []) (power_on env.start gone)

-- The saved file is checked before the emulator is touched.
unfoldable pub upload_detected :
    UploadEnv → Text → Text → Server → ImageSlot → Files → Result ImageError ImageInfo → UploadReply
upload_detected env name path server slot files (err e) =
    (refused 400 (failed (env.say e)), server, files, [])
upload_detected env name path server slot files (ok info) =
    adopt_image env info name path (with_image server files info slot) files
      (runs env.poll server.supervisor) server.supervisor

unfoldable pub saved : UploadEnv → Text → Bytes → Option Exception × Files
saved env path data' = saved_by path data' env.files env.open_raises env.write_raises

-- An exception of the saving is not caught.
unfoldable pub upload_saved :
    UploadEnv → Text → Text → Server → ImageSlot → Option Exception × Files → UploadReply
upload_saved env name path server slot (some e, files) = (crashed e, server, files, [])
upload_saved env name path server slot (none, files) =
    upload_detected env name path server slot files (detect files path)

unfoldable pub upload_body :
    UploadEnv → Text → Bytes → Server → ImageSlot → Option (ℕ × Refusal) → UploadReply
upload_body env name data' server slot (some (code, why)) =
    (refused code why, server, env.files, [])
upload_body env name data' server slot none =
    upload_saved env name (env.join name) server slot (saved env (env.join name) data')

abbrev pub upload_to : UploadEnv → Text → Text → Bytes → Server → Option ImageSlot → UploadReply
upload_to env argument header data' server none =
    (refused 409 no_firmware_control, server, env.files, [])
upload_to env argument header data' server (some slot) =
    upload_body env (firmware_name argument header) data' server slot (body_refused data')

unfoldable pub api_firmware_upload : UploadEnv → Text → Text → Bytes → Server → UploadReply
api_firmware_upload env argument header data' server =
    upload_to env argument header data' server server.image

-- What the device reports: its banner, whether the image that was uploaded holds it, and no note if
-- it does.
abbrev pub path_of : Option ImageInfo → Option Text
path_of none = none
path_of (some info) = some info.path

abbrev pub reported : Files → Option Text → Option Text → Option (Text × Bool)
reported files path none = none
reported files path (some []) = none
reported files path (some (c ∷ cs)) = some (c ∷ cs, image_mentions files path (c ∷ cs))

-- `texts` are those of the entries of the log.
unfoldable pub running_firmware : Files → List Text → Server → Option (Text × Bool)
running_firmware files texts server = reported files (path_of (firmware_info server)) (latest texts)
