-- ===== src/Web/Flash.antt =====
-- The handlers of tools/webui.py for the flash image: `api_slots`, `api_slot_write`, `api_slot_erase`,
-- `api_apps`, `api_app_install`, `api_app_erase` and `api_flash_upload`.
pub mod SlotWrite
use uv_k5_v3_emulator.Common.{
  ℕ, ◌*◌, Bool, true, false, Option, none, some, List, [], ◌∷◌, ◌++◌, ◌||◌, ltb, ◌==◌,
  if◌then◌else◌, length, not,
}
use uv_k5_v3_emulator.Common.Text.{Text}
use uv_k5_v3_emulator.Common.Chars.{chars, lower}
use uv_k5_v3_emulator.Common.Words.{Bytes, bytes_eq}
use uv_k5_v3_emulator.Common.Result.{Result, ok, err}
use uv_k5_v3_emulator.Supervisor.{Supervisor, Call, power_off}
use uv_k5_v3_emulator.Image.{Files}
use uv_k5_v3_emulator.Launch.{FlashSlot}
use uv_k5_v3_emulator.Slots.{SlotError, Header}
use uv_k5_v3_emulator.Slots
use uv_k5_v3_emulator.Slots.Files.{Row, write_slot_file, erase_slot_file, slots_json}
use uv_k5_v3_emulator.Apps.Header.{AppError, Info}
use uv_k5_v3_emulator.Apps.Image
use uv_k5_v3_emulator.Apps.Image.{install_file, erase_file}
use uv_k5_v3_emulator.Apps.Image.Table.{apps_json}
use uv_k5_v3_emulator.Apps.Image.Table
use uv_k5_v3_emulator.Web.{
  Server, Exception, Effect, logged, supervised, slot_write_failed, slot_erase_failed, slot_written,
  slot_erased, app_refused, app_erase_failed, app_written, app_erased, flash_set, Reply, replied,
  refused, crashed, Refusal, no_flash_control, out_of_range, no_body, too_large, failed, runs,
}
use uv_k5_v3_emulator.Web.Edit.{
  EditEnv, Edited, Edit, Restart, Stopped, edit_flash, saved_by, switched_on,
}

abbrev pub FlashReply : Type 0 → Type 0
FlashReply A = Reply A × Server × Files × List Effect

abbrev pub max_upload_bytes : ℕ
max_upload_bytes = 4 * 1024 * 1024

-- `name.replace("\\", "/")`
unfoldable pub slashed : Text → Text
slashed [] = []
slashed (c ∷ cs) = (if c == 0x5c then 0x2f else c) ∷ slashed cs

unfoldable pub has_slash : Text → Bool
has_slash [] = false
has_slash (c ∷ cs) = c == 0x2f || has_slash cs

-- `os.path.basename`: what stands behind the last slash.
unfoldable pub basename : Text → Text
basename [] = []
basename (c ∷ cs) =
    let rest = basename cs in if has_slash cs then rest else if c == 0x2f then rest else c ∷ rest

abbrev pub or_else : Text → Text → Text
or_else [] default = default
or_else (c ∷ cs) default = c ∷ cs

-- The name of an upload: the argument `name`, the header X-Filename or the default.
unfoldable pub upload_name : Text → Text → Text → Text
upload_name argument header default = basename (slashed (or_else argument (or_else header default)))

-- `force in ("1", "true", "yes")`
unfoldable pub force_of : Text → Bool
force_of argument =
    bytes_eq (lower argument) (chars "1")
    || bytes_eq (lower argument) (chars "true")
    || bytes_eq (lower argument) (chars "yes")

-- The refusal of a body with its status.
unfoldable pub body_refused : Bytes → Option (ℕ × Refusal)
body_refused data' =
    if length data' == 0
    then some (400, no_body)
    else if ltb max_upload_bytes (length data')
    then some (413, too_large (length data'))
    else none

abbrev pub mapped : {E A : Type 0} → (E → Text) → Result E A × Bytes → Result Text A × Bytes
mapped say (ok a, content) = (ok a, content)
mapped say (err e, content) = (err (say e), content)

abbrev pub unchanged : {A : Type 0} → EditEnv → Server → ℕ → Refusal → FlashReply A
unchanged env server code why = (refused code why, server, env.files, [])

abbrev pub row_crc_ok : Option Header → Bool
row_crc_ok none = false
row_crc_ok (some h) = h.crc_ok

unfoldable pub slot_write_reply : ℕ → Text → ℕ → Edited Row → FlashReply Row
slot_write_reply slot name size (err e, server, files, effects) =
    (refused 400 (failed e), server, files, effects ++ logged (slot_write_failed slot e) ∷ [])
slot_write_reply slot name size (ok row, server, files, effects) = (
  replied row,
  server,
  files,
  effects ++ logged (slot_written slot name size (row_crc_ok row.header)) ∷ [],
)

abbrev pub slot_write_checked :
    EditEnv
    → (SlotError → Text)
    → ℕ
    → Bytes
    → Text
    → Text
    → Server
    → Option (ℕ × Refusal)
    → FlashReply Row
slot_write_checked env say slot data' name version server (some (code, why)) =
    unchanged env server code why
slot_write_checked env say slot data' name version server none =
    slot_write_reply slot name (length data') (
      edit_flash env (λ file. mapped say (write_slot_file file slot data' name version true))
        server)

unfoldable pub api_slot_write :
    EditEnv → (SlotError → Text) → ℕ → Bytes → Text → Text → Server → FlashReply Row
api_slot_write env say slot data' name version server =
    if not (ltb slot Slots.slot_count)
    then unchanged env server 400 (out_of_range slot)
    else slot_write_checked env say slot data' name version server (body_refused data')

unfoldable pub slot_erase_reply : ℕ → Edited Row → FlashReply Row
slot_erase_reply slot (err e, server, files, effects) =
    (refused 400 (failed e), server, files, effects ++ logged (slot_erase_failed slot e) ∷ [])
slot_erase_reply slot (ok row, server, files, effects) =
    (replied row, server, files, effects ++ logged (slot_erased slot) ∷ [])

unfoldable pub api_slot_erase : EditEnv → (SlotError → Text) → ℕ → Server → FlashReply Row
api_slot_erase env say slot server =
    if not (ltb slot Slots.slot_count)
    then unchanged env server 400 (out_of_range slot)
    else slot_erase_reply slot
        (edit_flash env (λ file. mapped say (erase_slot_file file slot)) server)

abbrev pub raised_as : Text → Exception
raised_as text = record { is_lookup = false; text = text }

-- What a table function gives for the file at a path.
abbrev pub table_of : {E A : Type 0} → EditEnv → (E → Text) → Result E A → Result Text A
table_of env say (ok a) = ok a
table_of env say (err e) = err (say e)

abbrev pub read_table :
    {E A : Type 0} → EditEnv → (E → Text) → (Bytes → Result E A) → Option Bytes → Result Text A
read_table env say table none = err env.missing
read_table env say table (some content) = table_of env say (table content)

abbrev pub table_at :
    {E A : Type 0}
    → EditEnv
    → (E → Text)
    → (Bytes → Result E A)
    → Files
    → Option FlashSlot
    → Result Text A
table_at env say table files none = err env.missing
table_at env say table files (some slot) = read_table env say table (files slot.path)

-- A table that is asked for after the edit; its exception is not caught.
abbrev pub with_table :
    {A B : Type 0} → A → Server → Files → List Effect → Result Text B → FlashReply (A × B)
with_table a server files effects (ok b) = (replied (a, b), server, files, effects)
with_table a server files effects (err e) = (crashed (raised_as e), server, files, effects)

abbrev pub Apps : Type 0
Apps = List Table.Row

unfoldable pub app_install_reply :
    EditEnv → (AppError → Text) → ℕ → Edited Info → FlashReply (Info × Apps)
app_install_reply env say slot (err e, server, files, effects) =
    (refused 400 (failed e), server, files, effects ++ logged (app_refused slot e) ∷ [])
app_install_reply env say slot (ok info, server, files, effects) =
    with_table info server files
      (effects ++ logged (app_written slot info.name info.version info.code_size) ∷ [])
      (table_at env say apps_json files server.flash)

abbrev pub app_install_checked :
    EditEnv
    → (AppError → Text)
    → ℕ
    → Bytes
    → Text
    → Server
    → Option (ℕ × Refusal)
    → FlashReply (Info × Apps)
app_install_checked env say slot data' force server (some (code, why)) =
    unchanged env server code why
app_install_checked env say slot data' force server none =
    app_install_reply env say slot
      (edit_flash env (λ file. mapped say (install_file file slot data' (force_of force))) server)

unfoldable pub api_app_install :
    EditEnv → (AppError → Text) → ℕ → Bytes → Text → Server → FlashReply (Info × Apps)
api_app_install env say slot data' force server =
    if not (ltb slot Image.slot_count)
    then unchanged env server 400 (out_of_range slot)
    else app_install_checked env say slot data' force server (body_refused data')

unfoldable pub app_erase_reply : EditEnv → (AppError → Text) → ℕ → Edited ℕ → FlashReply (ℕ × Apps)
app_erase_reply env say slot (err e, server, files, effects) =
    (refused 400 (failed e), server, files, effects ++ logged (app_erase_failed slot e) ∷ [])
app_erase_reply env say slot (ok base, server, files, effects) =
    with_table base server files (effects ++ logged (app_erased slot) ∷ [])
      (table_at env say apps_json files server.flash)

unfoldable pub api_app_erase : EditEnv → (AppError → Text) → ℕ → Server → FlashReply (ℕ × Apps)
api_app_erase env say slot server =
    if not (ltb slot Image.slot_count)
    then unchanged env server 400 (out_of_range slot)
    else app_erase_reply env say slot
        (edit_flash env (λ file. mapped say (erase_file file slot)) server)

-- A table of the image that the emulator uses.
abbrev pub table_reply : {A : Type 0} → Result Text A → Reply A
table_reply (ok a) = replied a
table_reply (err e) = refused 500 (failed e)

abbrev pub table_handler :
    {E A : Type 0} → EditEnv → (E → Text) → (Bytes → Result E A) → Option FlashSlot → Reply A
table_handler env say table none = refused 409 no_flash_control
table_handler env say table (some slot) = table_reply (table_at env say table env.files (some slot))

unfoldable pub api_slots : EditEnv → (SlotError → Text) → Server → Reply (List Row)
api_slots env say server = table_handler env say slots_json server.flash

unfoldable pub api_apps : EditEnv → (AppError → Text) → Server → Reply Apps
api_apps env say server = table_handler env say apps_json server.flash

-- The power-off of `api_flash_upload`, which does not wait any further.
abbrev pub stopped_call : EditEnv → Call → Stopped
stopped_call env (out, s, acts) = (some s, env.exit_writes env.files, supervised acts ∷ [])

unfoldable pub stopped : EditEnv → Bool → Option Supervisor → Stopped
stopped env false o = (o, env.files, [])
stopped env true none = (none, env.files, [])
stopped env true (some s) = stopped_call env (power_off env.stop s)

abbrev pub upload_reply :
    EditEnv
    → (SlotError → Text)
    → Server
    → Files
    → List Effect
    → Restart
    → FlashReply (Unit {0} × List Row)
upload_reply env say server files effects (ok u, s, more) =
    with_table tt (record server { supervisor = s }) files (effects ++ more)
      (table_at env say slots_json files server.flash)
upload_reply env say server files effects (err e, s, more) =
    (crashed (raised_as e), record server { supervisor = s }, files, effects ++ more)

-- By how the saving ended. An exception is not caught: the emulator stays off.
abbrev pub flash_saved :
    EditEnv
    → (SlotError → Text)
    → Bool
    → Text
    → Text
    → ℕ
    → Server
    → List Effect
    → Option Exception × Files
    → FlashReply (Unit {0} × List Row)
flash_saved env say running path name size server effects (some e, files) =
    (crashed e, server, files, effects)
flash_saved env say running path name size server effects (none, files) =
    upload_reply env say (record server { flash = some (record { path = path }) }) files
      (effects ++ logged (flash_set name size) ∷ []) (switched_on env running server.supervisor)

abbrev pub upload_stopped :
    EditEnv
    → (SlotError → Text)
    → Bool
    → Text
    → Text
    → Bytes
    → Server
    → Stopped
    → FlashReply (Unit {0} × List Row)
upload_stopped env say running path name data' server (s, files, effects) =
    flash_saved env say running path name (length data') (record server { supervisor = s }) effects
      (saved_by path data' files env.open_raises env.write_raises)

abbrev pub upload_checked :
    EditEnv
    → (SlotError → Text)
    → (Text → Text)
    → Text
    → Bytes
    → Server
    → Option (ℕ × Refusal)
    → FlashReply (Unit {0} × List Row)
upload_checked env say join name data' server (some (code, why)) = unchanged env server code why
upload_checked env say join name data' server none =
    let running = runs env.poll server.supervisor in
    upload_stopped env say running (join name) name data' server
      (stopped env running server.supervisor)

abbrev pub upload_on :
    EditEnv
    → (SlotError → Text)
    → (Text → Text)
    → Text
    → Bytes
    → Server
    → Option FlashSlot
    → FlashReply (Unit {0} × List Row)
upload_on env say join name data' server none = unchanged env server 409 no_flash_control
upload_on env say join name data' server (some slot) =
    upload_checked env say join name data' server (body_refused data')

-- `join` is `os.path.join(directory, name)`.
unfoldable pub api_flash_upload :
    EditEnv
    → (SlotError → Text)
    → (Text → Text)
    → Text
    → Bytes
    → Server
    → FlashReply (Unit {0} × List Row)
api_flash_upload env say join name data' server =
    upload_on env say join name data' server server.flash
