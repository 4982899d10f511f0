-- ===== src/Web/Tests.antt =====
-- The handlers at a server whose emulator runs.
use uv_k5_v3_emulator.Common.{
  ℕ, ◌≤◌, ◌<◌, ◌≡◌, ◌≢◌, ◌⊎◌, refl, arith, true, false, none, some, [], ◌∷◌, ◌++◌, length,
  length-replicate, replicate,
}
use uv_k5_v3_emulator.Common.Text.{Text}
use uv_k5_v3_emulator.Common.Chars.{chars, trim, lower, upper}
use uv_k5_v3_emulator.Common.Signed.{pos}
use uv_k5_v3_emulator.Common.Words.{Bytes, bytes_eq}
use uv_k5_v3_emulator.Common.Result.{Result, ok, err}
use uv_k5_v3_emulator.Supervisor.{
  Supervisor, Process, StartEnv, StopEnv, gave, status, is_running, has_exited, owns_process, off,
  power_off,
}
use uv_k5_v3_emulator.Image.{Files, ImageError, ImageInfo, detect}
use uv_k5_v3_emulator.Slots.{SlotError, slot_count, read_slot}
use uv_k5_v3_emulator.Slots.Layout.{base_of}
use uv_k5_v3_emulator.Slots.Locality.{IsSound}
use uv_k5_v3_emulator.Slots.WriteRead.{committed, image_room}
use uv_k5_v3_emulator.Slots.Files.{Row}
use uv_k5_v3_emulator.Stream
use uv_k5_v3_emulator.Keys.{is_valid, normalise, in_list}
use uv_k5_v3_emulator.Web.{
  Exception, crashed, set_press, Server, Target, Refusal, replied, refused, not_started_here,
  is_off, set_property, press, failed, client_ip,
}
use uv_k5_v3_emulator.Web.Key.{KeyBody, text, falsy, number, api_key, api_release_all}
use uv_k5_v3_emulator.Web.Key
use uv_k5_v3_emulator.Web.Key.Held.{
  Keypad, answers, keypad_after, All, Tells, api_key-Tells, keypad_after-api_release_all,
}
use uv_k5_v3_emulator.Web.Power.{PowerEnv, PowerBody, fields, api_power}
use uv_k5_v3_emulator.Web.Power
use uv_k5_v3_emulator.Web.Power.Synced.{Settles, api_power-IsSynced}
use uv_k5_v3_emulator.Web.Power.Off.{IsOffWord, CarriedOut, api_power-power_off}
use uv_k5_v3_emulator.Web.Edit.{EditEnv, flash_path, same_path}
use uv_k5_v3_emulator.Web.Edit.Copy.{Ends, disk_of, source}
use uv_k5_v3_emulator.Web.Flash.{
  api_slot_write, basename, slashed, upload_name, has_slash, max_upload_bytes,
}
use uv_k5_v3_emulator.Web.Flash.SlotWrite.{api_slot_write-read_slot}
use uv_k5_v3_emulator.Web.Firmware.{UploadEnv, saved, firmware_name, api_firmware_upload}
use uv_k5_v3_emulator.Web.Firmware.Upload.{api_firmware_upload_lem}
use uv_k5_v3_emulator.Web.Firmware.Upload

-- The first hop names the client behind a proxy; a header of blanks names none.
client_behind_proxy :
    client_ip (chars " 10.0.0.7 , 127.0.0.1") (chars "127.0.0.1") ≡ chars "10.0.0.7"
unfolding client_ip trim
client_behind_proxy = refl

client_direct : client_ip (chars "  ") (chars "127.0.0.1") ≡ chars "127.0.0.1"
unfolding client_ip trim
client_direct = refl

abbrev answering : Target
answering = record { client = some 3; fails = none }

abbrev long_tap : KeyBody
long_tap = record { key = text (chars " menu"); action = falsy; hold_ms = number (pos 9000) }

api_key-Tells_example :
    let (reply, effects) = api_key answering answering (some long_tap) in
    All effects × Tells effects reply
api_key-Tells_example = api_key-Tells answering answering (some long_tap)

-- The tap of the test holds the key for the longest time that is allowed.
tap_is_bounded :
    (api_key answering answering (some long_tap)).0 ≡ replied (chars "MENU", Key.tap, 5000)
unfolding api_key Key.key_known Key.key_action Key.key_held Key.key_reply Key.press_of Key.hold_of
    Key.pressing is_valid normalise in_list trim upper lower bytes_eq set_press
tap_is_bounded = refl

abbrev keyed : Keypad
keyed = record { held = chars "F"; ptt = true }

keypad_after-api_release_all_example :
    let (reply, effects) = api_release_all answering answering in
    (reply ≡ replied tt
      → keypad_after (set_property 3 (press (chars "UP")) ∷ [] ++ effects) keyed
        ≡ record { held = []; ptt = false })
    × ((c d : ℕ)
        → answering ≡ answers (some c) none
        → answering ≡ answers (some d) none
        → reply ≡ replied tt)
    × (answering.client ≡ none → api_release_all answering answering ≡ (refused 409 is_off, []))
keypad_after-api_release_all_example =
    keypad_after-api_release_all answering answering (set_property 3 (press (chars "UP")) ∷ [])
      keyed

abbrev process : Process
process = record { pid = 7; has_stderr = true; has_args = true }

abbrev supervisor : Supervisor
supervisor = record { has_log = true; proc = some process; client = some 3 }

abbrev server : Server
server = record {
  client = none;
  supervisor = some supervisor;
  pump = Stream.make (some 3) 0 0 4;
  image = some (record { current = none });
  boot_key = some (record { name = none; hold_ms = pos 1500 });
  flash = some (record { path = chars "flash.img" });
  buffers = none;
}

abbrev starts : StartEnv
starts = record {
  poll = λ p. none;
  launch = gave (some process);
  connect = gave 4;
  wait_ok = true;
  stderr_text = none;
}

abbrev stops : StopEnv
stops = record {
  quit_raises = some [];
  close_raises = none;
  wait_10 = some (status 0);
  wait_5 = none;
}

abbrev power_env : PowerEnv
power_env = record { start = starts; stop = stops; fails = none; poll_after = λ p. none }

abbrev menu_held : PowerBody
menu_held = fields (some (chars "MENU")) (Power.number (pos 2000))

api_power-IsSynced_example : Settles server (api_power power_env menu_held (chars "ON ") server)
api_power-IsSynced_example = api_power-IsSynced power_env menu_held (chars "ON ") server

off_word : IsOffWord (chars " Off")
unfolding lower trim
off_word = refl

api_power-power_off_example :
    (owns_process supervisor ≡ false
      → api_power power_env menu_held (chars " Off") server
        ≡ (refused 409 not_started_here, server, []))
    × (owns_process supervisor ≡ true
        → CarriedOut true
            (power_off stops supervisor).2
            (api_power power_env menu_held (chars " Off") server))
api_power-power_off_example =
    api_power-power_off power_env menu_held (chars " Off") server supervisor off_word refl

abbrev image : Bytes
image = replicate 0x200000 0x00

abbrev launched : Bytes
launched = replicate 0x200000 0xff

abbrev disk : Files
disk path = some launched

-- An emulator that exits leaves another image than it was launched with.
abbrev written_back : Files → Files
written_back files path = some image

abbrev edit_env : EditEnv
edit_env = record {
  start = starts;
  stop = stops;
  poll = λ p. none;
  poll_off = λ p. none;
  files = disk;
  exit_writes = written_back;
  open_raises = none;
  write_raises = none;
  work = chars "work.img";
  abspath = λ path. path;
  missing = chars "no such file";
  no_control = chars "no flash control";
}

abbrev left : Files
left = disk_of edit_env (is_running edit_env.poll supervisor)

found : source edit_env left (chars "flash.img") ≡ some image
unfolding is_running has_exited same_path bytes_eq
found = refl

abbrev failing : Bytes → Result Text (Unit {0}) × Bytes
failing file = (err (chars "bad"), file)

abbrev say : SlotError → Text
say e = chars "slot error"

abbrev firmware : Bytes
firmware = 1 ∷ 2 ∷ 3 ∷ []

abbrev label : Text
label = chars "test"

api_slot_write-read_slot_example :
    let (reply, after, files, effects) = api_slot_write edit_env say 2 firmware label [] server in
    ((slot_count ≤ 2) ⊎ ((length firmware ≡ 0) ⊎ (max_upload_bytes < length firmware))
      → (code : ℕ) × (why : Refusal) × (api_slot_write edit_env say 2 firmware label [] server
          ≡ (refused code why, server, disk, [])))
    × (2 < slot_count
        → 0 < 3
        → 3 ≤ image_room
        → (out : Bytes) × (files (chars "work.img") ≡ some out)
          × (after.flash ≡ some (record { path = flash_path edit_env (chars "flash.img") }))
          × (read_slot out 2 ≡ ok (some (committed 2 firmware label [], firmware)))
          × ((t : ℕ)
              → t < slot_count
              → 2 ≢ t
              → IsSound image (base_of t)
              → read_slot out t ≡ read_slot image t)
          × (is_running (λ p. none) supervisor ≡ false
              → (row : Row) × (row.header ≡ some (committed 2 firmware label []))
                × (reply ≡ replied row)))
    × (2 < slot_count
        → image_room < 3
        → 3 ≤ max_upload_bytes
        → (files (chars "work.img") ≡ some image)
          × (e : Text) × (reply ≡ refused 400 (failed e))
          × (is_running (λ p. none) supervisor ≡ true → after.supervisor ≡ some (off true)))
api_slot_write-read_slot_example =
    api_slot_write-read_slot edit_env say 2 firmware label [] server supervisor
      (record { path = chars "flash.img" }) image refl refl found
      (omega (arith, length-replicate {0} {A = ℕ} 0x200000 0x00)) (omega arith) tt

abbrev upload_env : UploadEnv
upload_env = record {
  start = starts;
  stop = stops;
  poll = λ p. none;
  files = disk;
  exit_writes = written_back;
  open_raises = none;
  write_raises = none;
  join = λ name. chars "firmware/" ++ name;
  say = λ e. chars "not an image";
}

-- A full-flash image of ten bytes.
abbrev full : Bytes
full = 0x00 ∷ 0x40 ∷ 0x00 ∷ 0x20 ∷ 0x09 ∷ 0x00 ∷ 0x00 ∷ 0x08 ∷ 0x00 ∷ 0xbf ∷ []

-- A name with directories in it is cut to its last part.
escape_name : firmware_name (chars "..\\..\\evil.bin") [] ≡ chars "evil.bin"
unfolding firmware_name upload_name basename slashed has_slash
escape_name = refl

api_firmware_upload_lem_example :
    (has_slash (firmware_name (chars "../evil.bin") []) ≡ false)
    × ((e : Exception)
        → (saved upload_env (Upload.path upload_env (chars "../evil.bin") [] full server) full).0
          ≡ some e
        → let (reply, after, files, effects) =
            api_firmware_upload upload_env (chars "../evil.bin") [] full server in
          (reply ≡ crashed e) × (after ≡ server) × (effects ≡ []))
    × (Upload.with_upload upload_env
          (chars "../evil.bin")
          []
          full
          server
          (Upload.path upload_env (chars "../evil.bin") [] full server)
        ≡ some full)
    × ((at : Text)
        → at ≢ Upload.path upload_env (chars "../evil.bin") [] full server
        → Upload.with_upload upload_env (chars "../evil.bin") [] full server at ≡ disk at)
    × ((e : ImageError)
        → upload_env.open_raises ≡ none
        → upload_env.write_raises ≡ none
        → detect
            (Upload.with_upload upload_env (chars "../evil.bin") [] full server)
            (Upload.path upload_env (chars "../evil.bin") [] full server)
          ≡ err e
        → api_firmware_upload upload_env (chars "../evil.bin") [] full server ≡ (
          refused 400 (failed (chars "not an image")),
          server,
          Upload.with_upload upload_env (chars "../evil.bin") [] full server,
          [],
        ))
    × ((info : ImageInfo)
        → upload_env.open_raises ≡ none
        → upload_env.write_raises ≡ none
        → detect
            (Upload.with_upload upload_env (chars "../evil.bin") [] full server)
            (Upload.path upload_env (chars "../evil.bin") [] full server)
          ≡ ok info
        → let (reply, after, files, effects) =
            api_firmware_upload upload_env (chars "../evil.bin") [] full server in
          (files
            ≡ Upload.disk_after upload_env
                (chars "../evil.bin")
                []
                full
                server
                (is_running (λ p. none) supervisor))
          × (after.image ≡ some (record { current = some info }))
          × Upload.Ends upload_env
              (chars "../evil.bin")
              []
              full
              server
              (is_running (λ p. none) supervisor)
              supervisor
              info
              reply
              after.supervisor
          × (effects
              ≡ Upload.done upload_env
                  (chars "../evil.bin")
                  []
                  full
                  server
                  (is_running (λ p. none) supervisor)
                  supervisor
                  info))
api_firmware_upload_lem_example =
    api_firmware_upload_lem upload_env (chars "../evil.bin") [] full server supervisor
      (record { current = none }) refl refl (omega arith) (omega arith)
