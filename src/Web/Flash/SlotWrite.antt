-- ===== src/Web/Flash/SlotWrite.antt =====
-- A slot that is written over HTTP, down to the flash image that the next boot reads.
use uv_k5_v3_emulator.Common.{
  ℕ, ◌≤◌, ◌<◌, Bool, true, false, Option, none, some, [], ◌≡◌, ◌≢◌, ◌⊎◌, inl, inr, refl, ap, arith,
  ltb, length, ◌∙◌, Bool-cases,
}
use uv_k5_v3_emulator.Common.Text.{Text, IsPlain}
use uv_k5_v3_emulator.Common.Words.{Bytes}
use uv_k5_v3_emulator.Common.Result.{Result, ok, err}
use uv_k5_v3_emulator.Supervisor.{Supervisor, is_running, off}
use uv_k5_v3_emulator.Launch.{FlashSlot}
use uv_k5_v3_emulator.Slots.{SlotError, slot_count, read_slot}
use uv_k5_v3_emulator.Slots.Layout.{base_of}
use uv_k5_v3_emulator.Slots.Locality.{IsSound}
use uv_k5_v3_emulator.Slots.WriteRead.{committed, image_room}
use uv_k5_v3_emulator.Slots.Erase.{HoldsState}
use uv_k5_v3_emulator.Slots.Files.{
  Row, write_slot_file, write_slot_file_refused, write_slot_file_lem,
}
use uv_k5_v3_emulator.Web.{
  Server, replied, refused, Refusal, out_of_range, no_body, too_large, failed,
}
use uv_k5_v3_emulator.Web.Edit.{EditEnv, Edited, edit_flash, flash_path}
use uv_k5_v3_emulator.Web.Edit.Copy.{disk_of, source, Ends, edit_flash_lem}
use uv_k5_v3_emulator.Web.Flash.{
  FlashReply, api_slot_write, slot_write_reply, body_refused, mapped, max_upload_bytes,
}

module _ (env : EditEnv) (say : SlotError → Text) (slot : ℕ) (image : Bytes) (name version : Text)
    (server : Server) where
  abbrev write : FlashReply Row
  write = api_slot_write env say slot image name version server

  body_refused-none : 0 < length image → length image ≤ max_upload_bytes → body_refused image ≡ none
  unfolding body_refused
  body_refused-none h k = ground arith

  abbrev editing : Edited Row
  editing =
      edit_flash env (λ file. mapped say (write_slot_file file slot image name version true)) server

  reaches :
      slot < slot_count
      → 0 < length image
      → length image ≤ max_upload_bytes
      → write ≡ slot_write_reply slot name (length image) editing
  unfolding api_slot_write
  reaches valid h k = rw (body_refused-none h k) (ground arith)

  -- A reply keeps the server and the disk of the edit.
  slot_write_reply-keeps :
      (e : Edited Row)
      → let (reply, after, files, effects) = slot_write_reply slot name (length image) e in
        (after ≡ e.1) × (files ≡ e.2)
  unfolding slot_write_reply
  slot_write_reply-keeps (err e, server', files, effects) = (refl, refl)
  slot_write_reply-keeps (ok row, server', files, effects) = (refl, refl)

  reply_ok :
      (e : Edited Row) (row : Row)
      → e.0 ≡ ok row
      → (slot_write_reply slot name (length image) e).0 ≡ replied row
  unfolding slot_write_reply
  reply_ok (err x, server', files, effects) row h = cc
  reply_ok (ok r, server', files, effects) row h = cc

  reply_err :
      (e : Edited Row) (x : Text)
      → e.0 ≡ err x
      → (slot_write_reply slot name (length image) e).0 ≡ refused 400 (failed x)
  unfolding slot_write_reply
  reply_err (err y, server', files, effects) x h = cc
  reply_err (ok r, server', files, effects) x h = cc

  guards :
      (slot_count ≤ slot) ⊎ ((length image ≡ 0) ⊎ (max_upload_bytes < length image))
      → (code : ℕ) × (why : Refusal) × (write ≡ (refused code why, server, env.files, []))
  unfolding api_slot_write
  guards (inl far) = (400, out_of_range slot, ground arith)
  guards (inr bad) = elim (Bool-cases (ltb slot slot_count)) [
    | inr e ↦ (400, out_of_range slot, rw e refl)
    | inl e ↦ elim bad [
      | inl empty ↦
          let f : body_refused image ≡ some (400, no_body) = unfold body_refused in ground arith in
          (400, no_body, rw (e, f) refl)
      | inr large ↦
          let f : body_refused image ≡ some (413, too_large (length image)) =
            unfold body_refused in ground arith in
          (413, too_large (length image), rw (e, f) refl)
    ]
  ]

mapped_content :
    (say : SlotError → Text) (e : Result SlotError Row × Bytes) → (mapped say e).1 ≡ e.1
mapped_content say (ok row, content) = refl
mapped_content say (err x, content) = refl

mapped_ok :
    (say : SlotError → Text) (e : Result SlotError Row × Bytes) (row : Row)
    → e.0 ≡ ok row
    → (mapped say e).0 ≡ ok row
mapped_ok say (ok r, content) row h = cc
mapped_ok say (err x, content) row h = cc

mapped_err :
    (say : SlotError → Text) (e : Result SlotError Row × Bytes) (x : SlotError)
    → e.0 ≡ err x
    → (mapped say e).0 ≡ err (say x)
mapped_err say (ok r, content) x h = cc
mapped_err say (err y, content) x h = let same : y ≡ x = cc in rw same refl

module _ (env : EditEnv) (s : Supervisor) where
  Ends-quiet :
      (running : Bool) (r result : Result Text Row) (sup : Option Supervisor)
      → running ≡ false
      → Ends env running s r result sup
      → result ≡ r
  Ends-quiet true r result sup quiet ends = cc
  Ends-quiet false r result sup quiet ends = ends.0

  Ends-failed :
      (running : Bool) (r result : Result Text Row) (sup : Option Supervisor) (x : Text)
      → r ≡ err x
      → Ends env running s r result sup
      → (result ≡ err x) × (running ≡ true → sup ≡ some (off s.has_log))
  Ends-failed false r result sup x bad ends = (ends.0 ∙ bad, λ t. cc)
  Ends-failed true (err y) result sup x bad ends = (ends.0 ∙ bad, λ t. ends.1)
  Ends-failed true (ok row) result sup x bad ends = cc

module _ (env : EditEnv) (say : SlotError → Text) (slot : ℕ) (image : Bytes) (name version : Text)
    (server : Server) (s : Supervisor) (flash : FlashSlot) (content : Bytes)
    (has_supervisor : server.supervisor ≡ some s) (has_flash : server.flash ≡ some flash)
    (found : source env (disk_of env (is_running env.poll s)) flash.path ≡ some content)
    (valid : slot < slot_count) (not_empty : 0 < length image)
    (allowed : length image ≤ max_upload_bytes) where
  abbrev wrote : Result SlotError Row × Bytes
  wrote = write_slot_file content slot image name version true

  abbrev Left : FlashReply Row → Type 0
  Left (reply, after, files, effects) =
      (files env.work ≡ some wrote.1)
      × (after.flash ≡ some (record { path = flash_path env flash.path }))
      × ((row : Row) → wrote.0 ≡ ok row → is_running env.poll s ≡ false → reply ≡ replied row)
      × ((x : SlotError)
          → wrote.0 ≡ err x
          → (reply ≡ refused 400 (failed (say x)))
            × (is_running env.poll s ≡ true → after.supervisor ≡ some (off s.has_log)))

  left : Left (api_slot_write env say slot image name version server)
  left =
      let e = editing env say slot image name version server in
      let (disk, here, path, pump, ends, effects) =
        edit_flash_lem env (λ file. mapped say (write_slot_file file slot image name version true))
          server s flash content has_supervisor has_flash found in
      let (same_server, same_files) =
        slot_write_reply-keeps env say slot image name version server e in
      rw (reaches env say slot image name version server valid not_empty allowed) (
        rw (same_files, here) (ap (λ c. some c) (mapped_content say wrote)),
        ap (λ t. t.flash) same_server ∙ path,
        λ row good quiet. reply_ok env say slot image name version server e row (
            Ends-quiet env s (is_running env.poll s) _ e.0 e.1.supervisor quiet ends
            ∙ mapped_ok say wrote row good),
        λ x bad.
            let (result, gone) =
              Ends-failed env s (is_running env.poll s) (mapped say wrote).0 e.0 e.1.supervisor
                (say x) (mapped_err say wrote x bad) ends in
            (
              reply_err env say slot image name version server e (say x) result,
              λ running. ap (λ t. t.supervisor) same_server ∙ gone running,
            ),
      )

-- A request that writes `image` into the slot, on a server with a supervisor and a flash image that
-- is long enough to hold all slots and the state sectors behind them, and has this content once an
-- emulator that runs is stopped; the name and the version are plain ASCII text. A slot out of range, an empty body and one above the limit are refused, and nothing
-- changes: neither the server nor a file. An image that fits is in the slot of the flash image that
-- the next boot reads, whole and with a CRC that checks, every other sound slot of it reads as before,
-- and with no emulator running the reply is the row of the slot. An image too large for the slot, but
-- below the limit, changes no byte of the image's content and is refused with 400; but an emulator that
-- ran has then been stopped and stays off.
pub api_slot_write-read_slot :
    (env : EditEnv) (say : SlotError → Text) (slot : ℕ) (image : Bytes) (name version : Text)
    (server : Server) (s : Supervisor) (flash : FlashSlot) (content : Bytes)
    → server.supervisor ≡ some s
    → server.flash ≡ some flash
    → source env (disk_of env (is_running env.poll s)) flash.path ≡ some content
    → HoldsState content
    → IsPlain name
    → IsPlain version
    → let (reply, after, files, effects) = api_slot_write env say slot image name version server in
      ((slot_count ≤ slot) ⊎ ((length image ≡ 0) ⊎ (max_upload_bytes < length image))
        → (code : ℕ) × (why : Refusal) × (api_slot_write env say slot image name version server
            ≡ (refused code why, server, env.files, [])))
      × (slot < slot_count
          → 0 < length image
          → length image ≤ image_room
          → (out : Bytes) × (files env.work ≡ some out)
            × (after.flash ≡ some (record { path = flash_path env flash.path }))
            × (read_slot out slot ≡ ok (some (committed slot image name version, image)))
            × ((t : ℕ)
                → t < slot_count
                → slot ≢ t
                → IsSound content (base_of t)
                → read_slot out t ≡ read_slot content t)
            × (is_running env.poll s ≡ false
                → (row : Row) × (row.header ≡ some (committed slot image name version))
                  × (reply ≡ replied row)))
      × (slot < slot_count
          → image_room < length image
          → length image ≤ max_upload_bytes
          → (files env.work ≡ some content)
            × (e : Text) × (reply ≡ refused 400 (failed e))
            × (is_running env.poll s ≡ true → after.supervisor ≡ some (off s.has_log)))
api_slot_write-read_slot env say slot image name version server s flash content has_supervisor
      has_flash found held plain plain' =
    (
      guards env say slot image name version server,
      λ valid not_empty room.
          let (disk, path, good, bad) =
            left env say slot image name version server s flash content has_supervisor has_flash
              found valid not_empty (omega arith) in
          let (row, read, long, others) =
            write_slot_file_lem content slot image name version true held valid room plain plain' in
          (_, disk, path, read, others, λ quiet. (_, refl, good _ row quiet)),
      λ valid large allowed.
          let (disk, path, good, bad) =
            left env say slot image name version server s flash content has_supervisor has_flash
              found valid (omega arith) allowed in
          let (x, refusal) =
            write_slot_file_refused content slot image name version true (inr large) in
          (
            disk ∙ ap (λ r. some r.1) refusal,
            say x,
            (bad x (ap (λ r. r.0) refusal)).0,
            (bad x (ap (λ r. r.0) refusal)).1,
          ),
    )
