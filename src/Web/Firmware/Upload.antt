-- ===== src/Web/Firmware/Upload.antt =====
-- What an uploaded image does to the server, the disk and the emulator.
use uv_k5_v3_emulator.Common.{
  ◌≤◌, ◌<◌, Bool, true, false, Option, none, some, List, [], ◌∷◌, ◌++◌, ◌≡◌, ◌≢◌, refl, ap, arith,
  length, ◌∙◌,
}
use uv_k5_v3_emulator.Common.Text.{Text}
use uv_k5_v3_emulator.Common.Words.{Bytes}
use uv_k5_v3_emulator.Common.Chars.{chars}
use uv_k5_v3_emulator.Common.Result.{ok, err}
use uv_k5_v3_emulator.Supervisor.{
  Supervisor, Outcome, returned, raised, Call, off, is_running, power_on, power_off,
}
use uv_k5_v3_emulator.Supervisor.Branches.{boot, power_on-off, power_off-state}
use uv_k5_v3_emulator.Image.{Files, ImageError, ImageInfo, detect}
use uv_k5_v3_emulator.Image.Slot.{ImageSlot, set}
use uv_k5_v3_emulator.Web.{
  logged, supervised, firmware_set, restart_failed, Server, Effect, Exception, Reply, replied,
  refused, crashed, failed, runs,
}
use uv_k5_v3_emulator.Web.Edit.{put_file}
use uv_k5_v3_emulator.Web.Edit.Copy.{put_file_self, put_file_ne}
use uv_k5_v3_emulator.Web.Flash.{
  or_else, has_slash, basename, upload_name, body_refused, max_upload_bytes,
}
use uv_k5_v3_emulator.Web.Firmware.{
  UploadEnv, UploadReply, firmware_name, restart_reply, quiet_reply, with_image, adopt_image,
  upload_detected, saved, upload_saved, upload_body, upload_to, api_firmware_upload,
  image_has_multiboot,
}

basename-has_slash : (cs : Text) → has_slash (basename cs) ≡ false
unfolding basename has_slash
basename-has_slash [] = refl
basename-has_slash (c ∷ cs) = ground (arith, basename-has_slash cs)

or_else-has_slash :
    (cs default : Text)
    → has_slash cs ≡ false
    → has_slash default ≡ false
    → has_slash (or_else cs default) ≡ false
or_else-has_slash [] default h k = k
or_else-has_slash (c ∷ cs) default h k = h

module _ (env : UploadEnv) (argument header : Text) (image : Bytes) (server : Server) where
  abbrev upload : UploadReply
  upload = api_firmware_upload env argument header image server

  -- The path of the upload, and the disk once it is saved.
  abbrev pub path : Text
  path = env.join (firmware_name argument header)

  abbrev pub with_upload : Files
  with_upload = put_file path image env.files

  -- The disk after an upload that is taken, by whether an emulator was stopped.
  abbrev pub disk_after : Bool → Files
  disk_after true = env.exit_writes with_upload
  disk_after false = with_upload

  -- The reply and the supervisor after the restart.
  abbrev pub Restarts :
      ImageInfo
      → Reply (ImageInfo × Option Bool × Bool)
      → Option Supervisor
      → Outcome × Supervisor
      → Type 0
  Restarts info reply sup (returned value, s) =
      (reply ≡ replied (info, image_has_multiboot (disk_after true) path, true)) × (sup ≡ some s)
  Restarts info reply sup (raised e, s) = (reply ≡ refused 500 (failed e)) × (sup ≡ some s)

  abbrev pub Ends :
      Bool
      → Supervisor
      → ImageInfo
      → Reply (ImageInfo × Option Bool × Bool)
      → Option Supervisor
      → Type 0
  Ends false s info reply sup =
      (reply ≡ replied (info, image_has_multiboot with_upload path, false)) × (sup ≡ some s)
  Ends true s info reply sup =
      Restarts info reply sup (boot s.has_log env.start.launch env.start.connect)

  abbrev failure_note : Outcome → List Effect
  failure_note (returned value) = []
  failure_note (raised e) = logged (restart_failed e) ∷ []

  -- What is done for an upload that is taken: the image is set between the stop and the launch.
  abbrev pub done : Bool → Supervisor → ImageInfo → List Effect
  done false s info = logged (firmware_set (firmware_name argument header) info) ∷ []
  done true s info =
      supervised (power_off env.stop s).2
      ∷ logged (firmware_set (firmware_name argument header) info)
      ∷ supervised (power_on env.start (off s.has_log)).2
      ∷ failure_note (power_on env.start (off s.has_log)).0

  abbrev Adopts : Bool → Supervisor → ImageInfo → Server → UploadReply → Type 0
  Adopts running s info base (reply, after, files, effects) =
      (files ≡ disk_after running)
      × (after.image ≡ base.image)
      × Ends running s info reply after.supervisor
      × (effects ≡ done running s info)

  restart_reply-Restarts :
      (info : ImageInfo) (base : Server) (effects : List Effect) (call : Call)
      → let (reply, after, files, effects') =
          restart_reply env info path base (disk_after true) effects call in
        (files ≡ disk_after true)
        × (after.image ≡ base.image)
        × Restarts info reply after.supervisor (call.0, call.1)
        × (effects' ≡ effects ++ supervised call.2 ∷ failure_note call.0)
  unfolding restart_reply
  restart_reply-Restarts info base effects (returned value, s, acts) =
      (refl, refl, (refl, refl), refl)
  restart_reply-Restarts info base effects (raised e, s, acts) = (refl, refl, (refl, refl), refl)

  quiet_reply-Adopts :
      (s : Supervisor) (info : ImageInfo) (base : Server)
      → base.supervisor ≡ some s
      → Adopts false s info base
          (quiet_reply info (firmware_name argument header) path base with_upload)
  unfolding quiet_reply
  quiet_reply-Adopts s info base h = (refl, refl, (refl, h), refl)

  adopt_image-Adopts :
      (running : Bool) (s : Supervisor) (info : ImageInfo) (base : Server)
      → base.supervisor ≡ some s
      → Adopts running s info base (
          adopt_image env info
            (firmware_name argument header)
            path
            base
            with_upload
            running
            (some s))
  unfolding adopt_image
  adopt_image-Adopts false s info base h = quiet_reply-Adopts s info base h
  adopt_image-Adopts true s info base h =
      rw (power_off-state env.stop s.has_log s.proc s.client, power_on-off env.start s.has_log)
        (restart_reply-Restarts info base _ (power_on env.start (off s.has_log)))

  body_refused-none : 0 < length image → length image ≤ max_upload_bytes → body_refused image ≡ none
  unfolding body_refused
  body_refused-none h k = ground arith

  detected-Adopts :
      (s : Supervisor) (info : ImageInfo) (slot : ImageSlot)
      → server.supervisor ≡ some s
      → Adopts (is_running env.poll s) s info (with_image server with_upload info slot) (
          upload_detected env
            (firmware_name argument header)
            path
            server
            slot
            with_upload
            (ok info))
  unfolding upload_detected
  detected-Adopts s info slot h =
      let base = with_image server with_upload info slot in
      let reaches : adopt_image env info (firmware_name argument header) path base with_upload
            (runs env.poll server.supervisor) server.supervisor
          ≡ adopt_image env info (firmware_name argument header) path base with_upload
              (is_running env.poll s) (some s) =
        unfold runs in
        ap
          (λ o.
            adopt_image env info (firmware_name argument header) path base with_upload
              (runs env.poll o) o)
          h in
      rw reaches (adopt_image-Adopts (is_running env.poll s) s info base h)

  detects :
      (slot : ImageSlot)
      → server.image ≡ some slot
      → 0 < length image
      → length image ≤ max_upload_bytes
      → upload
        ≡ upload_saved env (firmware_name argument header) path server slot (saved env path image)
  unfolding api_firmware_upload upload_body
  detects slot has_image h k =
      ap (upload_to env argument header image server) has_image ∙ rw (body_refused-none h k) refl

  crashes :
      (slot : ImageSlot) (e : Exception) (how : Option Exception × Files)
      → how.0 ≡ some e
      → let (reply, after, files, effects) =
          upload_saved env (firmware_name argument header) path server slot how in
        (reply ≡ crashed e) × (after ≡ server) × (effects ≡ [])
  unfolding upload_saved
  crashes slot e (none, files) h = absurd (ground (arith, h))
  crashes slot e (some x, files) h = (cc, refl, refl)

  saves :
      env.open_raises ≡ none → env.write_raises ≡ none → saved env path image ≡ (none, with_upload)
  unfolding saved
  saves h k = rw (h, k) refl

  -- An upload of a body that is not empty and not above the limit, on a server with an image slot and
  -- a supervisor. The file has a name without a slash. If saving it raises, the exception is not
  -- caught, and the server, with the emulator that runs, is as it was. If it is saved, its path holds
  -- the body, and no other file is changed by that. A file that is no image is then refused with 400
  -- and leaves the server as it was: the emulator that runs, and the path and kind of the image of
  -- the next boot; but where this path is that of the upload, the next boot reads the refused body.
  -- Any other becomes the image of the next boot, as it was detected; if no emulator runs, the reply
  -- is 200 and none is launched; if one runs, it is stopped first and writes what it does as it exits,
  -- then a new one is launched, and the reply is 200, or the 500 of its failure with the emulator off.
  pub api_firmware_upload_lem :
      (s : Supervisor) (slot : ImageSlot)
      → server.supervisor ≡ some s
      → server.image ≡ some slot
      → 0 < length image
      → length image ≤ max_upload_bytes
      → (has_slash (firmware_name argument header) ≡ false)
        × ((e : Exception)
            → (saved env path image).0 ≡ some e
            → let (reply, after, files, effects) = upload in
              (reply ≡ crashed e) × (after ≡ server) × (effects ≡ []))
        × (with_upload path ≡ some image)
        × ((at : Text) → at ≢ path → with_upload at ≡ env.files at)
        × ((e : ImageError)
            → env.open_raises ≡ none
            → env.write_raises ≡ none
            → detect with_upload path ≡ err e
            → upload ≡ (refused 400 (failed (env.say e)), server, with_upload, []))
        × ((info : ImageInfo)
            → env.open_raises ≡ none
            → env.write_raises ≡ none
            → detect with_upload path ≡ ok info
            → let (reply, after, files, effects) = upload in
              (files ≡ disk_after (is_running env.poll s))
              × (after.image ≡ some (record { current = some info }))
              × Ends (is_running env.poll s) s info reply after.supervisor
              × (effects ≡ done (is_running env.poll s) s info))
  unfolding firmware_name upload_name
  api_firmware_upload_lem s slot has_supervisor has_image not_empty allowed = (
    or_else-has_slash _ (chars "firmware.bin") (basename-has_slash _) (unfold has_slash in refl),
    λ e h. rw (detects slot has_image not_empty allowed) (crashes slot e (saved env path image) h),
    put_file_self path image env.files,
    λ at ne. put_file_ne path at image env.files ne,
    λ e opened written bad.
        rw (detects slot has_image not_empty allowed, saves opened written)
          (unfold upload_saved in rw bad (unfold upload_detected in refl)),
    λ info opened written good.
        rw (detects slot has_image not_empty allowed, saves opened written)
          (unfold upload_saved in
            rw good (unfold set in detected-Adopts s info slot has_supervisor)),
  )
