-- ===== src/Web/Screen.antt =====
-- `ensure_buffers` of tools/webui.py: the addresses of the screen in the guest's memory.
pub mod Stable
mod Tests
use uv_k5_v3_emulator.Common.{
  ℕ, Bool, true, false, Option, none, some, List, [], ◌∷◌, ◌==◌, if◌then◌else◌, not,
}
use uv_k5_v3_emulator.Common.Text.{Text}
use uv_k5_v3_emulator.Common.Result.{Result, ok, err}
use uv_k5_v3_emulator.Image.{Files, ImageInfo}
use uv_k5_v3_emulator.Image.Slot.{ImageSlot}
use uv_k5_v3_emulator.Stream.{FramePump, set_buffers}
use uv_k5_v3_emulator.Buffers.Symbols.{TableError}
use uv_k5_v3_emulator.Buffers.Discover.{Found, How, failed, command_line, Reads, discover}
use uv_k5_v3_emulator.Web.{Server, Effect, logged, buffers_found, no_buffers, active_client}

-- What the files and the client answer; `say` is the text of an exception.
pub record ScreenEnv : Type 0 where
  pub files : Files
  pub say : TableError → Text
  pub reads : Reads

abbrev pub info_path : Option ImageInfo → Option Text
info_path none = none
info_path (some info) = some info.path

-- `image.current.path if image is not None and image.current else None`
abbrev pub image_path : Option ImageSlot → Option Text
image_path none = none
image_path (some image) = info_path image.current

-- `except Exception`
unfoldable pub discovered : Result Text Found → Found
discovered (ok found) = found
discovered (err e) = record {
  frame = none;
  status = none;
  how = failed e;
  score = some 0;
  total = some 0;
}

-- `info.get("frame")` counts as true; the status address is found with it.
abbrev pub addresses : Option ℕ → Option ℕ → Option (ℕ × ℕ)
addresses none status = none
addresses (some frame) none = none
addresses (some frame) (some status) = if not (frame == 0) then some (frame, status) else none

abbrev pub ScreenReply : Type 0
ScreenReply = Option Found × Server × List Effect

abbrev pub pointed : Found → Server → Option (ℕ × ℕ) → ScreenReply
pointed found server none =
    (some found, record server { buffers = some found }, logged (no_buffers found.how) ∷ [])
pointed found server (some (frame, status)) = (
  some found,
  record server { buffers = some found; pump = set_buffers frame status server.pump },
  logged (buffers_found found) ∷ [],
)

unfoldable pub remember : Found → Server → ScreenReply
remember found server = pointed found server (addresses found.frame found.status)

abbrev pub ask_client : ScreenEnv → Server → Option ℕ → ScreenReply
ask_client env server none = (none, server, [])
ask_client env server (some client) =
    remember
      (discovered (discover env.files env.say (image_path server.image) (some env.reads) none))
      server

abbrev pub recalled : ScreenEnv → Server → Option Found → ScreenReply
recalled env server (some found) = (some found, server, [])
recalled env server none = ask_client env server (active_client server)

-- The addresses of the command line, if both are told, are trusted.
unfoldable pub ensure_buffers : ScreenEnv → Option (ℕ × ℕ) → Server → ScreenReply
ensure_buffers env (some (frame, status)) server = (
  some (record {
    frame = some frame;
    status = some status;
    how = command_line;
    score = none;
    total = none;
  }),
  server,
  [],
)
ensure_buffers env none server = recalled env server server.buffers
