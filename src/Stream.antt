-- ===== src/Stream.antt =====
-- tools/uvk5_stream.py: the frame pump. Every grabber is an object of its own, told apart by its
-- number; what the emulator answers to a grab is a field of the grab's environment.
pub mod Steps
pub mod Rebind
mod Tests
use uv_k5_v3_emulator.Common.{
  ℕ, zero, suc, ◌+◌, Bool, true, false, Option, none, some, List, [], ◌∷◌, ◌&&◌, ◌==◌,
  if◌then◌else◌, length, not,
}
use uv_k5_v3_emulator.Common.Slices.{slice}
use uv_k5_v3_emulator.Common.Words.{Bytes, bytes_eq}
use uv_k5_v3_emulator.Common.Text.{Text}
use uv_k5_v3_emulator.Common.Result.{Result, ok, err, ◌>>=◌}
use uv_k5_v3_emulator.Lcd.{Pixels, LcdError, unpack, panel_pixels, encode_png, status_bytes}

pub record Grabber : Type 0 where
  pub number : ℕ
  pub client : ℕ
  pub frame_addr : ℕ
  pub status_addr : ℕ

pub data Source : Type 0 where
  panel : Source
  framebuffer : Source

pub record FramePump : Type 0 where
  pub frame_addr : ℕ
  pub status_addr : ℕ
  pub scale : ℕ
  pub grabber : Option Grabber
  pub png : Option Bytes
  pub raw : Option (Bytes × Bytes)
  pub generation : ℕ
  pub source : Option Source
  pub note : Option Text
  -- The number of the next grabber.
  pub next : ℕ

unfoldable pub new_grabber : ℕ → ℕ → Option ℕ → ℕ → Option Grabber
new_grabber frame_addr status_addr none number = none
new_grabber frame_addr status_addr (some client) number = some (record {
  number = number;
  client = client;
  frame_addr = frame_addr;
  status_addr = status_addr;
})

-- `FramePump(client, frame_addr, status_addr, scale=scale)`
unfoldable pub make : Option ℕ → ℕ → ℕ → ℕ → FramePump
make client frame_addr status_addr scale = record {
  frame_addr = frame_addr;
  status_addr = status_addr;
  scale = scale;
  grabber = new_grabber frame_addr status_addr client 0;
  png = none;
  raw = none;
  generation = 0;
  source = none;
  note = none;
  next = 1;
}

-- What stays of a picture when the pump is bound to a client: nothing if it is off.
abbrev pub kept {ℓ} : {A : Type ℓ} → Option ℕ → Option A → Option A
kept none old = none
kept (some client) old = old

unfoldable pub rebind : Option ℕ → FramePump → FramePump
rebind client p = record {
  frame_addr = p.frame_addr;
  status_addr = p.status_addr;
  scale = p.scale;
  grabber = new_grabber p.frame_addr p.status_addr client p.next;
  png = kept client p.png;
  raw = kept client p.raw;
  generation = p.generation + 1;
  source = p.source;
  note = p.note;
  next = p.next + 1;
}

abbrev pub client_of : Option Grabber → Option ℕ
client_of none = none
client_of (some g) = some g.client

unfoldable pub set_buffers : ℕ → ℕ → FramePump → FramePump
set_buffers frame_addr status_addr p = record {
  frame_addr = frame_addr;
  status_addr = status_addr;
  scale = p.scale;
  grabber = new_grabber frame_addr status_addr (client_of p.grabber) p.next;
  png = p.png;
  raw = p.raw;
  generation = p.generation;
  source = p.source;
  note = p.note;
  next = p.next + 1;
}

-- What the emulator answers during one grab. `gram_again` is the second read of the panel, `memory`
-- the status line and the frame from guest RAM.
pub record Answers : Type 0 where
  pub gram : Result Text Bytes
  pub invert : Bool
  pub gram_again : Result Text Bytes
  pub memory : Result Text (Bytes × Bytes)
  -- The text of an error of the LCD code.
  pub say : LcdError → Text

pub record Frame : Type 0 where
  pub status : Bytes
  pub frame : Bytes
  pub pixels : Pixels

abbrev pub said {ℓ} : {A : Type ℓ} → (LcdError → Text) → Result LcdError A → Result Text A
said say (ok a) = ok a
said say (err e) = err (say e)

-- The panel branch of `_grab`.
unfoldable pub grab_panel : Answers → Result Text Frame
grab_panel a = do
  first ← a.gram
  pixels ← said a.say (panel_pixels first a.invert)
  gram ← a.gram_again
  ok (record {
    status = slice gram 0 status_bytes;
    frame = slice gram status_bytes (length gram);
    pixels = pixels;
  })

-- The fallback of `_grab`.
unfoldable pub grab_memory : Answers → Result Text Frame
grab_memory a = do
  bytes ← a.memory
  let (status, frame) = bytes
  pixels ← said a.say (unpack status frame)
  ok (record { status = status; frame = frame; pixels = pixels })

abbrev pub is_framebuffer : Option Source → Bool
is_framebuffer none = false
is_framebuffer (some panel) = false
is_framebuffer (some framebuffer) = true

-- The pump with another source and note.
abbrev pub with_source : Source → Option Text → FramePump → FramePump
with_source s n p = record {
  frame_addr = p.frame_addr;
  status_addr = p.status_addr;
  scale = p.scale;
  grabber = p.grabber;
  png = p.png;
  raw = p.raw;
  generation = p.generation;
  source = some s;
  note = n;
  next = p.next;
}

-- By what the panel gave, and whether the last frame came from guest RAM.
unfoldable pub grab_by :
    Answers → FramePump → Bool → Result Text Frame → Result Text Frame × FramePump × Option Text
grab_by a p fallback (ok f) = (ok f, with_source panel none p, none)
grab_by a p true (err reason) = (grab_memory a, with_source framebuffer p.note p, none)
grab_by a p false (err reason) =
    (grab_memory a, with_source framebuffer (some reason) p, some reason)

-- The frame, the pump, and the reason that `on_fallback` is called with.
unfoldable pub grab : Answers → FramePump → Result Text Frame × FramePump × Option Text
grab a p = grab_by a p (is_framebuffer p.source) (grab_panel a)

abbrev pub same_grabber : Option Grabber → Grabber → Bool
same_grabber none g = false
same_grabber (some h) g = h.number == g.number

abbrev pub same_raw : Option (Bytes × Bytes) → Frame → Bool
same_raw none f = false
same_raw (some (status, frame)) f = bytes_eq status f.status && bytes_eq frame f.frame

-- The end of a round of `_run`: the frame that `g` gave is shown.
unfoldable pub show : (Bytes → Bytes) → Grabber → Frame → FramePump → FramePump
show compress g f p =
    if same_grabber p.grabber g && not (same_raw p.raw f)
    then record {
      frame_addr = p.frame_addr;
      status_addr = p.status_addr;
      scale = p.scale;
      grabber = p.grabber;
      png = some (encode_png compress f.pixels p.scale);
      raw = some (f.status, f.frame);
      generation = p.generation + 1;
      source = p.source;
      note = p.note;
      next = p.next;
    }
    else p
