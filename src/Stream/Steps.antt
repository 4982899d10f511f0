-- ===== src/Stream/Steps.antt =====
-- The pump's thread beside the calls of the server: every interleaving of their steps.
use uv_k5_v3_emulator.Common.{
  ℕ, ◌≤◌, ◌<◌, ◌≡◌, inl, inr, refl, ◌∙◌, arith, Bool, true, false, Option, none, some, ◌==◌, ◌&&◌,
  not, Bool-cases,
}
use uv_k5_v3_emulator.Common.Words.{Bytes}
use uv_k5_v3_emulator.Common.Text.{Text}
use uv_k5_v3_emulator.Common.Result.{Result, ok, err}
use uv_k5_v3_emulator.Stream.{
  Grabber, FramePump, Frame, Answers, rebind, set_buffers, new_grabber, grab, grab_by, grab_panel,
  Source, show, same_grabber, same_raw, with_source, panel, framebuffer, is_framebuffer,
}

-- Where the thread stands in a round: before it, with a grabber taken, or with a frame in hand.
pub data Round : Type 0 where
  idle : Round
  reading : Grabber → Round
  grabbed : Grabber → Frame → Round

pub record World : Type 0 where
  pub pump : FramePump
  pub round : Round

abbrev pub taken : Option Grabber → Round
taken none = idle
taken (some g) = reading g

-- A grab that raises ends the round.
abbrev pub landed : Grabber → Result Text Frame → Round
landed g (ok f) = grabbed g f
landed g (err e) = idle

-- The steps of the thread, each under the lock or outside of it, and the server's calls.
pub data Step (compress : Bytes → Bytes) : World → World → Type 0 where
  take_step :
      (p : FramePump)
      → Step compress
          (record { pump = p; round = idle })
          (record { pump = p; round = taken p.grabber })
  grab_step :
      (p : FramePump) (g : Grabber) (a : Answers)
      → Step compress
          (record { pump = p; round = reading g })
          (record { pump = (grab a p).1; round = landed g (grab a p).0 })
  show_step :
      (p : FramePump) (g : Grabber) (f : Frame)
      → Step compress
          (record { pump = p; round = grabbed g f })
          (record { pump = show compress g f p; round = idle })
  rebind_step :
      (client : Option ℕ) (p : FramePump) (r : Round)
      → Step compress
          (record { pump = p; round = r })
          (record { pump = rebind client p; round = r })
  set_buffers_step :
      (frame_addr status_addr : ℕ) (p : FramePump) (r : Round)
      → Step compress
          (record { pump = p; round = r })
          (record { pump = set_buffers frame_addr status_addr p; round = r })

pub data Reach (compress : Bytes → Bytes) (w : World) : World → Type 0 where
  start : Reach compress w w
  then_step : (u v : World) → Reach compress w u → Step compress u v → Reach compress w v

-- The screen is dark while the pump is bound to nothing.
abbrev pub Dark : Option Grabber → Option Bytes → Option (Bytes × Bytes) → Type 0
Dark none png raw = (png ≡ none) × (raw ≡ none)
Dark (some g) png raw = Unit

abbrev pub Older : ℕ → Option Grabber → Type 0
Older n none = Unit
Older n (some g) = g.number < n

abbrev pub OlderRound : ℕ → Round → Type 0
OlderRound n idle = Unit
OlderRound n (reading g) = g.number < n
OlderRound n (grabbed g f) = g.number < n

abbrev pub IsSound : FramePump → Round → Type 0
IsSound p r = Dark p.grabber p.png p.raw × Older p.next p.grabber × OlderRound p.next r

-- A pump that comes later: its generation has not gone down, and the same generation is the same
-- picture.
abbrev pub Later : FramePump → FramePump → Type 0
Later p q = (p.generation ≤ q.generation) × (p.generation ≡ q.generation → p.png ≡ q.png)

pub Later-trans : (p q r : FramePump) → Later p q → Later q r → Later p r
Later-trans p q r h k = (
  omega (arith, h.0, k.0),
  λ e. h.1 (omega (arith, h.0, k.0, e)) ∙ k.1 (omega (arith, h.0, k.0, e)),
)

pub show-Later :
    (compress : Bytes → Bytes) (g : Grabber) (f : Frame) (p : FramePump)
    → Later p (show compress g f p)
unfolding show
show-Later compress g f p = elim (Bool-cases (same_grabber p.grabber g && not (same_raw p.raw f))) [
  | inl e ↦ rw e (omega arith, λ same. absurd (omega arith))
  | inr e ↦ rw e (omega arith, λ same. refl)
]

-- A grab touches nothing but the source and the note.
pub grab_by-with_source :
    (a : Answers) (p : FramePump) (fallback : Bool) (r : Result Text Frame)
    → (s : Source) × (n : Option Text) × ((grab_by a p fallback r).1 ≡ with_source s n p)
unfolding grab_by
grab_by-with_source a p fallback (ok f) = (panel, none, refl)
grab_by-with_source a p true (err reason) = (framebuffer, p.note, refl)
grab_by-with_source a p false (err reason) = (framebuffer, some reason, refl)

pub grab-with_source :
    (a : Answers) (p : FramePump)
    → (s : Source) × (n : Option Text) × ((grab a p).1 ≡ with_source s n p)
unfolding grab
grab-with_source a p = grab_by-with_source a p (is_framebuffer p.source) (grab_panel a)

pub grab-Later : (a : Answers) (p : FramePump) → Later p (grab a p).1
grab-Later a p = let (s, n, e) = grab-with_source a p in rw e (omega arith, λ same. refl)

pub Step-Later : (compress : Bytes → Bytes) (u v : World) → Step compress u v → Later u.pump v.pump
Step-Later compress _ _ (take_step p) = (omega arith, λ same. refl)
Step-Later compress _ _ (grab_step p g a) = grab-Later a p
Step-Later compress _ _ (show_step p g f) = show-Later compress g f p
Step-Later compress _ _ (rebind_step client p r) =
    unfold rebind in (omega arith, λ same. absurd (omega arith))
Step-Later compress _ _ (set_buffers_step x y p r) =
    unfold set_buffers in (omega arith, λ same. refl)

-- Whatever the thread and the server do in between, a client that sees the same generation again has
-- the picture already, and the generation never goes down.
pub generation-Reach :
    (compress : Bytes → Bytes) (w v : World) → Reach compress w v → Later w.pump v.pump
generation-Reach compress w _ start = (omega arith, λ same. refl)
generation-Reach compress w _ (then_step u v before step) =
    Later-trans w.pump u.pump v.pump (generation-Reach compress w u before)
      (Step-Later compress u v step)

-- A frame of a grabber that is older than the binding is not shown.
pub show_stale :
    (compress : Bytes → Bytes) (g : Grabber) (f : Frame) (client : Option ℕ) (p : FramePump)
    → g.number < p.next
    → show compress g f (rebind client p) ≡ rebind client p
unfolding show rebind new_grabber
show_stale compress g f none p h = refl
show_stale compress g f (some c) p h =
    let other : (p.next == g.number) ≡ false = ground (arith, h) in rw other refl
