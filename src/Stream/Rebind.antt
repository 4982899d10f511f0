-- ===== src/Stream/Rebind.antt =====
-- A rebind while the thread has a frame in hand.
use uv_k5_v3_emulator.Common.{
  ℕ, ◌+◌, ◌<◌, ◌≡◌, inl, inr, refl, ap, arith, Option, none, some, ◌&&◌, not, Bool-cases,
}
use uv_k5_v3_emulator.Common.Words.{Bytes}
use uv_k5_v3_emulator.Common.Text.{Text}
use uv_k5_v3_emulator.Common.Result.{Result, ok, err}
use uv_k5_v3_emulator.Stream.{
  Grabber, FramePump, Frame, Answers, make, rebind, set_buffers, new_grabber, grab, show,
  same_grabber, same_raw,
}
use uv_k5_v3_emulator.Stream.Steps.{
  Round, World, taken, landed, Step, Reach, Dark, Older, OlderRound, IsSound, grab-with_source,
  show_stale, idle, reading, grabbed, take_step, grab_step, show_step, rebind_step,
  set_buffers_step, start, then_step,
}

landed-OlderRound :
    (n : ℕ) (g : Grabber) (r : Result Text Frame) → g.number < n → OlderRound n (landed g r)
landed-OlderRound n g (ok f) h = h
landed-OlderRound n g (err e) h = tt

OlderRound-suc : (n : ℕ) (r : Round) → OlderRound n r → OlderRound (n + 1) r
OlderRound-suc n idle h = tt
OlderRound-suc n (reading g) h = omega (arith, h)
OlderRound-suc n (grabbed g f) h = omega (arith, h)

taken-OlderRound : (n : ℕ) (o : Option Grabber) → Older n o → OlderRound n (taken o)
taken-OlderRound n none h = tt
taken-OlderRound n (some g) h = h

abbrev same_pump : FramePump → Option Grabber → FramePump
same_pump p o = record {
  frame_addr = p.frame_addr;
  status_addr = p.status_addr;
  scale = p.scale;
  grabber = o;
  png = p.png;
  raw = p.raw;
  generation = p.generation;
  source = p.source;
  note = p.note;
  next = p.next;
}

show-IsSound :
    (compress : Bytes → Bytes) (g : Grabber) (f : Frame) (p : FramePump) (o : Option Grabber)
    (r : Round)
    → Dark o p.png p.raw
    → Older p.next o
    → IsSound (show compress g f (same_pump p o)) idle
unfolding show
show-IsSound compress g f p none r h k = (h, tt, tt)
show-IsSound compress g f p (some o) r h k =
    elim (Bool-cases (same_grabber (some o) g && not (same_raw p.raw f))) [
      | inl e ↦ rw e (tt, k, tt)
      | inr e ↦ rw e (tt, k, tt)
    ]

rebind-IsSound :
    (client : Option ℕ) (p : FramePump) (r : Round)
    → OlderRound p.next r
    → IsSound (rebind client p) r
unfolding rebind new_grabber
rebind-IsSound none p r h = ((refl, refl), tt, OlderRound-suc p.next r h)
rebind-IsSound (some c) p r h = (tt, omega arith, OlderRound-suc p.next r h)

set_buffers-IsSound :
    (x y : ℕ) (p : FramePump) (o : Option Grabber) (r : Round)
    → Dark o p.png p.raw
    → OlderRound p.next r
    → IsSound (set_buffers x y (same_pump p o)) r
unfolding set_buffers new_grabber
set_buffers-IsSound x y p none r h k = (h, tt, OlderRound-suc p.next r k)
set_buffers-IsSound x y p (some g) r h k = (tt, omega arith, OlderRound-suc p.next r k)

grab-IsSound :
    (a : Answers) (p : FramePump) (g : Grabber)
    → IsSound p (reading g)
    → IsSound (grab a p).1 (landed g (grab a p).0)
grab-IsSound a p g h =
    let (s, n, e) = grab-with_source a p in
    rw e (h.0, h.1, landed-OlderRound p.next g (grab a p).0 h.2)

Step-IsSound :
    (compress : Bytes → Bytes) (u v : World)
    → Step compress u v
    → IsSound u.pump u.round
    → IsSound v.pump v.round
Step-IsSound compress _ _ (take_step p) h = (h.0, h.1, taken-OlderRound p.next p.grabber h.1)
Step-IsSound compress _ _ (grab_step p g a) h = grab-IsSound a p g h
Step-IsSound compress _ _ (show_step p g f) h =
    show-IsSound compress g f p p.grabber (grabbed g f) h.0 h.1
Step-IsSound compress _ _ (rebind_step client p r) h = rebind-IsSound client p r h.2
Step-IsSound compress _ _ (set_buffers_step x y p r) h =
    set_buffers-IsSound x y p p.grabber r h.0 h.2

Reach-IsSound :
    (compress : Bytes → Bytes) (w v : World)
    → Reach compress w v
    → IsSound w.pump w.round
    → IsSound v.pump v.round
Reach-IsSound compress w _ start h = h
Reach-IsSound compress w _ (then_step u v before step) h =
    Step-IsSound compress u v step (Reach-IsSound compress w u before h)

make-IsSound :
    (client : Option ℕ) (frame_addr status_addr scale : ℕ)
    → IsSound (make client frame_addr status_addr scale) idle
unfolding make new_grabber
make-IsSound none x y scale = ((refl, refl), tt, tt)
make-IsSound (some c) x y scale = (tt, omega arith, tt)

abbrev pub first_world : Option ℕ → ℕ → ℕ → ℕ → World
first_world client frame_addr status_addr scale = record {
  pump = make client frame_addr status_addr scale;
  round = idle;
}

-- In every interleaving from a new pump on: while the pump is bound to no client the screen is dark;
-- and a frame that the thread has in hand when a rebind comes is not shown after it, neither over
-- the dark screen nor in place of the new emulator's picture.
pub rebind-Reach :
    (compress : Bytes → Bytes) (first : Option ℕ) (frame_addr status_addr scale : ℕ) (v : World)
    → Reach compress (first_world first frame_addr status_addr scale) v
    → Dark v.pump.grabber v.pump.png v.pump.raw
      × ((client : Option ℕ) (g : Grabber) (f : Frame)
          → v.round ≡ grabbed g f
          → show compress g f (rebind client v.pump) ≡ rebind client v.pump)
rebind-Reach compress first x y scale v reach =
    let sound =
      Reach-IsSound compress (first_world first x y scale) v reach (make-IsSound first x y scale) in
    (
      sound.0,
      λ client g f at.
          show_stale compress g f client v.pump (rw⁻¹ (ap (OlderRound v.pump.next) at) sound.2),
    )
