-- ===== src/Stream/Tests.antt =====
-- A pump that takes its grabber and reads a blank panel while the emulator goes away.
use uv_k5_v3_emulator.Common.{ℕ, ◌≡◌, Option, none, some, [], false, replicate}
use uv_k5_v3_emulator.Common.Words.{Bytes}
use uv_k5_v3_emulator.Common.Result.{ok, err}
use uv_k5_v3_emulator.Stream.{
  Grabber, FramePump, Frame, Answers, make, new_grabber, rebind, grab, show,
}
use uv_k5_v3_emulator.Stream.Steps.{
  World, reading, grabbed, Step, take_step, grab_step, rebind_step, Reach, start, then_step, Later,
  Dark, generation-Reach, landed,
}
use uv_k5_v3_emulator.Stream.Rebind.{first_world, rebind-Reach}

abbrev compress : Bytes → Bytes
compress bs = bs

abbrev grabber : Grabber
grabber = record { number = 0; client = 1; frame_addr = 2; status_addr = 3 }

abbrev answers : Answers
answers = record {
  gram = ok (replicate 1024 0);
  invert = false;
  gram_again = ok (replicate 1024 0);
  memory = err [];
  say = λ e. [];
}

abbrev before : World
before = first_world (some 1) 2 3 4

abbrev pump : FramePump
pump = make (some 1) 2 3 4

abbrev read : World
read = record { pump = pump; round = reading grabber }

abbrev landed_world : World
landed_world = record { pump = (grab answers pump).1; round = landed grabber (grab answers pump).0 }

abbrev after : World
after = record { pump = rebind none landed_world.pump; round = landed_world.round }

first_round : Step compress before read
unfolding make new_grabber
first_round = take_step pump

trace : Reach compress before after
trace =
    then_step landed_world after
      (then_step read landed_world (then_step before read start first_round)
        (grab_step pump grabber answers))
      (rebind_step none landed_world.pump landed_world.round)

generation-Reach_example : Later before.pump after.pump
generation-Reach_example = generation-Reach compress before after trace

rebind-Reach_example :
    Dark after.pump.grabber after.pump.png after.pump.raw
    × ((client : Option ℕ) (g : Grabber) (f : Frame)
        → after.round ≡ grabbed g f
        → show compress g f (rebind client after.pump) ≡ rebind client after.pump)
rebind-Reach_example = rebind-Reach compress (some 1) 2 3 4 after trace
