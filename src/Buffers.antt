-- ===== src/Buffers.antt =====
-- The search of tools/uvk5_buffers.py: where in SRAM a firmware keeps its screen, found by sliding
-- the display controller's memory through it.
pub mod Best
pub mod Symbols
pub mod Discover
mod Tests
use uv_k5_v3_emulator.Common.{
  ℕ, zero, suc, ◌+◌, ◌-◌, Option, none, some, List, [], ◌∷◌, ltb, ◌==◌, if◌then◌else◌, length,
}
use uv_k5_v3_emulator.Common.Slices.{slice}
use uv_k5_v3_emulator.Common.Words.{Bytes}

abbrev pub sram_base : ℕ
sram_base = 0x20000000

abbrev pub frame_bytes : ℕ
frame_bytes = 896

abbrev pub status_bytes : ℕ
status_bytes = 128

-- `sum(1 for a, b in zip(xs, ys) if a == b)`
unfoldable pub matching : Bytes → Bytes → ℕ
matching [] ys = 0
matching (x ∷ xs) [] = 0
matching (x ∷ xs) (y ∷ ys) = (if x == y then 1 else 0) + matching xs ys

-- `none` is -1.
unfoldable pub score : Bytes → ℕ → Bytes → Option ℕ
score sram offset gram =
    if ltb (length sram) (offset + frame_bytes + status_bytes)
    then none
    else some (
        matching (slice sram offset (offset + frame_bytes)) (slice gram status_bytes (length gram))
        + matching (slice sram (offset + frame_bytes) (offset + frame_bytes + status_bytes))
            (slice gram 0 status_bytes))

-- `if value > best`; the state is `best_at` and `best`, and `none` is where they are None and -1.
unfoldable pub better : ℕ → Option ℕ → Option (ℕ × ℕ) → Option (ℕ × ℕ)
better offset none found = found
better offset (some value) none = some (offset, value)
better offset (some value) (some (best_at, best)) =
    if ltb best value then some (offset, value) else some (best_at, best)

-- The loop of `locate`: `n` offsets from `offset` on.
unfoldable pub locate_from : ℕ → ℕ → Bytes → Bytes → Option (ℕ × ℕ) → Option (ℕ × ℕ)
locate_from zero offset sram gram found = found
locate_from (suc n) offset sram gram found =
    locate_from n (offset + 1) sram gram (better offset (score sram offset gram) found)

pub record Place : Type 0 where
  pub frame : Option ℕ
  pub status : Option ℕ
  pub best : ℕ
  pub total : ℕ

abbrev pub placed : Option (ℕ × ℕ) → Place
placed none = record { frame = none; status = none; best = 0; total = frame_bytes + status_bytes }
placed (some (best_at, best)) = record {
  frame = some (sram_base + best_at);
  status = some (sram_base + best_at + frame_bytes);
  best = best;
  total = frame_bytes + status_bytes;
}

unfoldable pub locate : Bytes → Bytes → Place
locate sram gram =
    placed (locate_from (length sram + 1 - (frame_bytes + status_bytes)) 0 sram gram none)
