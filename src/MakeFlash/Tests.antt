-- ===== src/MakeFlash/Tests.antt =====
-- A UF2 file of one block of four bytes, written to address 4 of a small flash.
use uv_k5_v3_emulator.Common.{
  ℕ, suc, ◌+◌, ◌*◌, ◌/◌, ◌≡◌, [], ◌∷◌, ◌++◌, length, refl, replicate, get_elem?, take, drop,
}
use uv_k5_v3_emulator.Common.Slices.{slice, splice}
use uv_k5_v3_emulator.Common.Words.{Bytes, pack32, u32_at, byte_at}
use uv_k5_v3_emulator.Common.Regions.{SameOn}
use uv_k5_v3_emulator.Common.Result.{ok}
use uv_k5_v3_emulator.MakeFlash.{
  uf2_magic0, uf2_magic1, uf2_magic_end, apply_block, apply_blocks, apply_uf2,
}
use uv_k5_v3_emulator.MakeFlash.Uf2.{Clear, target, target_end, payload, apply_uf2_lem}

abbrev uf2_file : Bytes
uf2_file =
    pack32 uf2_magic0
    ++ (pack32 uf2_magic1
        ++ (pack32 0
            ++ (pack32 4
                ++ (pack32 4
                    ++ (pack32 0
                        ++ (pack32 1
                            ++ (pack32 0
                                ++ ((1 ∷ 2 ∷ 3 ∷ 4 ∷ [])
                                    ++ (replicate 472 0 ++ pack32 uf2_magic_end)))))))))

abbrev flash : Bytes
flash = 9 ∷ 9 ∷ 9 ∷ 9 ∷ 9 ∷ 9 ∷ 9 ∷ 9 ∷ 9 ∷ 9 ∷ []

abbrev out : Bytes
out = 9 ∷ 9 ∷ 9 ∷ 9 ∷ 1 ∷ 2 ∷ 3 ∷ 4 ∷ 9 ∷ 9 ∷ []

applied : apply_uf2 flash uf2_file ≡ ok out
unfolding apply_uf2 apply_blocks apply_block u32_at byte_at get_elem? splice slice take drop
    replicate
applied = refl

apply_uf2_lem_example :
    (length out ≡ length flash)
    × ((lo hi : ℕ) → Clear uf2_file (length uf2_file / 512) 0 lo hi → SameOn lo hi out flash)
    × ((k n : ℕ)
        → length uf2_file / 512 ≡ k + suc n
        → Clear uf2_file n
            (512 * k + 512)
            (target uf2_file (512 * k))
            (target_end uf2_file (512 * k))
        → slice out (target uf2_file (512 * k)) (target_end uf2_file (512 * k))
          ≡ payload uf2_file (512 * k))
apply_uf2_lem_example = apply_uf2_lem flash uf2_file out applied
