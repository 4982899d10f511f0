-- ===== src/Bin2Elf/Tests.antt =====
-- An image of ten bytes at the application's base, and at the start of the flash.
use uv_k5_v3_emulator.Common.{◌+◌, ◌≤◌, ◌≡◌, ◌≢◌, [], ◌∷◌, length, refl, arith, get_elem?, ◌++◌}
use uv_k5_v3_emulator.Common.Words.{Bytes, u32_at, byte_at}
use uv_k5_v3_emulator.Common.Slices.{slice}
use uv_k5_v3_emulator.Common.Result.{ok}
use uv_k5_v3_emulator.Bin2Elf.{build_elf, elf_header, program_header, padding}
use uv_k5_v3_emulator.Bin2Elf.Load.{IsBootable, load, load-build_elf, load-build_elf_aligned}

abbrev app_image : Bytes
app_image = 0x00 ∷ 0x40 ∷ 0x00 ∷ 0x20 ∷ 0x09 ∷ 0x28 ∷ 0x00 ∷ 0x08 ∷ 0x00 ∷ 0xbf ∷ []

abbrev flash_image : Bytes
flash_image = 0x00 ∷ 0x40 ∷ 0x00 ∷ 0x20 ∷ 0x09 ∷ 0x00 ∷ 0x00 ∷ 0x08 ∷ 0x00 ∷ 0xbf ∷ []

abbrev app_elf : Bytes
app_elf =
    elf_header 0x08002809 ++ (program_header 0x2800 0x08002800 10 ++ (padding 0x2800 ++ app_image))

app_built : build_elf app_image 0x08002800 ≡ ok app_elf
unfolding build_elf u32_at byte_at get_elem?
app_built = refl

load-build_elf_example :
    (load app_elf
      ≡ record { address = 0x08002800; content = app_image; entry = u32_at app_image 4 })
    × (0x08002800 ≤ u32_at app_image 4)
    × (u32_at app_image 4 ≤ 0x08002800 + length app_image)
load-build_elf_example =
    load-build_elf app_image 0x08002800 app_elf (omega arith) (omega arith) app_built

flash-IsBootable : IsBootable flash_image 0x08000000
unfolding u32_at byte_at get_elem?
flash-IsBootable = record {
  long = omega arith;
  sp_low = omega arith;
  sp_high = omega arith;
  reset_low = omega arith;
  reset_high = omega arith;
  base_fits = omega arith;
  size_fits = omega arith;
}

load-build_elf_aligned_example :
    (elf : Bytes) × (build_elf flash_image 0x08000000 ≡ ok elf)
    × ((load elf).address ≡ 0x08000000)
    × ((load elf).content ≡ slice elf 0 (length flash_image))
    × ((load elf).content ≢ flash_image)
load-build_elf_aligned_example =
    load-build_elf_aligned flash_image 0x08000000 (omega arith) refl flash-IsBootable
