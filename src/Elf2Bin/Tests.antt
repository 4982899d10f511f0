-- ===== src/Elf2Bin/Tests.antt =====
-- A file with three bytes of content at 0x10 and five bytes of .bss behind them.
use uv_k5_v3_emulator.Common.{
  ℕ, ◌+◌, ◌-◌, ◌≡◌, refl, inl, inr, arith, some, List, [], ◌∷◌, ◌++◌, length, replicate, get_elem?,
  take, drop,
}
use uv_k5_v3_emulator.Common.Slices.{slice, splice}
use uv_k5_v3_emulator.Common.Words.{Bytes, byte_at, u16_at, u32_at, bytes_eq}
use uv_k5_v3_emulator.Common.Result.{ok}
use uv_k5_v3_emulator.Elf2Bin.{
  Part, part_of, part_at, is_alloc, no_elf, read_parts, sections, base_of, end_of, put_part,
  put_parts, flat, extract,
}
use uv_k5_v3_emulator.Elf2Bin.Placed.{loaded}
use uv_k5_v3_emulator.Elf2Bin.Loaded.{
  InFile, AllAbove, SomeAt, Starts, AllBelow, SomeEnds, extract-loaded,
}

abbrev word : ℕ → Bytes
word n = n ∷ 0 ∷ 0 ∷ 0 ∷ []

abbrev section : ℕ → ℕ → ℕ → ℕ → Bytes
section typ addr offset size =
    word 0
    ++ (word typ ++ (word 2 ++ (word addr ++ (word offset ++ (word size ++ replicate 16 0)))))

abbrev blob : Bytes
blob =
    0x7f ∷ 0x45 ∷ 0x4c ∷ 0x46 ∷ 1 ∷ 1 ∷ replicate 26 0
    ++ (word 52
        ++ (replicate 10 0
            ++ (40 ∷ 0 ∷ 2 ∷ 0 ∷ 0 ∷ 0 ∷ section 1 0x10 132 3
                ++ (section 8 0x13 0 5 ++ (7 ∷ 8 ∷ 9 ∷ [])))))

abbrev parts : List Part
parts =
    record { addr = 0x10; offset = 132; filesz = 3; memsz = 3 }
    ∷ record { addr = 0x13; offset = 0; filesz = 0; memsz = 5 }
    ∷ []

abbrev image : Bytes
image = 7 ∷ 8 ∷ 9 ∷ 0 ∷ 0 ∷ 0 ∷ 0 ∷ 0 ∷ []

parts_read : sections blob ≡ ok parts
unfolding sections no_elf read_parts part_at part_of is_alloc slice u16_at u32_at byte_at get_elem?
    bytes_eq replicate take drop
parts_read = refl

extracts : extract blob (some 0x10) ≡ ok image
unfolding extract sections no_elf read_parts part_at part_of is_alloc slice u16_at u32_at byte_at
    get_elem? bytes_eq replicate take drop base_of end_of put_part put_parts flat splice
extracts = refl

in_file : InFile blob parts
unfolding replicate
in_file = (inr (omega arith), (inl refl, tt))

extract-loaded_example :
    (base top : ℕ) × (AllAbove base parts × SomeAt base parts × Starts (some 0x10) base)
    × (AllBelow top parts × SomeEnds top parts)
    × (length image ≡ top - base)
    × ((i : ℕ) → byte_at image i ≡ loaded blob (base + i) 0 parts)
extract-loaded_example = extract-loaded blob (some 0x10) parts image parts_read in_file extracts
