-- ===== src/Buffers/Tests.antt =====
-- A blank memory of 1030 bytes, in which every offset agrees equally well.
use uv_k5_v3_emulator.Common.{
  ℕ, ◌+◌, ◌-◌, ◌≤◌, ◌<◌, ◌≡◌, refl, true, none, some, [], ◌∷◌, ◌++◌, length, replicate, get_elem?,
  take, drop,
}
use uv_k5_v3_emulator.Common.Slices.{slice}
use uv_k5_v3_emulator.Common.Words.{Bytes, byte_at, u16_at, u32_at, bytes_eq}
use uv_k5_v3_emulator.Common.Text.{before_nul, decode_ascii}
use uv_k5_v3_emulator.Common.Chars.{chars}
use uv_k5_v3_emulator.Common.Result.{ok}
use uv_k5_v3_emulator.Bin2Elf.{build_elf, elf_header, program_header, padding}
use uv_k5_v3_emulator.Buffers.Symbols.{
  is_elf32, from_symbols, elf_symbols, read_sections, all_symbols, read_symbols, step_of, name_at,
  has_nul, symbol,
}
use uv_k5_v3_emulator.Buffers.Discover.{Reads, search, discover}
use uv_k5_v3_emulator.Buffers.Discover.Wrapped.{discover-build_elf}
use uv_k5_v3_emulator.Buffers.{locate, sram_base}
use uv_k5_v3_emulator.Buffers.Best.{IsBest, locate_lem}

abbrev sram : Bytes
sram = replicate 1030 0

abbrev gram : Bytes
gram = replicate 1024 0

locate_lem_example :
    (1024 ≤ length sram
      → (best_at best : ℕ) × (locate sram gram ≡ record {
        frame = some (sram_base + best_at);
        status = some (sram_base + best_at + 896);
        best = best;
        total = 1024;
      })
        × IsBest sram gram (length sram + 1 - 1024) (some (best_at, best)))
    × (length sram < 1024
        → locate sram gram ≡ record { frame = none; status = none; best = 0; total = 1024 })
locate_lem_example = locate_lem sram gram

abbrev image : Bytes
image = 0x00 ∷ 0x40 ∷ 0x00 ∷ 0x20 ∷ 0x09 ∷ 0x28 ∷ 0x00 ∷ 0x08 ∷ 0x00 ∷ 0xbf ∷ []

abbrev elf : Bytes
elf = elf_header 0x08002809 ++ (program_header 0x2800 0x08002800 10 ++ (padding 0x2800 ++ image))

built : build_elf image 0x08002800 ≡ ok elf
unfolding build_elf u32_at byte_at get_elem?
built = refl

abbrev answers : Reads
answers = record { panel_gram = ok gram; sram = ok sram }

discover-build_elf_example :
    (is_elf32 elf ≡ true)
    × (discover (λ p. some elf) (λ e. []) (some (0x61 ∷ [])) (some answers) none
        ≡ search (some answers) none)
discover-build_elf_example =
    discover-build_elf image 0x08002800 elf (λ p. some elf) (λ e. []) (0x61 ∷ []) (some answers)
      none built refl

-- A section header of type `kind`, and a symbol at 0x20000000 or above.
abbrev section : ℕ → ℕ → ℕ → ℕ → Bytes
section kind offset size link =
    replicate 4 0
    ++ (kind ∷ 0 ∷ 0 ∷ 0 ∷ replicate 8 0
        ++ (offset ∷ 0 ∷ 0 ∷ 0 ∷ size ∷ 0 ∷ 0 ∷ 0 ∷ link ∷ replicate 15 0))

abbrev symbol_bytes : ℕ → ℕ → Bytes
symbol_bytes name value = name ∷ 0 ∷ 0 ∷ 0 ∷ value ∷ 0 ∷ 0 ∷ 0x20 ∷ replicate 8 0

-- A file of one symbol table and its names.
abbrev table : Bytes
table =
    0x7f ∷ 0x45 ∷ 0x4c ∷ 0x46 ∷ 1 ∷ replicate 27 0
    ++ (52 ∷ 0 ∷ 0 ∷ 0 ∷ replicate 10 0
        ++ (40 ∷ 0 ∷ 2 ∷ 0 ∷ 0 ∷ 0 ∷ section 2 132 32 1
            ++ (section 3 164 26 0
                ++ (symbol_bytes 1 0x12
                    ++ (symbol_bytes 14 0x34
                        ++ (0 ∷ chars "gFrameBuffer" ++ (0 ∷ chars "gStatusLine" ++ 0 ∷ [])))))))

table_addresses : from_symbols (some table) ≡ ok (some (0x20000012, 0x20000034))
unfolding from_symbols elf_symbols is_elf32 read_sections all_symbols read_symbols step_of name_at
    has_nul symbol slice u16_at u32_at byte_at get_elem? bytes_eq before_nul decode_ascii replicate
    take drop
table_addresses = refl
