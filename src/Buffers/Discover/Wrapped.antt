-- ===== src/Buffers/Discover/Wrapped.antt =====
-- The images that tools/bin2elf.py makes name no symbols.
use uv_k5_v3_emulator.Common.{
  ℕ, ◌%◌, ◌≡◌, refl, arith, true, false, Option, none, some, [], ◌∷◌, ◌++◌, ltb, length, get_elem?,
  take, drop,
}
use uv_k5_v3_emulator.Common.Slices.{slice}
use uv_k5_v3_emulator.Common.Words.{Bytes, byte_at, u32_at, bytes_eq}
use uv_k5_v3_emulator.Common.Text.{Text}
use uv_k5_v3_emulator.Common.Result.{ok}
use uv_k5_v3_emulator.Image.{Files}
use uv_k5_v3_emulator.Bin2Elf.{build_elf, elf_header, program_header, padding}
use uv_k5_v3_emulator.Bin2Elf.Load.{build_elf-Built}
use uv_k5_v3_emulator.Buffers.Symbols.{TableError, is_elf32, elf_symbols, from_symbols}
use uv_k5_v3_emulator.Buffers.Discover.{Reads, search, discover}

header_long : (reset : ℕ) (rest : Bytes) → ltb (length (elf_header reset ++ rest)) 52 ≡ false
unfolding elf_header
header_long reset rest = ground arith

header_start :
    (reset : ℕ) (rest : Bytes)
    → (byte_at (elf_header reset ++ rest) 0 ≡ 0x7f)
      × (slice (elf_header reset ++ rest) 1 4 ≡ 0x45 ∷ 0x4c ∷ 0x46 ∷ [])
      × (byte_at (elf_header reset ++ rest) 4 ≡ 1)
      × (u32_at (elf_header reset ++ rest) 0x20 ≡ 0)
unfolding elf_header byte_at u32_at get_elem? slice take drop
header_start reset rest = (refl, refl, refl, refl)

header-elf_symbols :
    (reset : ℕ) (rest : Bytes)
    → (is_elf32 (elf_header reset ++ rest) ≡ true)
      × (elf_symbols (elf_header reset ++ rest) ≡ ok none)
unfolding is_elf32 elf_symbols bytes_eq
header-elf_symbols reset rest =
    let (magic, name, class', shoff) = header_start reset rest in
    let good : is_elf32 (elf_header reset ++ rest) ≡ true =
      rw (header_long reset rest, magic, name, class') refl in
    (good, rw (good, shoff) refl)

-- An image wrapped by `build_elf` is a 32-bit ELF file without a symbol table, so that on such a file
-- `discover` answers what it answers without a file: the search in SRAM, with any client and any bytes
-- of the panel, and never an exception of the table.
pub discover-build_elf :
    (image : Bytes) (base : ℕ) (elf : Bytes) (files : Files) (say : TableError → Text) (path : Text)
    (reads : Option Reads) (gram : Option Bytes)
    → build_elf image base ≡ ok elf
    → files path ≡ some elf
    → (is_elf32 elf ≡ true) × (discover files say (some path) reads gram ≡ search reads gram)
unfolding discover from_symbols
discover-build_elf image base elf files say [] reads gram h at =
    let built = build_elf-Built image base elf h in
    (rw built.content (header-elf_symbols (u32_at image 4) _).0, refl)
discover-build_elf image base elf files say (c ∷ cs) reads gram h at =
    let built = build_elf-Built image base elf h in
    let (good, symbols) = header-elf_symbols (u32_at image 4) (
      program_header (base % 0x10000) base (length image) ++ (padding (base % 0x10000) ++ image)) in
    (rw built.content good, rw (at, built.content, symbols) refl)
