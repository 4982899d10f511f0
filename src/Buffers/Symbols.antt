-- ===== src/Buffers/Symbols.antt =====
-- `from_symbols` of tools/uvk5_buffers.py: the addresses of the screen from a symbol table.

use uv_k5_v3_emulator.Common.{
  ℕ, zero, suc, ◌+◌, ◌-◌, ◌/◌, Bool, false, Option, none, some, List, [], ◌∷◌, ◌||◌, ltb, ◌==◌,
  if◌then◌else◌, length, get_elem?, not,
}
use uv_k5_v3_emulator.Common.Slices.{slice}
use uv_k5_v3_emulator.Common.Words.{Bytes, byte_at, u16_at, u32_at, bytes_eq}
use uv_k5_v3_emulator.Common.Text.{Text, decode_ascii, before_nul}
use uv_k5_v3_emulator.Common.Chars.{chars}
use uv_k5_v3_emulator.Common.Result.{Result, ok, err}

-- The exceptions of a table that lies outside of the file, and of a link outside of the table.
pub data TableError : Type 0 where
  struct_error : TableError
  index_error : TableError

pub record Section : Type 0 where
  pub kind : ℕ
  pub offset : ℕ
  pub size : ℕ
  pub link : ℕ
  pub entsize : ℕ

abbrev pub Symbols : Type 0
Symbols = List (Text × ℕ)

abbrev pub section_at : Bytes → ℕ → Section
section_at data' at = record {
  kind = u32_at data' (at + 4);
  offset = u32_at data' (at + 16);
  size = u32_at data' (at + 20);
  link = u32_at data' (at + 24);
  entsize = u32_at data' (at + 36);
}

abbrev pub put_front : {A : Type 0} → A → Result TableError (List A) → Result TableError (List A)
put_front a (ok rest) = ok (a ∷ rest)
put_front a (err e) = err e

-- `n` section headers from `at` on, `step` bytes apart.
unfoldable pub read_sections : ℕ → ℕ → ℕ → Bytes → Result TableError (List Section)
read_sections zero at step data' = ok []
read_sections (suc n) at step data' =
    let rest = read_sections n (at + step) step data' in
    if ltb (length data') (at + 40) then err struct_error else put_front (section_at data' at) rest

unfoldable pub has_nul : Bytes → Bool
has_nul [] = false
has_nul (b ∷ bs) = b == 0 || has_nul bs

-- `blob[name:blob.find(b"\x00", name)]`: without a NUL the end is -1, which drops the last byte.
unfoldable pub name_at : Bytes → ℕ → Bytes
name_at blob name =
    let tail = slice blob name (length blob) in
    if has_nul tail then before_nul tail else slice blob name (length blob - 1)

-- `n` symbols from `at` on; the later ones come first.
unfoldable pub read_symbols : ℕ → ℕ → ℕ → Bytes → Bytes → Symbols → Result TableError Symbols
read_symbols zero at step data' blob found = ok found
read_symbols (suc n) at step data' blob found =
    let name = u32_at data' at in
    let value = u32_at data' (at + 4) in
    let skipped = read_symbols n (at + step) step data' blob found in
    let named =
      read_symbols n (at + step) step data' blob
        ((decode_ascii (name_at blob name), value) ∷ found) in
    if ltb (length data') (at + 8)
    then err struct_error
    else if name == 0 || value == 0
    then skipped
    else named

-- `section["entsize"] or 16`
unfoldable pub step_of : Section → ℕ
step_of section = if section.entsize == 0 then 16 else section.entsize

abbrev pub table_symbols : Bytes → Section → Option Section → Symbols → Result TableError Symbols
table_symbols data' section none found = err index_error
table_symbols data' section (some strings) found =
    read_symbols (section.size / step_of section) section.offset (step_of section) data'
      (slice data' strings.offset (strings.offset + strings.size)) found

abbrev pub symbols_then :
    Result TableError Symbols → (Symbols → Result TableError Symbols) → Result TableError Symbols
symbols_then (err e) next = err e
symbols_then (ok found) next = next found

-- The symbol tables of a list of sections.
unfoldable pub all_symbols :
    Bytes → List Section → List Section → Symbols → Result TableError Symbols
all_symbols data' sections [] found = ok found
all_symbols data' sections (section ∷ more) found =
    if not (section.kind == 2 || section.kind == 11)
    then all_symbols data' sections more found
    else symbols_then (table_symbols data' section (get_elem? sections section.link) found)
        (all_symbols data' sections more)

unfoldable pub symbol : Text → Symbols → Option ℕ
symbol name [] = none
symbol name ((n, value) ∷ found) = if bytes_eq n name then some value else symbol name found

-- The addresses of the frame and of the status line.
abbrev pub Addresses : Type 0
Addresses = Option (ℕ × ℕ)

abbrev pub both : Option ℕ → Option ℕ → Addresses
both none status = none
both (some frame) none = none
both (some frame) (some status) = some (frame, status)

abbrev pub addresses_of : Result TableError Symbols → Result TableError Addresses
addresses_of (err e) = err e
addresses_of (ok found) =
    ok (both (symbol (chars "gFrameBuffer") found) (symbol (chars "gStatusLine") found))

abbrev pub symbols_of : Bytes → Result TableError (List Section) → Result TableError Symbols
symbols_of data' (err e) = err e
symbols_of data' (ok sections) = all_symbols data' sections sections []

unfoldable pub is_elf32 : Bytes → Bool
is_elf32 data' = not (
    ltb (length data') 52
    || not (byte_at data' 0 == 0x7f)
    || not (bytes_eq (slice data' 1 4) (chars "ELF"))
    || not (byte_at data' 4 == 1))

unfoldable pub elf_symbols : Bytes → Result TableError Addresses
elf_symbols data' =
    let e_shoff = u32_at data' 0x20 in
    let e_shentsize = u16_at data' 0x2e in
    let e_shnum = u16_at data' 0x30 in
    if not (is_elf32 data')
    then ok none
    else if e_shoff == 0 || e_shnum == 0
    then ok none
    else addresses_of (symbols_of data' (read_sections e_shnum e_shoff e_shentsize data'))

-- `none` is a file that does not open.
unfoldable pub from_symbols : Option Bytes → Result TableError Addresses
from_symbols none = ok none
from_symbols (some data') = elf_symbols data'
