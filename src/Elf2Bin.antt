-- ===== src/Elf2Bin.antt =====
-- tools/elf2bin.py: the flat binary of an overlay app's ELF file, from its allocated sections.
pub mod Read
pub mod Placed
pub mod Loaded
mod Tests
use uv_k5_v3_emulator.Common.{
  ℕ, zero, suc, ◌+◌, ◌-◌, ◌/◌, ◌%◌, Bool, true, false, Option, none, some, List, [], ◌∷◌, ◌++◌,
  ◌||◌, ◌&&◌, ltb, ◌==◌, if◌then◌else◌, length, not, min, max, replicate,
}
use uv_k5_v3_emulator.Common.Slices.{slice, splice}
use uv_k5_v3_emulator.Common.Words.{Bytes, byte_at, u16_at, u32_at, bytes_eq}
use uv_k5_v3_emulator.Common.Chars.{chars}
use uv_k5_v3_emulator.Common.Result.{Result, ok, err}

abbrev pub sht_nobits : ℕ
sht_nobits = 8

-- `value_error` is the ValueError of `min` when no section has content.
pub data ExtractError : Type 0 where
  not_elf : ExtractError
  struct_error : ExtractError
  no_sections : ExtractError
  value_error : ExtractError
  wrong_base : ℕ → ℕ → ExtractError

-- A section that is kept: where it is loaded, and its size in the file and in memory.
pub record Part : Type 0 where
  pub addr : ℕ
  pub offset : ℕ
  pub filesz : ℕ
  pub memsz : ℕ

-- `flags & SHF_ALLOC`
unfoldable pub is_alloc : ℕ → Bool
is_alloc flags = flags / 2 % 2 == 1

unfoldable pub part_of : ℕ → ℕ → ℕ → ℕ → ℕ → Option Part
part_of addr offset size flags typ =
    if typ == sht_nobits
    then some (record { addr = addr; offset = offset; filesz = 0; memsz = size })
    else if is_alloc flags && not (size == 0)
    then some (record { addr = addr; offset = offset; filesz = size; memsz = size })
    else none

unfoldable pub part_at : Bytes → ℕ → Option Part
part_at blob at =
    part_of (u32_at blob (at + 12)) (u32_at blob (at + 16)) (u32_at blob (at + 20))
      (u32_at blob (at + 8)) (u32_at blob (at + 4))

abbrev pub part_then :
    Option Part → Result ExtractError (List Part) → Result ExtractError (List Part)
part_then none rest = rest
part_then (some part) (err e) = err e
part_then (some part) (ok parts) = ok (part ∷ parts)

-- `n` section headers from `at` on.
unfoldable pub read_parts : ℕ → ℕ → ℕ → Bytes → Result ExtractError (List Part)
read_parts zero at step blob = ok []
read_parts (suc n) at step blob =
    let rest = read_parts n (at + step) step blob in
    if ltb (length blob) (at + 40) then err struct_error else part_then (part_at blob at) rest

unfoldable pub no_elf : Bytes → Bool
no_elf blob =
    ltb (length blob) 52
    || not (byte_at blob 0 == 0x7f)
    || not (bytes_eq (slice blob 1 4) (chars "ELF"))
    || not (byte_at blob 4 == 1)
    || not (byte_at blob 5 == 1)

-- The empty list stands for None.
unfoldable pub sections : Bytes → Result ExtractError (List Part)
sections blob =
    let e_shoff = u32_at blob 0x20 in
    let e_shentsize = u16_at blob 0x2e in
    let e_shnum = u16_at blob 0x30 in
    if no_elf blob
    then err not_elf
    else if e_shoff == 0 || e_shnum == 0
    then ok []
    else read_parts e_shnum e_shoff e_shentsize blob

abbrev pub lower_of : ℕ → Option ℕ → ℕ
lower_of addr none = addr
lower_of addr (some base) = min addr base

-- The lowest address of a section with content.
unfoldable pub base_of : List Part → Option ℕ
base_of [] = none
base_of (part ∷ parts) =
    let rest = base_of parts in if part.filesz == 0 then rest else some (lower_of part.addr rest)

unfoldable pub end_of : List Part → ℕ
end_of [] = 0
end_of (part ∷ parts) = max (part.addr + part.memsz) (end_of parts)

unfoldable pub put_part : ℕ → Bytes → Bytes → Part → Bytes
put_part base blob out part =
    if part.filesz == 0
    then out
    else splice out (part.addr - base) (part.addr - base + part.filesz)
        (slice blob part.offset (part.offset + part.filesz))

unfoldable pub put_parts : ℕ → Bytes → Bytes → List Part → Bytes
put_parts base blob out [] = out
put_parts base blob out (part ∷ parts) = put_parts base blob (put_part base blob out part) parts

unfoldable pub flat : ℕ → Bytes → List Part → Bytes
flat base blob parts = put_parts base blob (replicate (end_of parts - base) 0) parts

abbrev pub based : Bytes → Option ℕ → List Part → Option ℕ → Result ExtractError Bytes
based blob least parts none = err value_error
based blob none parts (some base) = ok (flat base blob parts)
based blob (some vma) parts (some base) =
    if not (base == vma) then err (wrong_base base vma) else ok (flat base blob parts)

abbrev pub extracted :
    Bytes → Option ℕ → Result ExtractError (List Part) → Result ExtractError Bytes
extracted blob least (err e) = err e
extracted blob least (ok []) = err no_sections
extracted blob least (ok (part ∷ parts)) = based blob least (part ∷ parts) (base_of (part ∷ parts))

-- `main`, from the file's bytes to the image; `least` is `--min`.
unfoldable pub extract : Bytes → Option ℕ → Result ExtractError Bytes
extract blob least = extracted blob least (sections blob)
