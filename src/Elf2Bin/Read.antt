-- ===== src/Elf2Bin/Read.antt =====
-- The sizes of the sections that are read.
use uv_k5_v3_emulator.Common.{
  ℕ, zero, suc, ◌+◌, ◌≡◌, ◌⊎◌, inl, inr, refl, Option, none, some, List, [], ◌∷◌, ◌&&◌, ◌||◌, ◌==◌,
  ltb, length, not, Bool-cases,
}
use uv_k5_v3_emulator.Common.Words.{Bytes, u16_at, u32_at}
use uv_k5_v3_emulator.Common.Result.{Result, ok, err}
use uv_k5_v3_emulator.Elf2Bin.{
  Part, ExtractError, sht_nobits, is_alloc, no_elf, part_of, part_at, part_then, read_parts,
  sections,
}

-- A section that has no content, or as much as it takes in memory.
abbrev pub IsSolid : Part → Type 0
IsSolid part = (part.filesz ≡ 0) ⊎ (part.memsz ≡ part.filesz)

abbrev pub AllSolid : List Part → Type 0
AllSolid [] = Unit
AllSolid (part ∷ parts) = IsSolid part × AllSolid parts

-- Sections that are read have no content, or as much as they take in memory.
abbrev pub ReadSolid : Result ExtractError (List Part) → Type 0
ReadSolid (err e) = Unit
ReadSolid (ok parts) = AllSolid parts

abbrev pub MaybeSolid : Option Part → Type 0
MaybeSolid none = Unit
MaybeSolid (some part) = IsSolid part

part_then-ReadSolid :
    (o : Option Part) (r : Result ExtractError (List Part))
    → MaybeSolid o
    → ReadSolid r
    → ReadSolid (part_then o r)
part_then-ReadSolid none r h k = k
part_then-ReadSolid (some part) (err e) h k = tt
part_then-ReadSolid (some part) (ok parts) h k = (h, k)

part_of-MaybeSolid :
    (addr offset size flags typ : ℕ) → MaybeSolid (part_of addr offset size flags typ)
unfolding part_of
part_of-MaybeSolid addr offset size flags typ = elim (Bool-cases (typ == sht_nobits)) [
  | inl e ↦ rw e (inl refl)
  | inr e ↦ elim (Bool-cases (is_alloc flags && not (size == 0))) [
    | inl f ↦ rw (e, f) (inr refl)
    | inr f ↦ rw (e, f) tt
  ]
]

read_parts-ReadSolid : (n at step : ℕ) (blob : Bytes) → ReadSolid (read_parts n at step blob)
unfolding read_parts part_at
read_parts-ReadSolid zero at step blob = tt
read_parts-ReadSolid (suc n) at step blob = elim (Bool-cases (ltb (length blob) (at + 40))) [
  | inl e ↦ rw e tt
  | inr e ↦ rw e (
      part_then-ReadSolid (part_at blob at) (read_parts n (at + step) step blob)
        (part_of-MaybeSolid _ _ _ _ _) (read_parts-ReadSolid n (at + step) step blob))
]

pub sections-ReadSolid : (blob : Bytes) → ReadSolid (sections blob)
unfolding sections
sections-ReadSolid blob = elim (Bool-cases (no_elf blob)) [
  | inl e ↦ rw e tt
  | inr e ↦ elim (Bool-cases (u32_at blob 0x20 == 0 || u16_at blob 0x30 == 0)) [
    | inl f ↦ rw (e, f) tt
    | inr f ↦
        rw (e, f)
          (read_parts-ReadSolid (u16_at blob 0x30) (u32_at blob 0x20) (u16_at blob 0x2e) blob)
  ]
]
