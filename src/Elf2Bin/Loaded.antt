-- ===== src/Elf2Bin/Loaded.antt =====
-- The flat binary, address by address.
use uv_k5_v3_emulator.Common.{
  ℕ, ◌+◌, ◌-◌, ◌≤◌, ◌<◌, ◌≡◌, ◌≢◌, leb, ◌⊎◌, inl, inr, ◌∙◌, refl, ap, arith, Option, none, some,
  List, [], ◌∷◌, ◌==◌, length, min, replicate, Bool-cases, Option-cases, length-replicate,
  get_elem?-replicate,
}
use uv_k5_v3_emulator.Common.Words.{Bytes, byte_at}
use uv_k5_v3_emulator.Common.Result.{ok}
use uv_k5_v3_emulator.Elf2Bin.Placed.{loaded, Fits, AllFit, put_parts-Fits}
use uv_k5_v3_emulator.Elf2Bin.Read.{IsSolid, AllSolid, sections-ReadSolid}
use uv_k5_v3_emulator.Elf2Bin.{
  Part, sections, lower_of, base_of, end_of, flat, based, extracted, extract,
}

-- A section whose content lies in the file.
abbrev pub InFile : Bytes → List Part → Type 0
InFile blob [] = Unit
InFile blob (part ∷ parts) =
    ((part.filesz ≡ 0) ⊎ (part.offset + part.filesz ≤ length blob)) × InFile blob parts

-- All content lies between the lowest address and the highest end.
lower_of-lt : (a : ℕ) (o : Option ℕ) → lower_of a o ≤ a
lower_of-lt a none = omega arith
lower_of-lt a (some b) = omega arith

abbrev pub AllAbove : ℕ → List Part → Type 0
AllAbove base [] = Unit
AllAbove base (part ∷ parts) = ((part.filesz ≡ 0) ⊎ (base ≤ part.addr)) × AllAbove base parts

AllAbove-lower :
    (low base : ℕ) (parts : List Part) → low ≤ base → AllAbove base parts → AllAbove low parts
AllAbove-lower low base [] h k = tt
AllAbove-lower low base (part ∷ parts) h (inl e, k) = (inl e, AllAbove-lower low base parts h k)
AllAbove-lower low base (part ∷ parts) h (inr e, k) =
    (inr (omega arith), AllAbove-lower low base parts h k)

base_of-none : (low : ℕ) (parts : List Part) → base_of parts ≡ none → AllAbove low parts
unfolding base_of
base_of-none low [] h = tt
base_of-none low (part ∷ parts) h = elim (Bool-cases (part.filesz == 0)) [
  | inl e ↦ (inl (ground (arith, e)), base_of-none low parts (ground (arith, e, h)))
  | inr e ↦ absurd (ground (arith, e, h))
]

base_of-AllAbove : (base : ℕ) (parts : List Part) → base_of parts ≡ some base → AllAbove base parts
unfolding base_of
base_of-AllAbove base [] h = tt
base_of-AllAbove base (part ∷ parts) h = elim (Bool-cases (part.filesz == 0)) [
  | inl e ↦ (inl (ground (arith, e)), base_of-AllAbove base parts (ground (arith, e, h)))
  | inr e ↦ elim (Option-cases (base_of parts)) [
    | inl f ↦
        let at : part.addr ≡ base = ground (arith, e, f, h) in
        (inr (omega arith), base_of-none base parts f)
    | inr (c, f) ↦
        let at : min part.addr c ≡ base = ground (arith, e, f, h) in
        (inr (omega arith), AllAbove-lower base c parts (omega arith) (base_of-AllAbove c parts f))
  ]
]

abbrev pub AllBelow : ℕ → List Part → Type 0
AllBelow e [] = Unit
AllBelow e (part ∷ parts) = (part.addr + part.memsz ≤ e) × AllBelow e parts

end_of-AllBelow : (e : ℕ) (parts : List Part) → end_of parts ≤ e → AllBelow e parts
unfolding end_of
end_of-AllBelow e [] h = tt
end_of-AllBelow e (part ∷ parts) h = (omega arith, end_of-AllBelow e parts (omega arith))

part_between :
    (base e : ℕ) (blob : Bytes) (part : Part)
    → (part.filesz ≡ 0) ⊎ (base ≤ part.addr)
    → part.addr + part.memsz ≤ e
    → IsSolid part
    → (part.filesz ≡ 0) ⊎ (part.offset + part.filesz ≤ length blob)
    → Fits base (e - base) blob part
part_between base e blob part (inl z) below solid inside = inl z
part_between base e blob part (inr above) below (inl z) inside = inl z
part_between base e blob part (inr above) below (inr solid) (inl z) = inl z
part_between base e blob part (inr above) below (inr solid) (inr inside) =
    inr (above, omega arith, inside)

all_between :
    (base e : ℕ) (blob : Bytes) (parts : List Part)
    → AllAbove base parts
    → AllBelow e parts
    → AllSolid parts
    → InFile blob parts
    → AllFit base (e - base) blob parts
all_between base e blob [] above below solid inside = tt
all_between base e blob (part ∷ parts) above below solid inside = (
  part_between base e blob part above.0 below.0 solid.0 inside.0,
  all_between base e blob parts above.1 below.1 solid.1 inside.1,
)

-- Some section with content is at an address.
abbrev pub SomeAt : ℕ → List Part → Type 0
SomeAt base [] = ⊥
SomeAt base (part ∷ parts) = ((part.filesz ≢ 0) × (part.addr ≡ base)) ⊎ SomeAt base parts

-- Some section ends in memory at an address.
abbrev pub SomeEnds : ℕ → List Part → Type 0
SomeEnds e [] = ⊥
SomeEnds e (part ∷ parts) = (part.addr + part.memsz ≡ e) ⊎ SomeEnds e parts

least_at :
    (addr c base : ℕ) (parts : List Part)
    → min addr c ≡ base
    → SomeAt c parts
    → (addr ≡ base) ⊎ SomeAt base parts
least_at addr c base parts h k = elim (Bool-cases (leb addr c)) [
  | inl e ↦ inl (let low : addr ≤ c = ground (arith, e) in omega arith)
  | inr e ↦
      let same : c ≡ base = let high : c < addr = ground (arith, e) in omega arith in
      inr (rw (← same) k)
]

base_of-SomeAt : (base : ℕ) (parts : List Part) → base_of parts ≡ some base → SomeAt base parts
unfolding base_of
base_of-SomeAt base [] h = cc
base_of-SomeAt base (part ∷ parts) h = elim (Bool-cases (part.filesz == 0)) [
  | inl e ↦ inr (base_of-SomeAt base parts (ground (arith, e, h)))
  | inr e ↦
      let size : part.filesz ≢ 0 = ground (arith, e) in
      elim (Option-cases (base_of parts)) [
        | inl f ↦ inl (size, ground (arith, e, f, h))
        | inr (c, f) ↦
            elim (least_at part.addr c base parts (ground (arith, e, f, h))
              (base_of-SomeAt c parts f)) [ inl at ↦ inl (size, at) | inr later ↦ inr later ]
      ]
]

end_of-SomeEnds :
    (e : ℕ) (part : Part) (parts : List Part)
    → end_of (part ∷ parts) ≡ e
    → SomeEnds e (part ∷ parts)
unfolding end_of
end_of-SomeEnds e part [] h = inl (omega arith)
end_of-SomeEnds e part (next ∷ parts) h =
    elim (Bool-cases (leb (end_of (next ∷ parts)) (part.addr + part.memsz))) [
      | inl f ↦
          let low : end_of (next ∷ parts) ≤ part.addr + part.memsz = ground (arith, f) in
          inl (omega (arith, h, low))
      | inr f ↦
          let high : part.addr + part.memsz < end_of (next ∷ parts) = ground (arith, f) in
          inr (end_of-SomeEnds e next parts (omega (arith, h, high)))
    ]

SomeAt-SomeEnds : (base : ℕ) (parts : List Part) → SomeAt base parts → SomeEnds (end_of parts) parts
SomeAt-SomeEnds base [] h = absurd h
SomeAt-SomeEnds base (part ∷ parts) h = end_of-SomeEnds (end_of (part ∷ parts)) part parts refl

abbrev pub Starts : Option ℕ → ℕ → Type 0
Starts none base = Unit
Starts (some vma) base = base ≡ vma

based-ok :
    (blob : Bytes) (least : Option ℕ) (parts : List Part) (o : Option ℕ) (out : Bytes)
    → based blob least parts o ≡ ok out
    → (base : ℕ) × (o ≡ some base) × (flat base blob parts ≡ out) × Starts least base
based-ok blob least parts none out h = cc
based-ok blob none parts (some base) out h = (base, refl, cc, tt)
based-ok blob (some vma) parts (some base) out h = elim (Bool-cases (base == vma)) [
  | inl e ↦ (base, refl, ground (arith, e, h), ground (arith, e))
  | inr e ↦ absurd (ground (arith, e, h))
]

extracted-ok :
    (blob : Bytes) (least : Option ℕ) (parts : List Part) (out : Bytes)
    → extracted blob least (ok parts) ≡ ok out
    → based blob least parts (base_of parts) ≡ ok out
extracted-ok blob least [] out h = cc
extracted-ok blob least (part ∷ parts) out h = h

zero_byte : (n i : ℕ) → byte_at (replicate n 0) i ≡ 0
unfolding byte_at
zero_byte n i = ground (arith, get_elem?-replicate {A = ℕ} n 0 i)

-- An image that `elf2bin` extracts from a file whose sections' content lies in the file. It starts at
-- the lowest address of a section with content, which is the one asked for if one is asked for. It ends
-- at the highest end in memory of a section, those without content in the file (.bss) included. At every
-- place it has what a loader puts at that address: of the sections that hold the address, the last
-- one's byte in the file, and 0 where none does.
pub extract-loaded :
    (blob : Bytes) (least : Option ℕ) (parts : List Part) (out : Bytes)
    → sections blob ≡ ok parts
    → InFile blob parts
    → extract blob least ≡ ok out
    → (base top : ℕ) × (AllAbove base parts × SomeAt base parts × Starts least base)
      × (AllBelow top parts × SomeEnds top parts)
      × (length out ≡ top - base)
      × ((i : ℕ) → byte_at out i ≡ loaded blob (base + i) 0 parts)
unfolding extract flat
extract-loaded blob least parts out read inside h =
    let solid : AllSolid parts = rw read at (sections-ReadSolid blob) in
    let (base, low, made, starts) =
      based-ok blob least parts (base_of parts) out
        (extracted-ok blob least parts out (rw read at h)) in
    let size = end_of parts - base in
    let (long, bytes) =
      put_parts-Fits base size blob (replicate size 0) parts (length-replicate size 0) (
        all_between base (end_of parts) blob parts (base_of-AllAbove base parts low)
          (end_of-AllBelow (end_of parts) parts (omega arith)) solid inside) in
    (
      base,
      end_of parts,
      (base_of-AllAbove base parts low, base_of-SomeAt base parts low, starts),
      (
        end_of-AllBelow (end_of parts) parts (omega arith),
        SomeAt-SomeEnds base parts (base_of-SomeAt base parts low),
      ),
      rw (← made) long,
      λ i. rw (← made) (bytes i ∙ ap (λ b. loaded blob (base + i) b parts) (zero_byte size i)),
    )
