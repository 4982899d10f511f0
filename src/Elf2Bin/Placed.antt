-- ===== src/Elf2Bin/Placed.antt =====
-- What the loop over the sections puts into the image.
use uv_k5_v3_emulator.Common.{
  ℕ, ◌+◌, ◌-◌, ◌≤◌, ◌≡◌, ◌≢◌, ◌⊎◌, inl, inr, ◌∙◌, refl, ap, arith, Bool, List, [], ◌∷◌, ◌&&◌, ◌==◌,
  leb, ltb, if◌then◌else◌, length, Bool-cases,
}
use uv_k5_v3_emulator.Common.Slices.{
  slice, length-slice, length-splice, get_elem?-slice, get_elem?-splice,
}
use uv_k5_v3_emulator.Common.Words.{Bytes, byte_at}
use uv_k5_v3_emulator.Elf2Bin.{Part, put_part, put_parts}

-- Whether an address lies in a section's content.
unfoldable pub holds : Part → ℕ → Bool
holds part a = leb part.addr a && ltb a (part.addr + part.filesz)

-- What a loader puts at an address: of the sections that hold it, the last one's byte in the file.
unfoldable pub loaded : Bytes → ℕ → ℕ → List Part → ℕ
loaded blob a byte [] = byte
loaded blob a byte (part ∷ parts) =
    loaded blob a (if holds part a then byte_at blob (part.offset + (a - part.addr)) else byte)
      parts

abbrev pub Fits : ℕ → ℕ → Bytes → Part → Type 0
Fits base n blob part =
    (part.filesz ≡ 0)
    ⊎ ((base ≤ part.addr)
        × (part.addr + part.filesz ≤ base + n)
        × (part.offset + part.filesz ≤ length blob))

abbrev pub AllFit : ℕ → ℕ → Bytes → List Part → Type 0
AllFit base n blob [] = Unit
AllFit base n blob (part ∷ parts) = Fits base n blob part × AllFit base n blob parts

module _ (base : ℕ) (blob out : Bytes) (part : Part) (size : part.filesz ≢ 0)
    (low : base ≤ part.addr) (high : part.addr + part.filesz ≤ base + length out)
    (inside : part.offset + part.filesz ≤ length blob) where
  abbrev content : Bytes
  content = slice blob part.offset (part.offset + part.filesz)

  content_size : part.addr - base + length content ≡ part.addr - base + part.filesz
  content_size = omega (arith, length-slice blob part.offset (part.offset + part.filesz))

  length-put_content : length (put_part base blob out part) ≡ length out
  unfolding put_part
  length-put_content = ground (
    arith,
    length-splice out (part.addr - base) (part.addr - base + part.filesz) content content_size
        (omega arith),
  )

  byte_at-put_content :
      (i : ℕ)
      → byte_at (put_part base blob out part) i ≡ (
          if holds part (base + i)
          then byte_at blob (part.offset + (base + i - part.addr))
          else byte_at out i)
  unfolding put_part byte_at holds
  byte_at-put_content i =
      let index : part.offset + (i - (part.addr - base)) ≡ part.offset + (base + i - part.addr) =
        omega arith in
      ground (
        arith,
        get_elem?-splice out (part.addr - base) (part.addr - base + part.filesz) content i
            content_size (omega arith),
        get_elem?-slice blob part.offset (part.offset + part.filesz) (i - (part.addr - base)),
      )

put_part-Fits :
    (base : ℕ) (blob out : Bytes) (part : Part)
    → Fits base (length out) blob part
    → (length (put_part base blob out part) ≡ length out)
      × ((i : ℕ)
          → byte_at (put_part base blob out part) i ≡ (
              if holds part (base + i)
              then byte_at blob (part.offset + (base + i - part.addr))
              else byte_at out i))
unfolding put_part holds
put_part-Fits base blob out part (inl e) = (ground (arith, e), λ i. ground (arith, e))
put_part-Fits base blob out part (inr (low, high, inside)) = elim (Bool-cases (part.filesz == 0)) [
  | inl e ↦ (ground (arith, e), λ i. ground (arith, e))
  | inr e ↦
      let size : part.filesz ≢ 0 = ground (arith, e) in
      (
        length-put_content base blob out part size low high inside,
        byte_at-put_content base blob out part size low high inside,
      )
]

pub put_parts-Fits :
    (base n : ℕ) (blob out : Bytes) (parts : List Part)
    → length out ≡ n
    → AllFit base n blob parts
    → (length (put_parts base blob out parts) ≡ n)
      × ((i : ℕ)
          → byte_at (put_parts base blob out parts) i
            ≡ loaded blob (base + i) (byte_at out i) parts)
unfolding put_parts loaded
put_parts-Fits base n blob out [] size fit = (size, λ i. refl)
put_parts-Fits base n blob out (part ∷ parts) size fit =
    let (same, bytes) = put_part-Fits base blob out part (rw size fit.0) in
    let (rest_size, rest) =
      put_parts-Fits base n blob (put_part base blob out part) parts (same ∙ size) fit.1 in
    (rest_size, λ i. rest i ∙ ap (λ b. loaded blob (base + i) b parts) (bytes i))
