-- ===== src/Lcd/Bits.antt =====
-- `unpack`: the loop on the bits of a byte.
use Prim.Native.Nat.{bit_and}
use uv_k5_v3_emulator.Common.{
  ℕ, zero, suc, ◌+◌, ◌-◌, ◌*◌, ◌^◌, ◌≤◌, ◌<◌, ◌≡◌, ◌≢◌, ◌⊎◌, refl, ap, sym, ◌∙◌, arith, Bool, true,
  false, Option, none, some, List, [], ◌∷◌, ◌==◌, ◌&&◌, not, if◌then◌else◌, get_elem?, Bool-cases,
  inl, inr,
}
use uv_k5_v3_emulator.Common.Slices.{set}
use uv_k5_v3_emulator.Lcd.{Pixels, light, unpack_bits}

-- The pixel at a place; `none` is a place outside.
abbrev pub pixel_of : Option (List ℕ) → ℕ → Option ℕ
pixel_of none col = none
pixel_of (some row) col = get_elem? row col

abbrev pub pixel : Pixels → ℕ → ℕ → Option ℕ
pixel pixels row col = pixel_of (get_elem? pixels row) col

-- A bit of a byte.
abbrev pub bit_set : ℕ → ℕ → Bool
bit_set byte bit = not (bit_and byte (2 ^ bit) == 0)

abbrev pub lit : Option ℕ → Option ℕ
lit none = none
lit (some v) = some 1

get_elem?-set_one :
    (row : List ℕ) (col c : ℕ)
    → get_elem? (set row col 1) c ≡ (if col == c then lit (get_elem? row c) else get_elem? row c)
unfolding set get_elem?
get_elem?-set_one [] col c = ground arith
get_elem?-set_one (v ∷ row) zero zero = refl
get_elem?-set_one (v ∷ row) zero (suc c) = ground arith
get_elem?-set_one (v ∷ row) (suc col) zero = ground arith
get_elem?-set_one (v ∷ row) (suc col) (suc c) = ground (arith, get_elem?-set_one row col c)

pixel-light :
    (pixels : Pixels) (row col r c : ℕ)
    → pixel (light row col pixels) r c
      ≡ (if (row == r) && (col == c) then lit (pixel pixels r c) else pixel pixels r c)
unfolding light set get_elem?
pixel-light [] row col r c = ground arith
pixel-light (p ∷ ps) zero col zero c = ground (arith, get_elem?-set_one p col c)
pixel-light (p ∷ ps) zero col (suc r) c = ground arith
pixel-light (p ∷ ps) (suc row) col zero c = ground arith
pixel-light (p ∷ ps) (suc row) col (suc r) c = ground (arith, pixel-light ps row col r c)

-- A place after a round of the innermost loop.
pixel-if_light :
    (b : Bool) (pixels : Pixels) (row col r c : ℕ)
    → pixel (if b then light row col pixels else pixels) r c
      ≡ (if b && ((row == r) && (col == c)) then lit (pixel pixels r c) else pixel pixels r c)
pixel-if_light true pixels row col r c = pixel-light pixels row col r c
pixel-if_light false pixels row col r c = refl

apart_unlit :
    (b : Bool) (pixels : Pixels) (row col r c : ℕ)
    → (row ≢ r) ⊎ (col ≢ c)
    → pixel (if b then light row col pixels else pixels) r c ≡ pixel pixels r c
apart_unlit b pixels row col r c h =
    let off : (b && ((row == r) && (col == c))) ≡ false = ground arith in
    pixel-if_light b pixels row col r c ∙ rw off refl

here_lit :
    (b : Bool) (pixels : Pixels) (row col : ℕ)
    → pixel (if b then light row col pixels else pixels) row col
      ≡ (if b then lit (pixel pixels row col) else pixel pixels row col)
here_lit b pixels row col =
    let on : (b && ((row == row) && (col == col))) ≡ b = ground arith in
    pixel-if_light b pixels row col row col ∙ rw on refl

-- The rows outside of the bits of a byte, and the other columns, are not touched.
pub bits_elsewhere :
    (n bit byte page col r c : ℕ) (pixels : Pixels)
    → (r < page * 8 + bit) ⊎ ((page * 8 + bit + n ≤ r) ⊎ (col ≢ c))
    → pixel (unpack_bits n bit byte page col pixels) r c ≡ pixel pixels r c
unfolding unpack_bits
bits_elsewhere zero bit byte page col r c pixels h = refl
bits_elsewhere (suc n) bit byte page col r c pixels h =
    bits_elsewhere n (bit + 1) byte page col r c _ (ground (arith, h))
    ∙ apart_unlit (bit_set byte bit) pixels (page * 8 + bit) col r c (ground (arith, h))

-- What a byte makes of the pixel in its column.
abbrev pub shown : ℕ → ℕ → Option ℕ → Option ℕ
shown byte bit v = if bit_set byte bit then lit v else v

pub bits_here :
    (n bit byte page col r : ℕ) (pixels : Pixels)
    → page * 8 + bit ≤ r
    → r < page * 8 + bit + n
    → pixel (unpack_bits n bit byte page col pixels) r col
      ≡ shown byte (r - page * 8) (pixel pixels r col)
unfolding unpack_bits
bits_here zero bit byte page col r pixels low high = absurd (omega arith)
bits_here (suc n) bit byte page col r pixels low high = elim (Bool-cases (page * 8 + bit == r)) [
  | inl e ↦
      let here : page * 8 + bit ≡ r = ground (arith, e) in
      let back : page * 8 + bit - page * 8 ≡ bit = omega arith in
      bits_elsewhere n (bit + 1) byte page col r col _ (inl (omega arith))
      ∙ rw (← here) (
          here_lit (bit_set byte bit) pixels (page * 8 + bit) col
          ∙ ap (λ k. shown byte k (pixel pixels (page * 8 + bit) col)) (sym back))
  | inr e ↦
      let apart : page * 8 + bit ≢ r = ground (arith, e) in
      bits_here n (bit + 1) byte page col r _ (omega arith) (omega arith)
      ∙ ap (shown byte (r - page * 8))
          (apart_unlit (bit_set byte bit) pixels (page * 8 + bit) col r col (inl apart))
]
