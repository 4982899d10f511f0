-- ===== src/Common/Words.antt =====
-- `struct.pack` and `struct.unpack_from` of little-endian unsigned fields, and byte strings.
use uv_k5_v3_emulator.Common.{
  ℕ, ◌+◌, ◌-◌, ◌*◌, ◌/◌, ◌%◌, ◌≤◌, ◌<◌, ◌≡◌, refl, Bool, Option, none, some, List, [], ◌∷◌, arith,
  leb, length, get_elem?, ◌&&◌, ◌++◌, get_elem?-append, ◌^◌,
}
use uv_k5_v3_emulator.Common.Slices.{splice, get_elem?-splice}

abbrev pub Bytes : Type 0
Bytes = List ℕ

-- Every element is a byte.
abbrev pub IsBytes : Bytes → Type 0
IsBytes [] = Unit
IsBytes (b ∷ bs) = (b < 256) × IsBytes bs

-- "<B", "<H" and "<I": the fields of a value in range.
abbrev pub pack16 : ℕ → Bytes
pack16 n = n % 256 ∷ n / 256 % 256 ∷ []

abbrev pub pack32 : ℕ → Bytes
pack32 n = n % 256 ∷ n / 256 % 256 ∷ n / 256 / 256 % 256 ∷ n / 256 / 256 / 256 % 256 ∷ []

-- A byte that is there; the callers read inside the data.
abbrev pub byte_or_zero : Option ℕ → ℕ
byte_or_zero none = 0
byte_or_zero (some b) = b

unfoldable pub byte_at : Bytes → ℕ → ℕ
byte_at bs i = byte_or_zero (get_elem? bs i)

unfoldable pub u16_at : Bytes → ℕ → ℕ
u16_at bs i = byte_at bs i + 256 * byte_at bs (i + 1)

unfoldable pub u32_at : Bytes → ℕ → ℕ
u32_at bs i =
    byte_at bs i
    + 256 * (byte_at bs (i + 1) + 256 * (byte_at bs (i + 2) + 256 * byte_at bs (i + 3)))

-- Equality of byte strings.
unfoldable pub bytes_eq : Bytes → Bytes → Bool
bytes_eq [] [] = Bool.true
bytes_eq [] (y ∷ ys) = Bool.false
bytes_eq (x ∷ xs) [] = Bool.false
bytes_eq (x ∷ xs) (y ∷ ys) = leb x y && leb y x && bytes_eq xs ys

pub bytes_eq_refl : (xs : Bytes) → bytes_eq xs xs ≡ Bool.true
unfolding bytes_eq
bytes_eq_refl [] = refl
bytes_eq_refl (x ∷ xs) = ground (arith, bytes_eq_refl xs)

pub eq_of_bytes_eq : (xs ys : Bytes) → bytes_eq xs ys ≡ Bool.true → xs ≡ ys
unfolding bytes_eq
eq_of_bytes_eq [] [] h = refl
eq_of_bytes_eq [] (y ∷ ys) h = cc
eq_of_bytes_eq (x ∷ xs) [] h = cc
eq_of_bytes_eq (x ∷ xs) (y ∷ ys) h = ground (arith, eq_of_bytes_eq xs ys)

-- What is written over a region is read back from it, and nothing else changes.
module _ (xs : Bytes) (a b : ℕ) (ys : Bytes) (size : a + length ys ≡ b) (fits : b ≤ length xs) where
  pub byte_at-splice_inside :
      (i : ℕ) → i < length ys → byte_at (splice xs a b ys) (a + i) ≡ byte_at ys i
  unfolding byte_at
  byte_at-splice_inside i h =
      let e : a + i - a ≡ i = omega arith in
      ground (arith, get_elem?-splice xs a b ys (a + i) size fits, e)

  pub byte_at-splice_before : (i : ℕ) → i < a → byte_at (splice xs a b ys) i ≡ byte_at xs i
  unfolding byte_at
  byte_at-splice_before i h = ground (arith, get_elem?-splice xs a b ys i size fits)

  pub byte_at-splice_after : (i : ℕ) → b ≤ i → byte_at (splice xs a b ys) i ≡ byte_at xs i
  unfolding byte_at
  byte_at-splice_after i h = ground (arith, get_elem?-splice xs a b ys i size fits)

pub byte_at-append_add : (xs ys : Bytes) (i : ℕ) → byte_at (xs ++ ys) (length xs + i) ≡ byte_at ys i
unfolding byte_at
byte_at-append_add xs ys i =
    let e : length xs + i - length xs ≡ i = omega arith in
    ground (arith, get_elem?-append xs ys (length xs + i), e)

pub u16_at-append_add : (xs ys : Bytes) (i : ℕ) → u16_at (xs ++ ys) (length xs + i) ≡ u16_at ys i
unfolding u16_at
u16_at-append_add xs ys i =
    let e : length xs + i + 1 ≡ length xs + (i + 1) = omega arith in
    rw (e, byte_at-append_add xs ys i, byte_at-append_add xs ys (i + 1))

pub pack16_value : (n : ℕ) → n < 65536 → n % 256 + 256 * (n / 256 % 256) ≡ n
pack16_value n h = omega arith

pub pack32_value :
    (n : ℕ)
    → n < 2 ^ 32
    → n % 256
        + 256 * (n / 256 % 256 + 256 * (n / 256 / 256 % 256 + 256 * (n / 256 / 256 / 256 % 256)))
      ≡ n
pack32_value n h = omega arith

pub IsBytes-append : (xs ys : Bytes) → IsBytes xs → IsBytes ys → IsBytes (xs ++ ys)
IsBytes-append [] ys h k = k
IsBytes-append (x ∷ xs) ys h k = (h.0, IsBytes-append xs ys h.1 k)

pub u16_at-append_left :
    (xs ys : Bytes) (i : ℕ) → i + 1 < length xs → u16_at (xs ++ ys) i ≡ u16_at xs i
unfolding u16_at byte_at
u16_at-append_left xs ys i h =
    ground (arith, get_elem?-append xs ys i, get_elem?-append xs ys (i + 1))

-- A field past a prefix of known length.
pub u32_at_skip :
    (xs ys : Bytes) (n i : ℕ) → length xs ≡ n → u32_at (xs ++ ys) (n + i) ≡ u32_at ys i
unfolding u32_at
u32_at_skip xs ys n i e =
    let e₁ : length xs + i + 1 ≡ length xs + (i + 1) = omega arith in
    let e₂ : length xs + i + 2 ≡ length xs + (i + 2) = omega arith in
    let e₃ : length xs + i + 3 ≡ length xs + (i + 3) = omega arith in
    rw (
      ← e,
      e₁,
      e₂,
      e₃,
      byte_at-append_add xs ys i,
      byte_at-append_add xs ys (i + 1),
      byte_at-append_add xs ys (i + 2),
      byte_at-append_add xs ys (i + 3),
    )
