-- ===== src/Common/Regions.antt =====
-- Regions of a buffer: what reads of a region see, and which writes leave it alone.
use uv_k5_v3_emulator.Common.{
  ℕ, ◌+◌, ◌-◌, ◌≤◌, ◌<◌, ◌≡◌, ◌⊎◌, inl, inr, ◌∙◌, none, arith, ltb, if◌then◌else◌, length,
  get_elem?, get_elem?-none, eq_of_get_elem?,
}
use uv_k5_v3_emulator.Common.Slices.{
  slice, splice, fill, get_elem?-slice, get_elem?-splice, get_elem?-fill,
}
use uv_k5_v3_emulator.Common.Words.{Bytes, byte_at, u16_at, u32_at, byte_at-splice_inside}

-- Two buffers hold the same from `lo` up to `hi`.
abbrev pub SameOn : ℕ → ℕ → Bytes → Bytes → Type 0
SameOn lo hi xs ys = (i : ℕ) → lo ≤ i → i < hi → get_elem? xs i ≡ get_elem? ys i

module _ (lo hi : ℕ) where
  pub SameOn-trans :
      (xs ys zs : Bytes) → SameOn lo hi xs ys → SameOn lo hi ys zs → SameOn lo hi xs zs
  SameOn-trans xs ys zs h k i p q = h i p q ∙ k i p q

  pub SameOn-narrow :
      (a b : ℕ) (xs ys : Bytes) → SameOn lo hi xs ys → lo ≤ a → b ≤ hi → SameOn a b xs ys
  SameOn-narrow a b xs ys h p q i r s = h i (omega arith) (omega arith)

  module _ (xs ys : Bytes) (same : SameOn lo hi xs ys) where
    pub SameOn-byte_at : (i : ℕ) → lo ≤ i → i < hi → byte_at xs i ≡ byte_at ys i
    unfolding byte_at
    SameOn-byte_at i p q = rw (same i p q)

    pub SameOn-u16_at : (i : ℕ) → lo ≤ i → i + 1 < hi → u16_at xs i ≡ u16_at ys i
    unfolding u16_at
    SameOn-u16_at i p q =
        rw (SameOn-byte_at i p (omega arith), SameOn-byte_at (i + 1) (omega arith) q)

    pub SameOn-u32_at : (i : ℕ) → lo ≤ i → i + 3 < hi → u32_at xs i ≡ u32_at ys i
    unfolding u32_at
    SameOn-u32_at i p q = rw (
      SameOn-byte_at i p (omega arith),
      SameOn-byte_at (i + 1) (omega arith) (omega arith),
      SameOn-byte_at (i + 2) (omega arith) (omega arith),
      SameOn-byte_at (i + 3) (omega arith) q,
    )

    pub SameOn-slice : (a b : ℕ) → lo ≤ a → b ≤ hi → slice xs a b ≡ slice ys a b
    SameOn-slice a b p q =
        eq_of_get_elem? _ _ λ i. rw (get_elem?-slice xs a b i, get_elem?-slice ys a b i) (inside i)
      where
        inside :
            (i : ℕ)
            → (if ltb i (b - a) then get_elem? xs (a + i) else none)
              ≡ (if ltb i (b - a) then get_elem? ys (a + i) else none)
        inside i = ground (arith, same (a + i))

-- A write outside a region leaves it alone.
pub splice-SameOn :
    (xs : Bytes) (a b : ℕ) (ys : Bytes) (lo hi : ℕ)
    → a + length ys ≡ b
    → b ≤ length xs
    → (hi ≤ a) ⊎ (b ≤ lo)
    → SameOn lo hi (splice xs a b ys) xs
splice-SameOn xs a b ys lo hi e f (inl apart) i p q =
    ground (arith, get_elem?-splice xs a b ys i e f)
splice-SameOn xs a b ys lo hi e f (inr apart) i p q =
    ground (arith, get_elem?-splice xs a b ys i e f)

pub fill-SameOn :
    (xs : Bytes) (a n : ℕ) (v : ℕ) (lo hi : ℕ)
    → a + n ≤ length xs
    → (hi ≤ a) ⊎ (a + n ≤ lo)
    → SameOn lo hi (fill xs a n v) xs
fill-SameOn xs a n v lo hi f (inl apart) i p q = ground (arith, get_elem?-fill xs a n v i f)
fill-SameOn xs a n v lo hi f (inr apart) i p q = ground (arith, get_elem?-fill xs a n v i f)

-- Reads inside a region that has just been written.
module _ (xs : Bytes) (a b : ℕ) (ys : Bytes) (size : a + length ys ≡ b) (fits : b ≤ length xs) where
  pub u16_at-splice : (i : ℕ) → i + 1 < length ys → u16_at (splice xs a b ys) (a + i) ≡ u16_at ys i
  unfolding u16_at
  u16_at-splice i h =
      let e : a + i + 1 ≡ a + (i + 1) = omega arith in
      rw (
        e,
        byte_at-splice_inside xs a b ys size fits i (omega arith),
        byte_at-splice_inside xs a b ys size fits (i + 1) h,
      )

  pub u32_at-splice : (i : ℕ) → i + 3 < length ys → u32_at (splice xs a b ys) (a + i) ≡ u32_at ys i
  unfolding u32_at
  u32_at-splice i h =
      let e₁ : a + i + 1 ≡ a + (i + 1) = omega arith in
      let e₂ : a + i + 2 ≡ a + (i + 2) = omega arith in
      let e₃ : a + i + 3 ≡ a + (i + 3) = omega arith in
      rw (
        e₁,
        e₂,
        e₃,
        byte_at-splice_inside xs a b ys size fits i (omega arith),
        byte_at-splice_inside xs a b ys size fits (i + 1) (omega arith),
        byte_at-splice_inside xs a b ys size fits (i + 2) (omega arith),
        byte_at-splice_inside xs a b ys size fits (i + 3) h,
      )

  pub slice-splice :
      (i j : ℕ) → j ≤ length ys → slice (splice xs a b ys) (a + i) (a + j) ≡ slice ys i j
  slice-splice i j h = eq_of_get_elem? _ _ λ k.
      rw (get_elem?-slice (splice xs a b ys) (a + i) (a + j) k, get_elem?-slice ys i j k) (inside k)
    where
      inside :
          (k : ℕ)
          → (if ltb k (a + j - (a + i)) then get_elem? (splice xs a b ys) (a + i + k) else none)
            ≡ (if ltb k (j - i) then get_elem? ys (i + k) else none)
      inside k =
          let e : a + i + k - a ≡ i + k = omega arith in
          ground (arith, e, get_elem?-splice xs a b ys (a + i + k) size fits)

  -- What has been written is read back whole.
  pub slice-splice_self : slice (splice xs a b ys) a b ≡ ys
  slice-splice_self =
      eq_of_get_elem? _ _ λ k. rw (get_elem?-slice (splice xs a b ys) a b k) (inside k)
    where
      inside :
          (k : ℕ)
          → (if ltb k (b - a) then get_elem? (splice xs a b ys) (a + k) else none) ≡ get_elem? ys k
      inside k =
          let e : a + k - a ≡ k = omega arith in
          ground (arith, e, get_elem?-none ys k, get_elem?-splice xs a b ys (a + k) size fits)
