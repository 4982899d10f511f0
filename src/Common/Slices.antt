-- ===== src/Common/Slices.antt =====
-- Python slices of a bytes or bytearray value, and assignment to a slice of a bytearray.
use mathlib.Core.List.{append-nil}
use uv_k5_v3_emulator.Common.{
  ℕ, zero, suc, ◌+◌, ◌-◌, ◌≤◌, ◌<◌, max, min, ◌≡◌, refl, none, some, List, [], ◌∷◌, ◌++◌, arith,
  ltb, if◌then◌else◌, length, get_elem?, take, drop, length-take, length-drop, length-append,
  get_elem?-take, get_elem?-drop, get_elem?-append, eq_of_get_elem?,
}

module _ {A : Type 0} where
  -- `xs[a:b]`
  unfoldable pub slice : List A → ℕ → ℕ → List A
  slice xs a b = take (b - a) (drop a xs)

  -- `xs[a:b] = ys`
  unfoldable pub splice : List A → ℕ → ℕ → List A → List A
  splice xs a b ys = take a xs ++ (ys ++ drop (max a b) xs)

  -- `xs[i] = v`, for an index in range
  unfoldable pub set : List A → ℕ → A → List A
  set [] i v = []
  set (x ∷ xs) zero v = v ∷ xs
  set (x ∷ xs) (suc i) v = x ∷ set xs i v

  -- `for i in range(a, a + n): xs[i] = v`
  unfoldable pub fill : List A → ℕ → ℕ → A → List A
  fill xs a zero v = xs
  fill xs a (suc n) v = fill (set xs a v) (a + 1) n v

  pub length-set : (xs : List A) (i : ℕ) (v : A) → length (set xs i v) ≡ length xs
  unfolding set
  length-set [] i v = refl
  length-set (x ∷ xs) zero v = refl
  length-set (x ∷ xs) (suc i) v = omega (arith, length-set xs i v)

  pub get_elem?-set :
      (xs : List A) (i : ℕ) (v : A) (j : ℕ)
      → i < length xs
      → (i ≡ j → get_elem? (set xs i v) j ≡ some v)
        × ((i ≡ j → ⊥) → get_elem? (set xs i v) j ≡ get_elem? xs j)
  unfolding set get_elem?
  get_elem?-set [] i v j h = absurd (omega arith)
  get_elem?-set (x ∷ xs) zero v zero h = ground arith
  get_elem?-set (x ∷ xs) zero v (suc j) h = ground arith
  get_elem?-set (x ∷ xs) (suc i) v zero h = ground arith
  get_elem?-set (x ∷ xs) (suc i) v (suc j) h = ground (arith, get_elem?-set xs i v j)

  pub length-fill : (xs : List A) (a n : ℕ) (v : A) → length (fill xs a n v) ≡ length xs
  unfolding fill
  length-fill xs a zero v = refl
  length-fill xs a (suc n) v =
      omega (arith, length-fill (set xs a v) (a + 1) n v, length-set xs a v)

  pub get_elem?-fill :
      (xs : List A) (a n : ℕ) (v : A) (j : ℕ)
      → a + n ≤ length xs
      → get_elem? (fill xs a n v) j
        ≡ (if ltb j a then get_elem? xs j else if ltb j (a + n) then some v else get_elem? xs j)
  unfolding fill
  get_elem?-fill xs a zero v j h = ground arith
  get_elem?-fill xs a (suc n) v j h = ground (
    arith,
    length-set xs a v,
    get_elem?-set xs a v j (omega arith),
    get_elem?-fill (set xs a v) (a + 1) n v j,
  )

  pub get_elem?-slice :
      (xs : List A) (a b i : ℕ)
      → get_elem? (slice xs a b) i ≡ (if ltb i (b - a) then get_elem? xs (a + i) else none)
  unfolding slice
  get_elem?-slice xs a b i =
      ground (arith, get_elem?-take (b - a) (drop a xs) i, get_elem?-drop a xs i)

  pub length-slice : (xs : List A) (a b : ℕ) → length (slice xs a b) ≡ min (b - a) (length xs - a)
  unfolding slice
  length-slice xs a b = omega (arith, length-take {0} (b - a) (drop a xs), length-drop {0} a xs)

  -- Where the new bytes are as many as those replaced, the length stays.
  pub length-splice :
      (xs : List A) (a b : ℕ) (ys : List A)
      → a + length ys ≡ b
      → b ≤ length xs
      → length (splice xs a b ys) ≡ length xs
  unfolding splice
  length-splice xs a b ys e h = omega (
    arith,
    length-append {0} (take a xs) (ys ++ drop (max a b) xs),
    length-append {0} ys (drop (max a b) xs),
    length-take {0} a xs,
    length-drop {0} (max a b) xs,
  )

  pub get_elem?-splice :
      (xs : List A) (a b : ℕ) (ys : List A) (i : ℕ)
      → a + length ys ≡ b
      → b ≤ length xs
      → get_elem? (splice xs a b ys) i ≡ (
          if ltb i a
          then get_elem? xs i
          else if ltb i b
          then get_elem? ys (i - a)
          else get_elem? xs i)
  unfolding splice
  get_elem?-splice xs a b ys i e h = ground (
    arith,
    get_elem?-append (take a xs) (ys ++ drop (max a b) xs) i,
    get_elem?-append ys (drop (max a b) xs) (i - length (take a xs)),
    length-take a xs,
    get_elem?-take a xs i,
    get_elem?-drop (max a b) xs (i - length (take a xs) - length ys),
  )

  pub drop-append_self : (xs ys : List A) → drop (length xs) (xs ++ ys) ≡ ys
  unfolding drop
  drop-append_self [] ys = refl
  drop-append_self (x ∷ xs) ys = drop-append_self xs ys

  pub take-append_self : (xs ys : List A) → take (length xs) (xs ++ ys) ≡ xs
  unfolding take
  take-append_self [] ys = refl
  take-append_self (x ∷ xs) ys = rw (take-append_self xs ys)

  pub drop-append_add : (xs ys : List A) (n : ℕ) → drop (length xs + n) (xs ++ ys) ≡ drop n ys
  drop-append_add xs ys n = eq_of_get_elem? _ _ λ i.
      let e : length xs + n + i - length xs ≡ n + i = omega arith in
      ground (
        arith,
        get_elem?-drop (length xs + n) (xs ++ ys) i,
        get_elem?-append xs ys (length xs + n + i),
        get_elem?-drop n ys i,
        e,
      )

  -- A slice past a prefix is a slice of what follows the prefix.
  pub slice-append_add :
      (xs ys : List A) (a b : ℕ) → slice (xs ++ ys) (length xs + a) (length xs + b) ≡ slice ys a b
  unfolding slice
  slice-append_add xs ys a b =
      let e : length xs + b - (length xs + a) ≡ b - a = omega arith in
      rw (e, drop-append_add xs ys a)

  pub drop_prefix : (xs ys : List A) (a : ℕ) → length xs ≡ a → drop a (xs ++ ys) ≡ ys
  drop_prefix xs ys a e = rw (← e) (drop-append_self xs ys)

  -- The slice that covers exactly the middle part.
  pub slice_middle :
      (xs ys zs : List A) (a b : ℕ)
      → length xs ≡ a
      → a + length ys ≡ b
      → slice (xs ++ (ys ++ zs)) a b ≡ ys
  unfolding slice
  slice_middle xs ys zs a b e f =
      let w : b - a ≡ length ys = omega arith in
      rw (drop_prefix xs (ys ++ zs) a e, w) (take-append_self ys zs)

  pub slice_suffix :
      (xs ys : List A) (a b : ℕ) → length xs ≡ a → a + length ys ≡ b → slice (xs ++ ys) a b ≡ ys
  slice_suffix xs ys a b e f = rw append-nil at (slice_middle xs ys [] a b e f)

  -- A slice of a slice.
  pub slice-slice :
      (xs : List A) (a b i j : ℕ) → a + j ≤ b → slice (slice xs a b) i j ≡ slice xs (a + i) (a + j)
  slice-slice xs a b i j h = eq_of_get_elem? _ _ λ k.
      rw (get_elem?-slice (slice xs a b) i j k, get_elem?-slice xs (a + i) (a + j) k) (inside k)
    where
      inside :
          (k : ℕ)
          → (if ltb k (j - i) then get_elem? (slice xs a b) (i + k) else none)
            ≡ (if ltb k (a + j - (a + i)) then get_elem? xs (a + i + k) else none)
      inside k =
          let e : a + (i + k) ≡ a + i + k = omega arith in
          ground (arith, e, get_elem?-slice xs a b (i + k))
