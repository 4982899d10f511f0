-- ===== src/Logs/Poll.antt =====
-- A client that polls with the last cursor gets every line once, in order.
use uv_k5_v3_emulator.Common.{
  ℕ, zero, suc, ◌+◌, ◌-◌, ◌≤◌, ◌<◌, ◌≡◌, refl, ap, sym, ◌∙◌, arith, false, List, [], ◌∷◌, ◌++◌, ltb,
  length, drop, length-append, length-drop, get_elem?-drop, get_elem?, eq_of_get_elem?,
}
use mathlib.Core.List.{append_assoc, append-nil}
use uv_k5_v3_emulator.Logs.{
  Item, Entry, LogBuffer, make, last_of, add, add_all, cursor, newer, entries,
}

-- The entries of some items, numbered from `n` on.
abbrev pub numbered : ℕ → List Item → List Entry
numbered n [] = []
numbered n (i ∷ is) = record { seq = n; item = i } ∷ numbered (n + 1) is

-- No entry is newer than the cursor.
abbrev pub UpTo : ℕ → List Entry → Type 0
UpTo n [] = Unit
UpTo n (e ∷ es) = (e.seq ≤ n) × UpTo n es

abbrev pub IsSound : LogBuffer → Type 0
IsSound b = (length b.kept ≤ b.capacity) × UpTo b.seq b.kept

drop_append :
    {A : Type 0} (k : ℕ) (xs ys : List A) → k ≤ length xs → drop k (xs ++ ys) ≡ drop k xs ++ ys
unfolding drop
drop_append zero xs ys h = refl
drop_append (suc k) [] ys h = absurd (omega arith)
drop_append (suc k) (x ∷ xs) ys h = drop_append k xs ys (omega arith)

drop-drop_add : {A : Type 0} (k l : ℕ) (xs : List A) → drop l (drop k xs) ≡ drop (k + l) xs
drop-drop_add k l xs = eq_of_get_elem? _ _ λ i.
    let same : k + (l + i) ≡ k + l + i = omega arith in
    get_elem?-drop l (drop k xs) i
    ∙ get_elem?-drop k xs (l + i)
    ∙ ap (get_elem? xs) same
    ∙ sym (get_elem?-drop (k + l) xs i)

-- The deque may drop its first elements now or later.
last_of-append :
    {A : Type 0} (n : ℕ) (xs ys : List A) → last_of n (last_of n xs ++ ys) ≡ last_of n (xs ++ ys)
unfolding last_of
last_of-append n xs ys =
    let k = length xs - n in
    let total = length-append {0} xs ys in
    let left = length-drop {0} k (xs ++ ys) in
    let same : k + (length (drop k (xs ++ ys)) - n) ≡ length (xs ++ ys) - n =
      omega (arith, total, left) in
    ap (λ zs. drop (length zs - n) zs) (sym (drop_append k xs ys (omega arith)))
    ∙ drop-drop_add k (length (drop k (xs ++ ys)) - n) (xs ++ ys)
    ∙ ap (λ m. drop m (xs ++ ys)) same

last_of_all : {A : Type 0} (n : ℕ) (xs : List A) → length xs ≤ n → last_of n xs ≡ xs
unfolding last_of drop
last_of_all n xs h = let none_left : length xs - n ≡ 0 = omega arith in rw none_left refl

length-last_of : {A : Type 0} (n : ℕ) (xs : List A) → length (last_of n xs) ≤ n
unfolding last_of
length-last_of n xs = omega (arith, length-drop {0} (length xs - n) xs)

add_all-kept :
    (is : List Item) (b : LogBuffer)
    → length b.kept ≤ b.capacity
    → (add_all is b).kept ≡ last_of b.capacity (b.kept ++ numbered (b.seq + 1) is)
unfolding add_all add
add_all-kept [] b h = rw (append-nil b.kept) (sym (last_of_all b.capacity b.kept h))
add_all-kept (i ∷ is) b h =
    let e : Entry = record { seq = b.seq + 1; item = i } in
    let later = numbered (b.seq + 1 + 1) is in
    add_all-kept is (add i b) (length-last_of b.capacity (b.kept ++ e ∷ []))
    ∙ last_of-append b.capacity (b.kept ++ e ∷ []) later
    ∙ ap (last_of b.capacity) (append_assoc b.kept (e ∷ []) later)

newer-numbered :
    (since k n : ℕ) (is : List Item)
    → since < n
    → newer since (drop k (numbered n is)) ≡ drop k (numbered n is)
unfolding newer drop
newer-numbered since zero n [] p = refl
newer-numbered since zero n (i ∷ is) p = ground (arith, newer-numbered since zero (n + 1) is)
newer-numbered since (suc k) n [] p = refl
newer-numbered since (suc k) n (i ∷ is) p = newer-numbered since k (n + 1) is (omega arith)

newer_old :
    (since n : ℕ) (e : Entry) (es : List Entry) (is : List Item)
    → e.seq ≤ since
    → newer since (drop zero (es ++ numbered n is)) ≡ drop (zero - length es) (numbered n is)
    → newer since (drop zero ((e ∷ es) ++ numbered n is))
      ≡ drop (zero - length (e ∷ es)) (numbered n is)
unfolding newer drop
newer_old since n e es is h rest =
    let none_left : 0 - length es ≡ 0 = omega arith in
    let none_left' : 0 - length (e ∷ es) ≡ 0 = omega arith in
    let old : ltb since e.seq ≡ false = ground (arith, h) in
    rw (none_left', old) (rest ∙ ap (λ m. drop m (numbered n is)) none_left)

newer-drop :
    (since k n : ℕ) (old : List Entry) (is : List Item)
    → UpTo since old
    → since < n
    → newer since (drop k (old ++ numbered n is)) ≡ drop (k - length old) (numbered n is)
unfolding drop
newer-drop since k n [] is h p =
    let same : k ≡ k - 0 = omega arith in
    newer-numbered since k n is p ∙ ap (λ m. drop m (numbered n is)) same
newer-drop since zero n (e ∷ es) is h p =
    newer_old since n e es is h.0 (newer-drop since zero n es is h.1 p)
newer-drop since (suc k) n (e ∷ es) is h p =
    let same : k - length es ≡ suc k - suc (length es) = omega arith in
    newer-drop since k n es is h.1 p ∙ ap (λ m. drop m (numbered n is)) same

UpTo-drop : (n k : ℕ) (es : List Entry) → UpTo n es → UpTo n (drop k es)
unfolding drop
UpTo-drop n zero es h = h
UpTo-drop n (suc k) [] h = tt
UpTo-drop n (suc k) (e ∷ es) h = UpTo-drop n k es h.1

UpTo-append : (n : ℕ) (es fs : List Entry) → UpTo n es → UpTo n fs → UpTo n (es ++ fs)
UpTo-append n [] fs h k = k
UpTo-append n (e ∷ es) fs h k = (h.0, UpTo-append n es fs h.1 k)

UpTo-suc : (n : ℕ) (es : List Entry) → UpTo n es → UpTo (n + 1) es
UpTo-suc n [] h = tt
UpTo-suc n (e ∷ es) h = (omega (arith, h.0), UpTo-suc n es h.1)

IsSound-add : (i : Item) (b : LogBuffer) → IsSound b → IsSound (add i b)
unfolding add last_of
IsSound-add i b h = (
  length-last_of b.capacity (b.kept ++ record { seq = b.seq + 1; item = i } ∷ []),
  UpTo-drop (b.seq + 1) _ (b.kept ++ record { seq = b.seq + 1; item = i } ∷ [])
      (UpTo-append (b.seq + 1) b.kept _ (UpTo-suc b.seq b.kept h.1) (omega arith, tt)),
)

-- A new buffer is sound, and stays so: it holds no more entries than its capacity, and none is newer
-- than the cursor.
pub IsSound-add_all : (is : List Item) (b : LogBuffer) → IsSound b → IsSound (add_all is b)
unfolding add_all
IsSound-add_all [] b h = h
IsSound-add_all (i ∷ is) b h = IsSound-add_all is (add i b) (IsSound-add i b h)

pub make-IsSound : (capacity : ℕ) → IsSound (make capacity)
unfolding make
make-IsSound capacity = (omega arith, tt)

cursor-add_all : (is : List Item) (b : LogBuffer) → cursor (add_all is b) ≡ cursor b + length is
unfolding add_all cursor add
cursor-add_all [] b = omega arith
cursor-add_all (i ∷ is) b = omega (arith, cursor-add_all is (add i b))

entries_sound :
    (is : List Item) (b : LogBuffer)
    → IsSound b
    → entries (cursor b) (add_all is b) ≡ last_of b.capacity (numbered (b.seq + 1) is)
unfolding entries cursor last_of
entries_sound is b h =
    let new = numbered (b.seq + 1) is in
    let total = length-append {0} b.kept new in
    let same : length (b.kept ++ new) - b.capacity - length b.kept ≡ length new - b.capacity =
      omega (arith, total) in
    ap (newer b.seq) (add_all-kept is b h.0)
    ∙ newer-drop b.seq (length (b.kept ++ new) - b.capacity) (b.seq + 1) b.kept is h.1 (omega arith)
    ∙ ap (λ m. drop m new) same

length-numbered : (n : ℕ) (is : List Item) → length (numbered n is) ≡ length is
length-numbered n [] = refl
length-numbered n (i ∷ is) = ap suc (length-numbered (n + 1) is)

capacity-add_all : (is : List Item) (b : LogBuffer) → (add_all is b).capacity ≡ b.capacity
unfolding add_all add
capacity-add_all [] b = refl
capacity-add_all (i ∷ is) b = capacity-add_all is (add i b)

capacity-make : (capacity : ℕ) → (make capacity).capacity ≡ capacity
unfolding make
capacity-make capacity = refl

seq_before :
    (before : List Item) (capacity : ℕ) → (add_all before (make capacity)).seq ≡ length before
unfolding cursor make
seq_before before capacity = omega (arith, cursor-add_all before (make capacity))

-- A client that polls a buffer of any history with its last cursor gets, of the lines added since
-- then, the last ones that the capacity holds, each once, numbered in the order in which they came;
-- and all of them if they are not more than the capacity. The cursor has grown by their number.
pub entries-add_all :
    (capacity : ℕ) (before is : List Item)
    → let b = add_all before (make capacity) in
      (entries (cursor b) (add_all is b) ≡ last_of capacity (numbered (length before + 1) is))
      × (length is ≤ capacity → entries (cursor b) (add_all is b) ≡ numbered (length before + 1) is)
      × (cursor (add_all is b) ≡ length before + length is)
unfolding cursor add_all
entries-add_all capacity before is =
    let b = add_all before (make capacity) in
    let sound = IsSound-add_all before (make capacity) (make-IsSound capacity) in
    let cap : b.capacity ≡ capacity =
      capacity-add_all before (make capacity) ∙ capacity-make capacity in
    let at : b.seq ≡ length before = seq_before before capacity in
    let last =
      entries_sound is b sound
      ∙ ap (λ c. last_of c (numbered (b.seq + 1) is)) cap
      ∙ ap (λ n. last_of capacity (numbered (n + 1) is)) at in
    (
      last,
      λ few.
          last
          ∙ last_of_all capacity (numbered (length before + 1) is)
              (omega (arith, few, length-numbered (length before + 1) is)),
      cursor-add_all is b ∙ ap (λ n. n + length is) at,
    )
