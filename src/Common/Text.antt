-- ===== src/Common/Text.antt =====
-- Texts of a header field: a `str` is the list of its code points.
use uv_k5_v3_emulator.Common.{
  ℕ, zero, suc, ◌-◌, ◌≤◌, ◌<◌, ◌≡◌, refl, Bool, Option, none, some, List, [], ◌∷◌, ◌++◌, ◌&&◌, ◌||◌,
  arith, ltb, leb, ◌==◌, if◌then◌else◌, length, take, replicate, length-append, length-replicate,
  ap,
}
use uv_k5_v3_emulator.Common.Words.{Bytes, IsBytes}

abbrev pub Text : Type 0
Text = List ℕ

-- `raw.split(b"\x00", 1)[0]`
unfoldable pub before_nul : Bytes → Bytes
before_nul [] = []
before_nul (b ∷ bs) = if b == 0 then [] else b ∷ before_nul bs

-- `.decode("ascii", "replace")`
unfoldable pub decode_ascii : Bytes → Text
decode_ascii [] = []
decode_ascii (b ∷ bs) = (if ltb b 0x80 then b else 0xfffd) ∷ decode_ascii bs

-- `.encode("ascii")`; `none` is the UnicodeEncodeError.
unfoldable pub encode_ascii : Text → Option Bytes
encode_ascii [] = some []
encode_ascii (c ∷ cs) = elim (encode_ascii cs) [
  | none ↦ none
  | some bs ↦ if ltb c 0x80 then some (c ∷ bs) else none
]

-- `.encode("ascii", "replace")`
unfoldable pub encode_replace : Text → Bytes
encode_replace [] = []
encode_replace (c ∷ cs) = (if ltb c 0x80 then c else 0x3f) ∷ encode_replace cs

-- `bs.ljust(n, b"\x00")`
unfoldable pub pad_nul : ℕ → Bytes → Bytes
pad_nul n bs = bs ++ replicate (n - length bs) 0

-- The characters below 128 that `str.strip` removes.
unfoldable pub is_space : ℕ → Bool
is_space c = (leb 9 c && leb c 13) || (leb 0x1c c && leb c 0x20)

unfoldable pub strip_left : Text → Text
strip_left [] = []
strip_left (c ∷ cs) = if is_space c then strip_left cs else c ∷ cs

unfoldable pub strip_right : Text → Text
strip_right [] = []
strip_right (c ∷ cs) = elim (strip_right cs) [
  | [] ↦ if is_space c then [] else c ∷ []
  | d ∷ ds ↦ c ∷ d ∷ ds
]

unfoldable pub strip : Text → Text
unfolding strip_left strip_right is_space
strip cs = strip_right (strip_left cs)

-- Every character is ASCII and none is NUL: the texts that a padded field can hold.
abbrev pub IsPlain : Text → Type 0
IsPlain [] = Unit
IsPlain (c ∷ cs) = ((0 < c) × (c < 0x80)) × IsPlain cs

pub encode_ascii-IsPlain : (cs : Text) → IsPlain cs → encode_ascii cs ≡ some cs
unfolding encode_ascii
encode_ascii-IsPlain [] h = refl
encode_ascii-IsPlain (c ∷ cs) h = ground (arith, encode_ascii-IsPlain cs h.1)

pub encode_replace-IsPlain : (cs : Text) → IsPlain cs → encode_replace cs ≡ cs
unfolding encode_replace
encode_replace-IsPlain [] h = refl
encode_replace-IsPlain (c ∷ cs) h = ground (arith, encode_replace-IsPlain cs h.1)

pub decode_ascii-IsPlain : (cs : Text) → IsPlain cs → decode_ascii cs ≡ cs
unfolding decode_ascii
decode_ascii-IsPlain [] h = refl
decode_ascii-IsPlain (c ∷ cs) h = ground (arith, decode_ascii-IsPlain cs h.1)

before_nul-zeros : (n : ℕ) → before_nul (replicate n 0) ≡ []
unfolding before_nul replicate
before_nul-zeros zero = refl
before_nul-zeros (suc n) = refl

pub before_nul-append_zeros :
    (cs : Text) (n : ℕ) → IsPlain cs → before_nul (cs ++ replicate n 0) ≡ cs
unfolding before_nul
before_nul-append_zeros [] n h = before_nul-zeros n
before_nul-append_zeros (c ∷ cs) n h = ground (arith, before_nul-append_zeros cs n h.1)

-- A padded field gives its text back.
pub before_nul-pad_nul : (n : ℕ) (cs : Text) → IsPlain cs → before_nul (pad_nul n cs) ≡ cs
unfolding pad_nul
before_nul-pad_nul n cs h = before_nul-append_zeros cs (n - length cs) h

pub length-pad_nul : (n : ℕ) (bs : Bytes) → length bs ≤ n → length (pad_nul n bs) ≡ n
unfolding pad_nul
length-pad_nul n bs h = omega (
  arith,
  length-append {0} bs (replicate (n - length bs) 0),
  length-replicate {0} {A = ℕ} (n - length bs) 0,
)

pub take_all : (n : ℕ) (bs : Bytes) → length bs ≤ n → take n bs ≡ bs
unfolding take
take_all zero [] h = refl
take_all zero (b ∷ bs) h = absurd (omega arith)
take_all (suc n) [] h = refl
take_all (suc n) (b ∷ bs) h = ap (λ r. b ∷ r) (take_all n bs (omega arith))

-- Every byte of an encoding that replaces is a byte, whatever the text.
pub IsBytes-encode_replace : (cs : Text) → IsBytes (encode_replace cs)
unfolding encode_replace
IsBytes-encode_replace [] = tt
IsBytes-encode_replace (c ∷ cs) = ground (arith, IsBytes-encode_replace cs)

-- A text with no space at either end.
abbrev pub IsStripped : Text → Type 0
IsStripped cs = strip cs ≡ cs
