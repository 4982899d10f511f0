-- ===== src/Common/Chars.antt =====
-- Methods of `str` on any characters, and the code points of a literal.
use Prim.Native.Char.{code}
use Prim.Native.String.{String}
use uv_k5_v3_emulator.Common.{
  ℕ, ◌+◌, ◌-◌, Bool, [], ◌∷◌, ◌++◌, ◌&&◌, ◌||◌, leb, ◌==◌, if◌then◌else◌,
}
use uv_k5_v3_emulator.Common.Text.{Text, is_space}

-- The code points of a text.
abbrev pub chars : String → Text
chars String.[] = []
chars (String.◌∷◌ c cs) = code c ∷ chars cs

-- The characters that `str.strip` removes and `str.split` splits at.
unfoldable pub is_blank : ℕ → Bool
unfolding is_space
is_blank c =
    is_space c
    || c == 0x85
    || c == 0xa0
    || c == 0x1680
    || (leb 0x2000 c && leb c 0x200a)
    || c == 0x2028
    || c == 0x2029
    || c == 0x202f
    || c == 0x205f
    || c == 0x3000

unfoldable pub trim_left : Text → Text
trim_left [] = []
trim_left (c ∷ cs) = if is_blank c then trim_left cs else c ∷ cs

unfoldable pub trim_right : Text → Text
trim_right [] = []
trim_right (c ∷ cs) = elim (trim_right cs) [
  | [] ↦ if is_blank c then [] else c ∷ []
  | d ∷ ds ↦ c ∷ d ∷ ds
]

-- `cs.strip()`
unfoldable pub trim : Text → Text
unfolding trim_left trim_right is_blank
trim cs = trim_right (trim_left cs)

-- `c.upper()` of the characters whose capitals are ASCII; the capitals of the others are not, and stand
-- for themselves.
unfoldable pub upper_char : ℕ → Text
upper_char c =
    if leb 0x61 c && leb c 0x7a
    then (c - 0x20) ∷ []
    else if c == 0x131
    then chars "I"
    else if c == 0x17f
    then chars "S"
    else if c == 0xdf
    then chars "SS"
    else if c == 0xfb00
    then chars "FF"
    else if c == 0xfb01
    then chars "FI"
    else if c == 0xfb02
    then chars "FL"
    else if c == 0xfb03
    then chars "FFI"
    else if c == 0xfb04
    then chars "FFL"
    else if c == 0xfb05 || c == 0xfb06
    then chars "ST"
    else c ∷ []

unfoldable pub upper : Text → Text
unfolding upper_char
upper [] = []
upper (c ∷ cs) = upper_char c ++ upper cs

-- `c.lower()` of the characters whose small letters are ASCII.
unfoldable pub lower_char : ℕ → ℕ
lower_char c = if leb 0x41 c && leb c 0x5a then c + 0x20 else if c == 0x212a then 0x6b else c

unfoldable pub lower : Text → Text
unfolding lower_char
lower [] = []
lower (c ∷ cs) = lower_char c ∷ lower cs
