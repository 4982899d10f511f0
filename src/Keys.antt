-- ===== src/Keys.antt =====
-- tools/uvk5_keys.py and tools/key.py: the key names, and the presses of a command line.
mod Tests
use uv_k5_v3_emulator.Common.{
  ℕ, Bool, false, Option, none, some, List, [], ◌∷◌, ◌++◌, ◌||◌, ◌==◌, if◌then◌else◌, not, length,
}
use uv_k5_v3_emulator.Common.Text.{Text}
use uv_k5_v3_emulator.Common.Chars.{chars, trim, upper}
use uv_k5_v3_emulator.Common.Words.{bytes_eq}
use uv_k5_v3_emulator.Common.Result.{Result, ok, err}

-- `KEYS`
abbrev pub keys : List Text
keys =
    chars "MENU"
    ∷ chars "UP"
    ∷ chars "DOWN"
    ∷ chars "EXIT"
    ∷ chars "F"
    ∷ chars "STAR"
    ∷ chars "0"
    ∷ chars "1"
    ∷ chars "2"
    ∷ chars "3"
    ∷ chars "4"
    ∷ chars "5"
    ∷ chars "6"
    ∷ chars "7"
    ∷ chars "8"
    ∷ chars "9"
    ∷ chars "SIDE1"
    ∷ chars "SIDE2"
    ∷ []

unfoldable pub in_list : Text → List Text → Bool
unfolding bytes_eq
in_list key [] = false
in_list key (k ∷ ks) = bytes_eq key k || in_list key ks

-- `normalise`; the empty text stands for `None` too.
unfoldable pub normalise : Text → Text
normalise name = upper (trim name)

unfoldable pub is_valid : Text → Bool
is_valid name = in_list (normalise name) keys

-- What tools/key.py does to the radio: it sets the property "press", or sleeps for a number of ms.
pub data Act : Type 0 where
  set_key : Text → Act
  sleep : ℕ → Act

abbrev pub default_hold_ms : ℕ
default_hold_ms = 200

abbrev pub long_hold_ms : ℕ
long_hold_ms = 900

abbrev pub gap_ms : ℕ
gap_ms = 400

-- `press`
unfoldable pub press : Text → ℕ → List Act
press key hold_ms = set_key key ∷ sleep hold_ms ∷ set_key [] ∷ sleep gap_ms ∷ []

unfoldable pub unknown_keys : List Text → List Text
unknown_keys [] = []
unknown_keys (k ∷ ks) =
    let rest = unknown_keys ks in if in_list (upper k) keys then rest else k ∷ rest

-- `hold = args.hold if args.hold else ...`: a hold of 0 counts as none.
abbrev pub hold_of : Option ℕ → Bool → ℕ
hold_of none long = if long then long_hold_ms else default_hold_ms
hold_of (some hold) long =
    if not (hold == 0) then hold else if long then long_hold_ms else default_hold_ms

unfoldable pub press_all : List Text → ℕ → List Act
press_all [] hold = []
press_all (k ∷ ks) hold = press (upper k) hold ++ press_all ks hold

pub data UsageError : Type 0 where
  no_keys : UsageError
  unknown : List Text → UsageError

abbrev pub known : List Text → List Act → Result UsageError (List Act)
known [] acts = ok acts
known (k ∷ ks) acts = err (unknown (k ∷ ks))

-- `main` without `--list`: what it does once it is connected. A hold is not negative.
unfoldable pub run : List Text → Option ℕ → Bool → Result UsageError (List Act)
run names hold long =
    if length names == 0
    then err no_keys
    else known (unknown_keys names) (press_all names (hold_of hold long))
