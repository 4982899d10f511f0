-- ===== src/Web/Key.antt =====
-- `api_key`, `api_ptt` and `api_release_all` of tools/webui.py.
pub mod Held
use uv_k5_v3_emulator.Common.{
  ℕ, Bool, true, false, Option, none, some, List, [], ◌∷◌, ◌++◌, ◌==◌, if◌then◌else◌, leb, min, ◌⊎◌,
  inl, inr,
}
use uv_k5_v3_emulator.Common.Text.{Text}
use uv_k5_v3_emulator.Common.Signed.{ℤ, pos, negsuc}
use uv_k5_v3_emulator.Common.Words.{bytes_eq}
use uv_k5_v3_emulator.Common.Chars.{chars, trim, lower}
use uv_k5_v3_emulator.Keys.{normalise, is_valid}
use uv_k5_v3_emulator.Web.{
  Exception, Effect, slept, logged, Notice, key_rejected, key_down, key_up, key_tap, key_ignored,
  ptt_ignored, ptt_is, Target, Ran, gave, threw, before, ◌>>◌, effect, set_press, set_ptt, Reply,
  replied, refused, crashed, unknown_key, unknown_action, hold_no_number, hold_negative,
  held_no_boolean, is_off,
}

-- A field of the JSON body: missing or a value that counts as false, a text that is not empty, or
-- another value.
pub data Field : Type 0 where
  falsy : Field
  text : Text → Field
  other : Field

-- What `int` makes of the field `hold_ms`, if it is there and not null.
pub data Hold : Type 0 where
  missing : Hold
  no_number : Hold
  number : ℤ → Hold
  -- `int` of an infinity, an OverflowError
  overflow : Hold

pub record KeyBody : Type 0 where
  pub key : Field
  pub action : Field
  pub hold_ms : Hold

pub data Press : Type 0 where
  down : Press
  up : Press
  tap : Press

abbrev pub tap_ms : ℕ
tap_ms = 60

abbrev pub max_hold_ms : ℕ
max_hold_ms = 5000

abbrev pub firmware_held_ms : ℕ
firmware_held_ms = 400

abbrev pub KeyReply : Type 0
KeyReply = Reply (Text × Press × ℕ) × List Effect

-- The AttributeError of a method that a value does not have, and the OverflowError.
abbrev pub attribute_error : Exception
attribute_error = record { is_lookup = false; text = [] }

abbrev pub overflow_error : Exception
overflow_error = record { is_lookup = false; text = [] }

-- `value or default`, where a method of texts is called on it next
abbrev pub text_of : Text → Field → Option Text
text_of default falsy = some default
text_of default (text cs) = some cs
text_of default other = none

unfoldable pub press_of : Text → Option Press
press_of action =
    if bytes_eq action (chars "down")
    then some down
    else if bytes_eq action (chars "up")
    then some up
    else if bytes_eq action (chars "tap")
    then some tap
    else none

-- The milliseconds of the hold, or the reply that ends the request.
unfoldable pub hold_of : Hold → ℕ ⊎ Reply (Text × Press × ℕ)
hold_of missing = inl tap_ms
hold_of no_number = inr (refused 400 hold_no_number)
hold_of (number (pos n)) = inl (min n max_hold_ms)
hold_of (number (negsuc n)) = inr (refused 400 hold_negative)
hold_of overflow = inr (crashed overflow_error)

-- What is pressed and released; `first` and `second` are the clients of the two calls of `set_press`.
unfoldable pub pressing : Target → Target → Text → ℕ → Press → Ran (Unit {0})
pressing first second key hold_ms down = effect (logged (key_down key)) >> set_press first key
pressing first second key hold_ms up = effect (logged (key_up key)) >> set_press first []
pressing first second key hold_ms tap =
    effect (logged (key_tap key (leb firmware_held_ms hold_ms) hold_ms))
    >> (set_press first key >> (effect (slept hold_ms) >> set_press second []))

-- `except LookupError`, and the reply
unfoldable pub key_reply : Text → Press → ℕ → Ran (Unit {0}) → KeyReply
key_reply key action hold_ms (gave u effects) = (replied (key, action, hold_ms), effects)
key_reply key action hold_ms (threw e effects) =
    if e.is_lookup
    then (refused 409 is_off, effects ++ logged (key_ignored key) ∷ [])
    else (crashed e, effects)

unfoldable pub key_held : Target → Target → Text → Press → ℕ ⊎ Reply (Text × Press × ℕ) → KeyReply
key_held first second key action (inl hold_ms) =
    key_reply key action hold_ms (pressing first second key hold_ms action)
key_held first second key action (inr reply) = (reply, [])

unfoldable pub key_action : Target → Target → Text → Hold → Option Press → KeyReply
key_action first second key hold none = (refused 400 unknown_action, [])
key_action first second key hold (some action) = key_held first second key action (hold_of hold)

-- Once both fields are texts.
unfoldable pub key_known : Target → Target → Text → Text → Hold → KeyReply
key_known first second name action hold =
    if is_valid (normalise name)
    then key_action first second (normalise name) hold (press_of (lower (trim action)))
    else (refused 400 unknown_key, logged (key_rejected name) ∷ [])

abbrev pub key_texts : Target → Target → Hold → Option Text → Option Text → KeyReply
key_texts first second hold none action = (crashed attribute_error, [])
key_texts first second hold (some name) none = (crashed attribute_error, [])
key_texts first second hold (some name) (some action) = key_known first second name action hold

-- `none` is a body that is no object.
unfoldable pub api_key : Target → Target → Option KeyBody → KeyReply
api_key first second none = (crashed attribute_error, [])
api_key first second (some body) =
    key_texts first second body.hold_ms (text_of [] body.key) (text_of (chars "tap") body.action)

-- `held` of the body, if it is a boolean; the body is no object in the other case.
pub data PttBody : Type 0 where
  no_object : PttBody
  no_boolean : PttBody
  held : Bool → PttBody

abbrev pub PttReply : Type 0
PttReply = Reply Bool × List Effect

unfoldable pub ptt_reply : Bool → Ran (Unit {0}) → PttReply
ptt_reply value (gave u effects) = (replied value, effects ++ logged (ptt_is value) ∷ [])
ptt_reply value (threw e effects) =
    if e.is_lookup
    then (refused 409 is_off, effects ++ logged ptt_ignored ∷ [])
    else (crashed e, effects)

unfoldable pub api_ptt : Target → PttBody → PttReply
api_ptt target no_object = (crashed attribute_error, [])
api_ptt target no_boolean = (refused 400 held_no_boolean, [])
api_ptt target (held value) = ptt_reply value (set_ptt target value)

abbrev pub ReleaseReply : Type 0
ReleaseReply = Reply (Unit {0}) × List Effect

unfoldable pub release_reply : Ran (Unit {0}) → ReleaseReply
release_reply (gave u effects) = (replied tt, effects)
release_reply (threw e effects) =
    if e.is_lookup then (refused 409 is_off, effects) else (crashed e, effects)

unfoldable pub api_release_all : Target → Target → ReleaseReply
api_release_all first second = release_reply (set_press first [] >> set_ptt second false)
