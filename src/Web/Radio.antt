-- ===== src/Web/Radio.antt =====
-- `api_apps_radio` of tools/webui.py: the radio is asked what it sees in each app slot.
use uv_k5_v3_emulator.Common.{ℕ, zero, suc, ◌+◌, Option, none, some, List, [], ◌∷◌, length}
use uv_k5_v3_emulator.Common.Text.{Text}
use uv_k5_v3_emulator.Common.Words.{Bytes}
use uv_k5_v3_emulator.Common.Result.{Result, ok, err}
use uv_k5_v3_emulator.Apps.Image
use uv_k5_v3_emulator.Apps.Radio.{RadioReply, parse_radio_reply}
use uv_k5_v3_emulator.SlotRadio.{RadioError, python_error, Replies, session, app_info}
use uv_k5_v3_emulator.Web.{Effect, logged, asked_radio}

-- The slots that were told, with their numbers, and the error that ended the loop.
abbrev pub Asked : Type 0
Asked = Option RadioError × List (ℕ × RadioReply)

abbrev pub put_slot : ℕ × RadioReply → Asked → Asked
put_slot reply (e, slots) = (e, reply ∷ slots)

-- `bytes(None)` is a TypeError.
abbrev pub told_slot : ℕ → ℕ → Result RadioError (Option Bytes) × List Bytes → (ℕ → Asked) → Asked
told_slot slot sent (err e, frames) more = (some e, [])
told_slot slot sent (ok none, frames) more = (some python_error, [])
told_slot slot sent (ok (some raw), frames) more =
    put_slot (slot, parse_radio_reply raw) (more (sent + length frames))

-- The reply: no serial port (409), no connection (503), the error behind the slots told so far (503),
-- or the slots.
pub data AppsReply : Type 0 where
  no_serial_port : AppsReply
  no_connection : Text → AppsReply
  stopped : RadioError → List (ℕ × RadioReply) → AppsReply
  slots_told : List (ℕ × RadioReply) → AppsReply

abbrev pub asked_reply : Asked → AppsReply × List Effect
asked_reply (some e, slots) = (stopped e slots, [])
asked_reply (none, slots) = (slots_told slots, logged (asked_radio (length slots)) ∷ [])

module _ (replies : Replies) (timestamp : ℕ) where
  -- `n` slots from `slot` on, when `sent` frames have been sent.
  unfoldable pub ask_slots : ℕ → ℕ → ℕ → Asked
  ask_slots zero slot sent = (none, [])
  ask_slots (suc n) slot sent =
      told_slot slot sent (app_info replies timestamp slot sent) (ask_slots n (slot + 1))

  unfoldable pub after_session : Result RadioError Text × List Bytes → Asked
  after_session (err e, frames) = (some e, [])
  after_session (ok version, frames) = ask_slots Image.slot_count 0 (length frames)

  -- The argument is what the connection gives: none is no port, an error its text.
  unfoldable pub api_apps_radio : Option (Result Text (Unit {0})) → AppsReply × List Effect
  api_apps_radio none = (no_serial_port, [])
  api_apps_radio (some (err e)) = (no_connection e, [])
  api_apps_radio (some (ok u)) = asked_reply (after_session (session replies timestamp 0))
