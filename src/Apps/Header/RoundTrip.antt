-- ===== src/Apps/Header/RoundTrip.antt =====
-- `parse` undoes `build`.
use Prim.Native.Nat.{bit_and, bit_or}
use Prim.Native.String.{String}
use uv_k5_v3_emulator.Common.{
  ℕ, ◌+◌, ◌*◌, ◌/◌, ◌%◌, ◌^◌, ◌<◌, ◌≡◌, refl, ap, ◌∙◌, Bool, true, false, ◌&&◌, not, ◌==◌, length,
  arith, ltb-false, every_from, every_from-true,
}
use uv_k5_v3_emulator.Common.Slices.{slice}
use uv_k5_v3_emulator.Common.Words.{Bytes}
use uv_k5_v3_emulator.Common.Text.{Text}
use uv_k5_v3_emulator.Common.Crc32.{crc32}
use uv_k5_v3_emulator.Common.Result.{ok}
use uv_k5_v3_emulator.Apps.Header.{
  Info, app_magic, overlay_vma, hdr_size, parse, build, with_shortcut, shortcut_keys, shortcut_get,
  shortcuts, flag_committed, flag_screen_saver, flag_shortcut_mask,
}
use uv_k5_v3_emulator.Apps.Header.Fields.{
  IsLabel, build-Built, built_info, blob, blob-eq, length-blob, word_fields, code_field,
  header_info-blob, strict_checks-blob,
}

-- The blob is parsed with the flags that `with_shortcut` gives.
pub parse-built_info :
    (code : Bytes) (name version : Text) (abi api_min : ℕ) (shortcut : String)
    (flags capabilities : ℕ) (blob : Bytes)
    → IsLabel name
    → IsLabel version
    → 0 < length code
    → build code name version abi api_min shortcut flags capabilities ≡ ok blob
    → (flags' : ℕ) × (with_shortcut shortcut flags ≡ ok flags')
      × (parse blob true ≡ ok (built_info code name version abi api_min flags' capabilities))
      × (slice blob hdr_size (hdr_size + length code) ≡ code)
unfolding parse
parse-built_info code name version abi api_min shortcut flags capabilities blob' nl vl some_code
      built =
    let b =
      build-Built code name version abi api_min shortcut flags capabilities blob' nl.plain vl.plain
        built in
    let small : length code < 2 ^ 32 = omega (arith, b.code_fits) in
    let content : blob' ≡ blob code name version abi api_min b.flags' capabilities =
      b.content ∙ blob-eq code name version abi api_min b.flags' capabilities in
    let long =
      ltb-false (length (blob code name version abi api_min b.flags' capabilities)) 64
        (omega (arith, length-blob code name version abi api_min b.flags' capabilities)) in
    (
      b.flags',
      b.with_flags,
      rw (
        content,
        long,
        (word_fields code name version abi api_min b.flags' capabilities small b.flags_fit).0,
        header_info-blob code name version abi api_min b.flags' capabilities small b.flags_fit
            b.capabilities_fit nl vl b.name_fits b.version_fits,
        strict_checks-blob code name version abi api_min b.flags' capabilities some_code
            b.code_fits,
      ),
      rw content (code_field code name version abi api_min b.flags' capabilities),
    )

-- The names that `build` accepts for a shortcut.
pub data IsShortcut : String → Type 0 where
  no_shortcut : IsShortcut "none"
  fm : IsShortcut "fm"
  foxhunt : IsShortcut "foxhunt"
  beacon : IsShortcut "beacon"
  beam : IsShortcut "beam"

-- The number of a shortcut in the second byte of the flags.
abbrev pub number_of : (name : String) → IsShortcut name → ℕ
number_of _ no_shortcut = 0
number_of _ fm = 1
number_of _ foxhunt = 2
number_of _ beacon = 4
number_of _ beam = 8

-- Flags below 256 with a number above them, bit by bit.
abbrev splits : ℕ → ℕ → Bool
splits n f =
    bit_or f (n * 2 ^ 8) == f + n * 256
    && bit_and (f + n * 256) flag_shortcut_mask / 2 ^ 8 == n
    && bit_and (f + n * 256) flag_committed == f % 2
    && bit_and (f + n * 256) flag_screen_saver == 2 * (f / 2 % 2)

split_table : every_from 0 9 (λ n. every_from 0 256 (λ f. splits n f)) ≡ true
unfolding every_from
split_table = refl

splits_flags : (n f : ℕ) → n < 9 → f < 256 → splits n f ≡ true
splits_flags n f low h =
    every_from-true 0 256 (splits n)
      (every_from-true 0 9 (λ m. every_from 0 256 (λ g. splits m g)) split_table n (omega arith)
        low)
      f (omega arith) h

abbrev Split : ℕ → ℕ → Type 0
Split n f =
    (bit_or f (n * 2 ^ 8) ≡ f + n * 256)
    × (bit_and (f + n * 256) flag_shortcut_mask / 2 ^ 8 ≡ n)
    × (not (bit_and (f + n * 256) flag_committed == 0) ≡ f % 2 == 1)
    × (not (bit_and (f + n * 256) flag_screen_saver == 0) ≡ f / 2 % 2 == 1)

flags-Split : (n f : ℕ) → n < 9 → f < 256 → Split n f
flags-Split n f low h =
    let table = splits_flags n f low h in (ground arith, ground arith, ground arith, ground arith)

-- What the flags that `with_shortcut` gives say.
abbrev Says : (name : String) → IsShortcut name → ℕ → Type 0
Says name s flags =
    let flags' = flags + number_of name s * 256 in
    (with_shortcut name flags ≡ ok flags')
    × (shortcut_get (bit_and flags' flag_shortcut_mask / 2 ^ 8) shortcuts ≡ name)
    × (not (bit_and flags' flag_committed == 0) ≡ flags % 2 == 1)
    × (not (bit_and flags' flag_screen_saver == 0) ≡ flags / 2 % 2 == 1)

with_shortcut-Says :
    (name : String) (s : IsShortcut name) (flags : ℕ) → flags < 256 → Says name s flags
unfolding with_shortcut shortcut_get shortcut_keys
with_shortcut-Says _ no_shortcut flags h =
    let (both, number, committed, saver) = flags-Split 0 flags (omega arith) h in
    let same : flags ≡ flags + 0 * 256 = omega arith in
    (ap ok same, rw number refl, committed, saver)
with_shortcut-Says _ fm flags h =
    let (both, number, committed, saver) = flags-Split 1 flags (omega arith) h in
    (rw both refl, rw number refl, committed, saver)
with_shortcut-Says _ foxhunt flags h =
    let (both, number, committed, saver) = flags-Split 2 flags (omega arith) h in
    (rw both refl, rw number refl, committed, saver)
with_shortcut-Says _ beacon flags h =
    let (both, number, committed, saver) = flags-Split 4 flags (omega arith) h in
    (rw both refl, rw number refl, committed, saver)
with_shortcut-Says _ beam flags h =
    let (both, number, committed, saver) = flags-Split 8 flags (omega arith) h in
    (rw both refl, rw number refl, committed, saver)

-- The fields that were given, as `parse` returns them.
abbrev pub given_info :
    Bytes → Text → Text → ℕ → ℕ → (shortcut : String) → IsShortcut shortcut → ℕ → ℕ → Info
given_info code name version abi api_min shortcut s flags capabilities = record {
  magic = app_magic;
  hdr_version = 1;
  abi = abi;
  api_min = api_min;
  code_size = length code;
  crc = crc32 code;
  entry_off = 0;
  flags = flags + number_of shortcut s * 256;
  name = name;
  version = version;
  vma = overlay_vma;
  capabilities = capabilities;
  committed = flags % 2 == 1;
  screen_saver = flags / 2 % 2 == 1;
  shortcut = shortcut;
  total = 64 + length code;
}

-- A blob that `build` returns, around code that is not empty, with texts that no field changes, a known
-- shortcut or none, and flags below 256, which hold no shortcut of their own: the strict `parse` accepts it and returns every field as
-- it was given, the shortcut by its name, the committed and the screen-saver flag as the two lowest bits
-- of the flags, the code's size and its CRC; and the code is found behind the header.
pub parse-build :
    (code : Bytes) (name version : Text) (abi api_min : ℕ) (shortcut : String)
    (flags capabilities : ℕ) (blob : Bytes) (s : IsShortcut shortcut)
    → IsLabel name
    → IsLabel version
    → 0 < length code
    → flags < 256
    → build code name version abi api_min shortcut flags capabilities ≡ ok blob
    → (parse blob true
        ≡ ok (given_info code name version abi api_min shortcut s flags capabilities))
      × (slice blob 64 (64 + length code) ≡ code)
parse-build code name version abi api_min shortcut flags capabilities blob s nl vl some_code low
      built =
    let (flags', with_flags, parsed, placed) =
      parse-built_info code name version abi api_min shortcut flags capabilities blob nl vl
        some_code built in
    let (gives, named, committed, saver) = with_shortcut-Says shortcut s flags low in
    let same : flags' ≡ flags + number_of shortcut s * 256 = ground (arith, with_flags, gives) in
    (parsed ∙ rw (same, named, committed, saver) refl, placed)

-- Every shortcut name is written into the flags of a committed app such that the reader gets the same
-- name, the committed flag and no screen saver.
pub shortcut_round_trip :
    (name : String)
    → IsShortcut name
    → (flags : ℕ) × (with_shortcut name flag_committed ≡ ok flags)
      × (shortcut_get (bit_and flags flag_shortcut_mask / 2 ^ 8) shortcuts ≡ name)
      × ((bit_and flags flag_committed == 0) ≡ false)
      × ((bit_and flags flag_screen_saver == 0) ≡ true)
      × (flags < 0x10000)
unfolding with_shortcut shortcut_get shortcut_keys
shortcut_round_trip _ no_shortcut = (0x0001, refl, refl, refl, refl, omega arith)
shortcut_round_trip _ fm = (0x0101, refl, refl, refl, refl, omega arith)
shortcut_round_trip _ foxhunt = (0x0201, refl, refl, refl, refl, omega arith)
shortcut_round_trip _ beacon = (0x0401, refl, refl, refl, refl, omega arith)
shortcut_round_trip _ beam = (0x0801, refl, refl, refl, refl, omega arith)
