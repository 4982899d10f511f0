-- ===== src/Apps/Header.antt =====
-- `parse` and `build` of tools/uvk5_apps.py: a .app blob is a 64-byte header and its code.
pub mod Fields
pub mod RoundTrip
use Prim.Native.Nat.{bit_and, bit_or}
use Prim.Native.String.{String}
use text.Mathlib.Text.{◌==◌ as str_eq}
use uv_k5_v3_emulator.Common.{
  ℕ, ◌+◌, ◌*◌, ◌/◌, ◌^◌, Bool, true, false, Option, none, some, List, [], ◌∷◌, ◌++◌, ◌&&◌, ◌||◌,
  ltb, leb, ◌==◌, if◌then◌else◌, length, take, not,
}
use uv_k5_v3_emulator.Common.Slices.{slice}
use uv_k5_v3_emulator.Common.Words.{Bytes, pack16, pack32, byte_at, u16_at, u32_at}
use uv_k5_v3_emulator.Common.Text.{Text, before_nul, decode_ascii, encode_ascii, pad_nul, strip}
use uv_k5_v3_emulator.Common.Crc32.{crc32}
use uv_k5_v3_emulator.Common.Result.{Result, ok, err, ◌>>=◌, ◌>>◌, raise_if}

-- "FAP1"
abbrev pub app_magic : ℕ
app_magic = 0x31504146

abbrev pub hdr_version_written : ℕ
hdr_version_written = 1

abbrev pub app_overlay_max : ℕ
app_overlay_max = 0x1000

abbrev pub name_len : ℕ
name_len = 16

abbrev pub hdr_size : ℕ
hdr_size = 64

abbrev pub flag_committed : ℕ
flag_committed = 0x0001

abbrev pub flag_screen_saver : ℕ
flag_screen_saver = 0x0002

abbrev pub flag_shortcut_mask : ℕ
flag_shortcut_mask = 0x0F00

abbrev pub shortcuts : List (ℕ × String)
shortcuts = (0x01, "fm") ∷ (0x02, "foxhunt") ∷ (0x04, "beacon") ∷ (0x08, "beam") ∷ []

abbrev pub overlay_vma : ℕ
overlay_vma = 0x20000280

-- Why a blob or an edit is refused; the last two are exceptions of Python's own.
pub data AppError : Type 0 where
  slot_out_of_range : ℕ → AppError
  too_short : ℕ → AppError
  bad_magic : AppError
  bad_version : ℕ → AppError
  bad_code_size : ℕ → AppError
  code_missing : ℕ → AppError
  crc_mismatch : ℕ → ℕ → AppError
  bad_vma : ℕ → AppError
  code_too_large : ℕ → AppError
  bad_text : AppError
  unknown_shortcut : AppError
  image_too_small : ℕ → AppError
  occupied : ℕ → AppError
  encode_error : AppError
  struct_error : AppError

-- `_text`
unfoldable pub text_of : Bytes → Text
text_of raw = strip (decode_ascii (before_nul raw))

-- `SHORTCUTS.get(key, "none")`
unfoldable pub shortcut_get : ℕ → List (ℕ × String) → String
shortcut_get key [] = "none"
shortcut_get key ((k, v) ∷ rest) = if key == k then v else shortcut_get key rest

-- `[k for k, v in SHORTCUTS.items() if v == shortcut]`
unfoldable pub shortcut_keys : String → List (ℕ × String) → List ℕ
shortcut_keys shortcut [] = []
shortcut_keys shortcut ((k, v) ∷ rest) =
    let found = shortcut_keys shortcut rest in if str_eq v shortcut then k ∷ found else found

pub record Info : Type 0 where
  pub magic : ℕ
  pub hdr_version : ℕ
  pub abi : ℕ
  pub api_min : ℕ
  pub code_size : ℕ
  pub crc : ℕ
  pub entry_off : ℕ
  pub flags : ℕ
  pub name : Text
  pub version : Text
  pub vma : ℕ
  pub capabilities : ℕ
  pub committed : Bool
  pub screen_saver : Bool
  pub shortcut : String
  pub total : ℕ

-- The fields of the header.
unfoldable pub header_info : Bytes → Info
header_info blob =
    let flags' = u16_at blob 18 in
    record {
      magic = u32_at blob 0;
      hdr_version = u16_at blob 4;
      abi = byte_at blob 6;
      api_min = byte_at blob 7;
      code_size = u32_at blob 8;
      crc = u32_at blob 12;
      entry_off = u16_at blob 16;
      flags = flags';
      name = text_of (slice blob 20 36);
      version = text_of (slice blob 36 52);
      vma = u32_at blob 52;
      capabilities = u32_at blob 56;
      committed = not (bit_and flags' flag_committed == 0);
      screen_saver = not (bit_and flags' flag_screen_saver == 0);
      shortcut = shortcut_get (bit_and flags' flag_shortcut_mask / 2 ^ 8) shortcuts;
      total = hdr_size + u32_at blob 8;
    }

-- What `parse` checks only if it is strict.
unfoldable pub strict_checks : Bytes → Info → Result AppError Info
strict_checks blob info = do
  raise_if (not (info.hdr_version == hdr_version_written)) (bad_version info.hdr_version)
  raise_if (info.code_size == 0 || ltb app_overlay_max info.code_size)
      (bad_code_size info.code_size)
  raise_if (ltb (length blob) (hdr_size + info.code_size)) (code_missing info.code_size)
  let actual = crc32 (slice blob hdr_size (hdr_size + info.code_size))
  raise_if (not (actual == info.crc)) (crc_mismatch actual info.crc)
  raise_if (not (info.vma == overlay_vma)) (bad_vma info.vma)
  ok info

unfoldable pub parse : Bytes → Bool → Result AppError Info
parse blob strict = do
  raise_if (ltb (length blob) hdr_size) (too_short (length blob))
  raise_if (not (u32_at blob 0 == app_magic)) bad_magic
  let info = header_info blob
  if strict then strict_checks blob info else ok info

-- The guard on a name or a version in `build`.
abbrev pub bad_label : Text → Bool
bad_label text = length text == 0 || leb name_len (length text)

abbrev pub or_encode_error : Option Bytes → Result AppError Bytes
or_encode_error none = err encode_error
or_encode_error (some bs) = ok bs

-- The flags with the bit of the shortcut's name.
unfoldable pub with_shortcut : String → ℕ → Result AppError ℕ
with_shortcut shortcut flags =
    if str_eq shortcut "none" then ok flags else elim (shortcut_keys shortcut shortcuts) [
      | [] ↦ err unknown_shortcut
      | key ∷ rest ↦ ok (bit_or flags (key * 2 ^ 8))
    ]

unfoldable pub header_bytes : Bytes → Bytes → Bytes → ℕ → ℕ → ℕ → ℕ → Bytes
header_bytes code name version abi api_min flags capabilities =
    pack32 app_magic
    ++ (pack16 hdr_version_written
        ++ (abi ∷ api_min ∷ pack32 (length code)
            ++ (pack32 (crc32 code)
                ++ (pack16 0
                    ++ (pack16 flags
                        ++ (pad_nul name_len (take 15 name)
                            ++ (pad_nul name_len (take 15 version)
                                ++ (pack32 overlay_vma ++ (pack32 capabilities ++ pack32 0)))))))))

unfoldable pub build : Bytes → Text → Text → ℕ → ℕ → String → ℕ → ℕ → Result AppError Bytes
build code name version abi api_min shortcut flags capabilities = do
  raise_if (ltb app_overlay_max (length code)) (code_too_large (length code))
  raise_if (bad_label name || bad_label version) bad_text
  flags' ← with_shortcut shortcut flags
  name' ← or_encode_error (encode_ascii name)
  version' ← or_encode_error (encode_ascii version)
  raise_if (leb 0x100 abi || leb 0x100 api_min || leb 0x10000 flags' || leb (2 ^ 32) capabilities)
      struct_error
  ok (header_bytes code name' version' abi api_min flags' capabilities ++ code)
