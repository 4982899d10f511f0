-- ===== src/Apps/Header/Fields.antt =====
-- The fields of a header that `build` has written.
use Prim.Native.Nat.{bit_and}
use Prim.Native.String.{String}
use uv_k5_v3_emulator.Common.{
  ℕ, ◌+◌, ◌/◌, ◌^◌, ◌≤◌, ◌<◌, ◌≡◌, refl, ◌∙◌, false, ◌∷◌, ◌++◌, ◌==◌, ==_refl, length, take, not,
  inl, inr, arith, get_elem?, length-append, ltb-false, length-take,
}
use mathlib.Core.List.{append_assoc}
use uv_k5_v3_emulator.Common.Slices.{slice, slice_middle, slice_suffix}
use uv_k5_v3_emulator.Common.Words.{
  Bytes, pack16, pack32, byte_at, u16_at, u32_at, pack16_value, pack32_value, u32_at_skip,
}
use uv_k5_v3_emulator.Common.Text.{
  Text, pad_nul, IsPlain, IsStripped, encode_ascii-IsPlain, take_all, length-pad_nul,
  before_nul-pad_nul, decode_ascii-IsPlain,
}
use uv_k5_v3_emulator.Common.Crc32.{crc32, crc32-lt}
use uv_k5_v3_emulator.Common.Result.{ok, Result-cases}
use uv_k5_v3_emulator.Apps.Header.{
  Info, app_magic, app_overlay_max, overlay_vma, hdr_size, name_len, header_info, header_bytes,
  strict_checks, build, with_shortcut, text_of, shortcut_get, shortcuts, flag_committed,
  flag_screen_saver, flag_shortcut_mask,
}

-- A label that a header field holds unchanged.
pub record IsLabel (text : Text) : Type 0 where
  pub plain : IsPlain text
  pub stripped : IsStripped text

-- What `build` has checked when it returns.
pub record Built (code : Bytes) (name version : Text) (abi api_min : ℕ) (shortcut : String)
    (flags capabilities : ℕ) (blob : Bytes) : Type 0 where
  pub flags' : ℕ
  pub code_fits : length code ≤ app_overlay_max
  pub name_fits : length name < name_len
  pub version_fits : length version < name_len
  pub with_flags : with_shortcut shortcut flags ≡ ok flags'
  pub abi_fits : abi < 256
  pub api_fits : api_min < 256
  pub flags_fit : flags' < 65536
  pub capabilities_fit : capabilities < 2 ^ 32
  pub content : blob ≡ header_bytes code name version abi api_min flags' capabilities ++ code

pub build-Built :
    (code : Bytes) (name version : Text) (abi api_min : ℕ) (shortcut : String)
    (flags capabilities : ℕ) (blob : Bytes)
    → IsPlain name
    → IsPlain version
    → build code name version abi api_min shortcut flags capabilities ≡ ok blob
    → Built code name version abi api_min shortcut flags capabilities blob
unfolding build
build-Built code name version abi api_min shortcut flags capabilities blob pn pv h =
    elim (Result-cases (with_shortcut shortcut flags)) [
      | inl (f, e) ↦
          let en = encode_ascii-IsPlain name pn in
          let ev = encode_ascii-IsPlain version pv in
          record {
            flags' = f;
            code_fits = ground (arith, e, en, ev);
            name_fits = ground (arith, e, en, ev);
            version_fits = ground (arith, e, en, ev);
            with_flags = e;
            abi_fits = ground (arith, e, en, ev);
            api_fits = ground (arith, e, en, ev);
            flags_fit = ground (arith, e, en, ev);
            capabilities_fit = ground (arith, e, en, ev);
            content = ground (arith, e, en, ev);
          }
      | inr (x, e) ↦ absurd (ground (arith, e))
    ]

abbrev pub built_info : Bytes → Text → Text → ℕ → ℕ → ℕ → ℕ → Info
built_info code name version abi api_min flags capabilities = record {
  magic = app_magic;
  hdr_version = 1;
  abi = abi;
  api_min = api_min;
  code_size = length code;
  crc = crc32 code;
  entry_off = 0;
  flags = flags;
  name = name;
  version = version;
  vma = overlay_vma;
  capabilities = capabilities;
  committed = not (bit_and flags flag_committed == 0);
  screen_saver = not (bit_and flags flag_screen_saver == 0);
  shortcut = shortcut_get (bit_and flags flag_shortcut_mask / 2 ^ 8) shortcuts;
  total = hdr_size + length code;
}

pub text_of_pad :
    (cs : Text) → IsLabel cs → length cs < name_len → text_of (pad_nul name_len (take 15 cs)) ≡ cs
unfolding text_of
text_of_pad cs label fits =
    rw
      (
        take_all 15 cs (omega arith),
        before_nul-pad_nul name_len cs label.plain,
        decode_ascii-IsPlain cs label.plain,
      )
      label.stripped

pub length-field : (cs : Text) → length (pad_nul name_len (take 15 cs)) ≡ 16
length-field cs = length-pad_nul 16 (take 15 cs) (omega (arith, length-take {0} 15 cs))

module _ (code : Bytes) (name version : Text) (abi api_min flags capabilities : ℕ) where
  unfoldable pub fields : Bytes
  fields =
      pack32 app_magic
      ++ (pack16 1
          ++ (abi ∷ api_min ∷ pack32 (length code)
              ++ (pack32 (crc32 code) ++ (pack16 0 ++ pack16 flags))))

  unfoldable pub names : Bytes
  names = pad_nul name_len (take 15 name)

  unfoldable pub versions : Bytes
  versions = pad_nul name_len (take 15 version)

  unfoldable pub tail_fields : Bytes
  tail_fields = pack32 overlay_vma ++ (pack32 capabilities ++ pack32 0)

  unfoldable pub blob : Bytes
  unfolding fields names versions tail_fields
  blob = fields ++ (names ++ (versions ++ (tail_fields ++ code)))

  pub blob-eq : header_bytes code name version abi api_min flags capabilities ++ code ≡ blob
  unfolding header_bytes blob
  blob-eq =
      rw (append_assoc names (versions ++ tail_fields) code, append_assoc versions tail_fields code)

  pub length-blob : length blob ≡ 64 + length code
  unfolding blob
  length-blob = omega (
    arith,
    length-append {0} names (versions ++ (tail_fields ++ code)),
    length-append {0} versions (tail_fields ++ code),
    length-field name,
    length-field version,
  )

  pub word_fields :
      length code < 2 ^ 32
      → flags < 65536
      → (u32_at blob 0 ≡ app_magic)
        × (u16_at blob 4 ≡ 1)
        × (byte_at blob 6 ≡ abi)
        × (byte_at blob 7 ≡ api_min)
        × (u32_at blob 8 ≡ length code)
        × (u32_at blob 12 ≡ crc32 code)
        × (u16_at blob 16 ≡ 0)
        × (u16_at blob 18 ≡ flags)
  unfolding blob u32_at u16_at byte_at get_elem?
  word_fields small fits = (
    refl,
    refl,
    refl,
    refl,
    pack32_value (length code) small,
    pack32_value (crc32 code) (crc32-lt code),
    refl,
    pack16_value flags fits,
  )

  pub name_field : slice blob 20 36 ≡ names
  unfolding blob
  name_field =
      slice_middle fields names (versions ++ (tail_fields ++ code)) 20 36 refl
        (omega (arith, length-field name))

  pub version_field : slice blob 36 52 ≡ versions
  unfolding blob
  version_field =
      slice_middle (fields ++ names) versions (tail_fields ++ code) 36 52
        (omega (arith, length-field name)) (omega (arith, length-field version))

  pub length-names : length names ≡ 16
  unfolding names
  length-names = length-field name

  pub length-versions : length versions ≡ 16
  unfolding versions
  length-versions = length-field version

  pub length-header_bytes :
      length (header_bytes code name version abi api_min flags capabilities) ≡ 64
  unfolding header_bytes names versions tail_fields
  length-header_bytes = omega (
    arith,
    length-append {0} names (versions ++ tail_fields),
    length-append {0} versions tail_fields,
    length-names,
    length-versions,
  )

  pub code_field : slice blob 64 (64 + length code) ≡ code
  code_field = rw (← blob-eq) (
      slice_suffix (header_bytes code name version abi api_min flags capabilities) code 64
        (64 + length code) length-header_bytes refl)

  pub past_names :
      (i : ℕ)
      → u32_at (names ++ (versions ++ (tail_fields ++ code))) (16 + (16 + i))
        ≡ u32_at (tail_fields ++ code) i
  past_names i =
      u32_at_skip names (versions ++ (tail_fields ++ code)) 16 (16 + i) length-names
      ∙ u32_at_skip versions (tail_fields ++ code) 16 i length-versions

  pub vma_field : u32_at blob 52 ≡ overlay_vma
  unfolding blob u32_at byte_at get_elem?
  vma_field = past_names 0

  pub capabilities_field : capabilities < 2 ^ 32 → u32_at blob 56 ≡ capabilities
  unfolding blob u32_at byte_at get_elem?
  capabilities_field fits = past_names 4 ∙ pack32_value capabilities fits

  pub name_text : IsLabel name → length name < name_len → text_of names ≡ name
  unfolding names
  name_text label fits = text_of_pad name label fits

  pub version_text : IsLabel version → length version < name_len → text_of versions ≡ version
  unfolding versions
  version_text label fits = text_of_pad version label fits

  pub header_info-blob :
      length code < 2 ^ 32
      → flags < 65536
      → capabilities < 2 ^ 32
      → IsLabel name
      → IsLabel version
      → length name < name_len
      → length version < name_len
      → header_info blob ≡ built_info code name version abi api_min flags capabilities
  unfolding header_info
  header_info-blob small flags_fit cap_fit nl vl nf vf =
      let (e0, e4, e6, e7, e8, e12, e16, e18) = word_fields small flags_fit in
      rw (
        e0,
        e4,
        e6,
        e7,
        e8,
        e12,
        e16,
        e18,
        vma_field,
        capabilities_field cap_fit,
        name_field,
        version_field,
        name_text nl nf,
        version_text vl vf,
      )

  pub strict_checks-blob :
      0 < length code
      → length code ≤ app_overlay_max
      → strict_checks blob (built_info code name version abi api_min flags capabilities)
        ≡ ok (built_info code name version abi api_min flags capabilities)
  unfolding strict_checks
  strict_checks-blob some_code fits =
      let positive : (length code == 0) ≡ false = ground arith in
      let e = ltb-false (length blob) (64 + length code) (omega (arith, length-blob)) in
      rw (
        positive,
        ltb-false app_overlay_max (length code) fits,
        e,
        code_field,
        ==_refl (crc32 code),
      )
