-- ===== src/Apps/Image/Tests.antt =====
-- The app functions at a small blob and an erased 2 MB flash image.
use uv_k5_v3_emulator.Common.{
  ℕ, ◌+◌, ◌≡◌, ◌++◌, ◌≢◌, ◌↔◌, ◌≤◌, ◌<◌, refl, arith, length, none, some, List, [], ◌∷◌, replicate,
  take, length-replicate, true, false, inl, ltb-false, ◌/◌, ◌^◌, ◌==◌, get_elem?, Option,
}
use uv_k5_v3_emulator.Common.Slices.{slice, fill}
use uv_k5_v3_emulator.Common.Words.{Bytes, IsBytes}
use uv_k5_v3_emulator.Common.Text.{Text, strip, pad_nul, encode_ascii}
use uv_k5_v3_emulator.Common.Crc32.{crc32}
use uv_k5_v3_emulator.Common.Result.{ok}
use uv_k5_v3_emulator.Apps.Header.{
  Info, build, parse, with_shortcut, hdr_size, too_short, flag_committed, header_bytes,
  shortcut_keys, shortcut_get, shortcuts, flag_shortcut_mask, flag_screen_saver,
}
use uv_k5_v3_emulator.Apps.Header.Fields.{IsLabel}
use uv_k5_v3_emulator.Apps.Header.RoundTrip.{beam, given_info, parse-build, shortcut_round_trip}
use uv_k5_v3_emulator.Apps.Image.{
  Content, app, slot_count, slot_base, install, erase, install_file, read_slot, slot_stride,
  code_offset,
}
use Prim.Native.Nat.{bit_and}
use uv_k5_v3_emulator.Apps.Image.Table.{Row, row_of, apps_json, apps_json_lem}
use uv_k5_v3_emulator.Apps.Image.Local.{base_of}
use uv_k5_v3_emulator.Apps.Image.Install.{
  MayWrite, install_lem, install-ok_iff, install_file_refused,
}
use uv_k5_v3_emulator.Apps.Image.Erase.{erase_lem}
use uv_k5_v3_emulator.Apps.Radio.{parse_radio_reply, holds_app, app_of}
use uv_k5_v3_emulator.Apps.Radio.Told.{parse_radio_reply-parse}

abbrev flash : Bytes
flash = replicate 0x200000 0xff

length-flash : length flash ≡ 0x200000
length-flash = length-replicate 0x200000 0xff

abbrev code : Bytes
code = 0x70 ∷ 0x47 ∷ []

-- "Hi"
abbrev label : Text
label = 0x48 ∷ 0x69 ∷ []

label-IsLabel : IsLabel label
unfolding strip
label-IsLabel = record { plain = omega arith; stripped = refl }

abbrev blob : Bytes
blob = header_bytes code label label 1 1 0x0801 7 ++ code

built_blob : build code label label 1 1 "beam" flag_committed 7 ≡ ok blob
unfolding build with_shortcut shortcut_keys encode_ascii
built_blob = refl

abbrev blob_info : Info
blob_info = given_info code label label 1 1 "beam" beam flag_committed 7

parse-build_example :
    (parse blob true ≡ ok (given_info code label label 1 1 "beam" beam flag_committed 7))
    × (slice blob 64 (64 + length code) ≡ code)
parse-build_example =
    parse-build code label label 1 1 "beam" flag_committed 7 blob beam label-IsLabel label-IsLabel
      (omega arith) (omega arith) built_blob

parsed_blob : parse blob true ≡ ok blob_info
parsed_blob = parse-build_example.0

shortcut_round_trip_example :
    (flags : ℕ) × (with_shortcut "beam" flag_committed ≡ ok flags)
    × (shortcut_get (bit_and flags flag_shortcut_mask / 2 ^ 8) shortcuts ≡ "beam")
    × ((bit_and flags flag_committed == 0) ≡ false)
    × ((bit_and flags flag_screen_saver == 0) ≡ true)
    × (flags < 0x10000)
shortcut_round_trip_example = shortcut_round_trip "beam" beam

install-ok_iff_example : ((out : Bytes) × (install flash 3 blob true ≡ ok (blob_info, out))) ↔ (
    (parse blob true ≡ ok blob_info)
    × (3 < 16)
    × (base_of 3 + slot_stride ≤ length flash)
    × MayWrite flash 3 true)
install-ok_iff_example = install-ok_iff flash 3 blob true blob_info

installed_flash : (out : Bytes) × (install flash 3 blob true ≡ ok (blob_info, out))
installed_flash =
    (install-ok_iff flash 3 blob true blob_info).1
      (parsed_blob, omega arith, omega (arith, length-flash), inl refl)

blob-IsBytes : IsBytes blob
unfolding header_bytes crc32 pad_nul take replicate
blob-IsBytes = omega arith

install_lem_example :
    (parse blob true ≡ ok blob_info)
    × (length installed_flash.0 ≡ length flash)
    × (read_slot installed_flash.0 3 ≡ ok (some (app blob_info)))
    × (slice installed_flash.0 (base_of 3 + code_offset) (base_of 3 + code_offset + 2)
        ≡ slice blob hdr_size (hdr_size + 2))
    × (crc32 (slice installed_flash.0 (base_of 3 + code_offset) (base_of 3 + code_offset + 2))
        ≡ crc32 code)
    × ((t : ℕ) → 3 ≢ t → read_slot installed_flash.0 t ≡ read_slot flash t)
install_lem_example =
    install_lem flash 3 blob true blob_info installed_flash.0 blob-IsBytes installed_flash.1

install_file_refused_example : (install_file flash 3 code false).1 ≡ flash
unfolding install_file install parse
install_file_refused_example = install_file_refused flash 3 code false (too_short 2) refl

erased_flash : (out : Bytes) × (erase installed_flash.0 3 ≡ ok (base_of 3, out))
unfolding erase slot_base
erased_flash =
    let held =
      ltb-false (length installed_flash.0) (base_of 3 + slot_stride)
        (omega (arith, length-flash, install_lem_example.1)) in
    (fill installed_flash.0 (base_of 3) slot_stride 0xff, rw held)

erase_lem_example :
    (base_of 3 ≡ base_of 3)
    × (length erased_flash.0 ≡ length installed_flash.0)
    × (read_slot erased_flash.0 3 ≡ ok none)
    × ((t : ℕ) → 3 ≢ t → read_slot erased_flash.0 t ≡ read_slot installed_flash.0 t)
erase_lem_example = erase_lem installed_flash.0 3 (base_of 3) erased_flash.0 erased_flash.1

apps_json_lem_example :
    (rows : List Row) × (apps_json installed_flash.0 ≡ ok rows)
    × (length rows ≡ slot_count)
    × ((i : ℕ)
        → i < slot_count
        → (found : Option Content) × (read_slot installed_flash.0 i ≡ ok found)
          × (get_elem? rows i ≡ some (row_of i (base_of i) found)))
apps_json_lem_example = apps_json_lem installed_flash.0

parse_radio_reply-parse_example :
    parse_radio_reply (3 ∷ 1 ∷ (slice blob 0 64 ++ [])) ≡ holds_app 3 1 (app_of blob_info)
parse_radio_reply-parse_example =
    parse_radio_reply-parse 3 1 blob [] blob_info blob-IsBytes parsed_blob
