-- ===== src/Lcd/Tests.antt =====
-- A status line whose top row is lit, over an empty frame, and an inverted panel.
use uv_k5_v3_emulator.Common.{
  ℕ, ◌%◌, ◌≡◌, ◌<◌, some, replicate, length, length-replicate, true, arith,
}
use uv_k5_v3_emulator.Common.Words.{Bytes}
use uv_k5_v3_emulator.Common.Result.{ok}
use uv_k5_v3_emulator.Lcd.{Pixels, unpack, panel_pixels}
use uv_k5_v3_emulator.Lcd.Bits.{pixel, bit_set}
use uv_k5_v3_emulator.Lcd.Unpack.{byte_of, bit_value, unpack_lem}
use uv_k5_v3_emulator.Lcd.Panel.{Shows, panel_pixels_lem}

abbrev status : Bytes
status = replicate 128 1

abbrev frame : Bytes
frame = replicate 896 0

abbrev gram : Bytes
gram = replicate 1024 0x81

unpack_lem_example :
    (out : Pixels) × (unpack status frame ≡ ok out)
    × ((r c : ℕ)
        → r < 64
        → c < 128
        → (byte : ℕ) × (byte_of status frame r c ≡ some byte)
          × (pixel out r c ≡ some (bit_value (bit_set byte (r % 8)))))
unpack_lem_example =
    unpack_lem status frame (omega (arith, length-replicate {0} {A = ℕ} 128 1))
      (omega (arith, length-replicate {0} {A = ℕ} 896 0))

panel_pixels_lem_example :
    ((out : Pixels) → panel_pixels gram true ≡ ok out → length gram ≡ 1024)
    × (length gram ≡ 1024
        → (out : Pixels) × (panel_pixels gram true ≡ ok out) × Shows gram true out)
panel_pixels_lem_example = panel_pixels_lem gram true

pictured : (out : Pixels) × (panel_pixels gram true ≡ ok out) × Shows gram true out
pictured = panel_pixels_lem_example.1 (length-replicate 1024 0x81)
