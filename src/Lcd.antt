-- ===== src/Lcd.antt =====
-- tools/uvk5_lcd.py: the LCD's bytes as pixels, the panel's settings, and the PNG of a screen.
pub mod Bits
pub mod Pages
pub mod Unpack
pub mod Panel
mod Tests
use Prim.Native.Nat.{bit_and}
use uv_k5_v3_emulator.Common.{
  ℕ, zero, suc, ◌+◌, ◌-◌, ◌*◌, ◌/◌, ◌%◌, ◌^◌, Bool, true, false, Option, none, some, List, [], ◌∷◌,
  ◌++◌, map, ltb, ◌==◌, if◌then◌else◌, length, not, get_elem?, replicate,
}
use uv_k5_v3_emulator.Common.Slices.{slice, set}
use uv_k5_v3_emulator.Common.Words.{Bytes}
use uv_k5_v3_emulator.Common.Crc32.{crc32}
use uv_k5_v3_emulator.Common.Result.{Result, ok, err, ◌>>=◌, ◌>>◌, raise_if}

abbrev pub lcd_width : ℕ
lcd_width = 128

abbrev pub lcd_height : ℕ
lcd_height = 64

abbrev pub total_rows : ℕ
total_rows = 8

abbrev pub frame_bytes : ℕ
frame_bytes = 896

abbrev pub status_bytes : ℕ
status_bytes = 128

-- Rows of pixels, the top one first.
abbrev pub Pixels : Type 0
Pixels = List (List ℕ)

pub data LcdError : Type 0 where
  index_error : LcdError
  bad_gram : ℕ → LcdError

-- `pixels[row][col] = 1`
abbrev pub row_of : Option (List ℕ) → List ℕ
row_of none = []
row_of (some row) = row

unfoldable pub light : ℕ → ℕ → Pixels → Pixels
light row col pixels = set pixels row (set (row_of (get_elem? pixels row)) col 1)

-- The loop on `bit`: `n` bits from `bit` on.
unfoldable pub unpack_bits : ℕ → ℕ → ℕ → ℕ → ℕ → Pixels → Pixels
unpack_bits zero bit byte page col pixels = pixels
unpack_bits (suc n) bit byte page col pixels =
    unpack_bits n (bit + 1) byte page col
      (if not (bit_and byte (2 ^ bit) == 0) then light (page * 8 + bit) col pixels else pixels)

abbrev pub byte_or_error : Option ℕ → Result LcdError ℕ
byte_or_error none = err index_error
byte_or_error (some b) = ok b

-- The loop on `col`: `n` columns from `col` on.
unfoldable pub unpack_cols : ℕ → ℕ → Bytes → ℕ → Pixels → Result LcdError Pixels
unpack_cols zero col src page pixels = ok pixels
unpack_cols (suc n) col src page pixels = do
  byte ← byte_or_error (get_elem? src col)
  unpack_cols n (col + 1) src page (unpack_bits 8 0 byte page col pixels)

unfoldable pub page_source : Bytes → Bytes → ℕ → Bytes
page_source status frame page =
    if page == 0 then status else slice frame ((page - 1) * lcd_width) (page * lcd_width)

-- The loop on `page`.
unfoldable pub unpack_pages : ℕ → ℕ → Bytes → Bytes → Pixels → Result LcdError Pixels
unpack_pages zero page status frame pixels = ok pixels
unpack_pages (suc n) page status frame pixels = do
  pixels' ← unpack_cols lcd_width 0 (page_source status frame page) page pixels
  unpack_pages n (page + 1) status frame pixels'

abbrev pub blank : Pixels
blank = replicate lcd_height (replicate lcd_width 0)

unfoldable pub unpack : Bytes → Bytes → Result LcdError Pixels
unpack status frame = unpack_pages total_rows 0 status frame blank

unfoldable pub line_bytes : ℕ → List ℕ → Bytes
line_bytes scale [] = []
line_bytes scale (value ∷ row) =
    replicate scale (if value == 0 then 0xff else 0x00) ++ line_bytes scale row

unfoldable pub repeat_line : ℕ → Bytes → Bytes
repeat_line zero line = []
repeat_line (suc n) line = (0 ∷ line) ++ repeat_line n line

unfoldable pub raw_bytes : ℕ → Pixels → Bytes
raw_bytes scale [] = []
raw_bytes scale (row ∷ rows) = repeat_line scale (line_bytes scale row) ++ raw_bytes scale rows

-- ">I"
abbrev pub pack32_be : ℕ → Bytes
pack32_be n = n / 2 ^ 24 % 256 ∷ n / 2 ^ 16 % 256 ∷ n / 256 % 256 ∷ n % 256 ∷ []

unfoldable pub chunk : Bytes → Bytes → Bytes
chunk tag payload =
    pack32_be (length payload) ++ (tag ++ (payload ++ pack32_be (crc32 (tag ++ payload))))

-- `compress` is `zlib.compress(…, 6)`.
unfoldable pub encode_png : (Bytes → Bytes) → Pixels → ℕ → Bytes
encode_png compress pixels scale =
    (0x89 ∷ 0x50 ∷ 0x4e ∷ 0x47 ∷ 0x0d ∷ 0x0a ∷ 0x1a ∷ 0x0a ∷ [])
    ++ (chunk (0x49 ∷ 0x48 ∷ 0x44 ∷ 0x52 ∷ []) (
          pack32_be (lcd_width * scale)
          ++ (pack32_be (lcd_height * scale) ++ (8 ∷ 0 ∷ 0 ∷ 0 ∷ 0 ∷ [])))
        ++ (chunk (0x49 ∷ 0x44 ∷ 0x41 ∷ 0x54 ∷ []) (compress (raw_bytes scale pixels))
            ++ chunk (0x49 ∷ 0x45 ∷ 0x4e ∷ 0x44 ∷ []) []))

unfoldable pub invert_pixels : Pixels → Pixels
invert_pixels pixels = map (map (λ value. 1 - value)) pixels

-- `_apply_panel`, by the inversion that `panel_state` reports.
unfoldable pub apply_panel : Bool → Pixels → Pixels
apply_panel invert pixels = if invert then invert_pixels pixels else pixels

-- `panel_pixels`, on the controller's memory.
unfoldable pub panel_pixels : Bytes → Bool → Result LcdError Pixels
panel_pixels gram invert = do
  raise_if (not (length gram == total_rows * lcd_width)) (bad_gram (length gram))
  pixels ← unpack (slice gram 0 status_bytes) (slice gram status_bytes (length gram))
  ok (apply_panel invert pixels)
