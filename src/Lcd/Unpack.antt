-- ===== src/Lcd/Unpack.antt =====
-- `unpack`: where every pixel of the screen comes from.
use uv_k5_v3_emulator.Common.{
  ℕ, zero, suc, ◌+◌, ◌-◌, ◌*◌, ◌/◌, ◌%◌, ◌≤◌, ◌<◌, ◌≡◌, ◌≢◌, refl, ap, sym, ◌∙◌, arith, Bool, true,
  false, Option, none, some, List, [], ◌∷◌, if◌then◌else◌, length, get_elem?, get_elem?-replicate,
  replicate, ltb, Option-cases, Bool-cases, inl, inr,
}
use uv_k5_v3_emulator.Common.Slices.{length-slice, get_elem?-slice}
use uv_k5_v3_emulator.Common.Words.{Bytes}
use uv_k5_v3_emulator.Common.Result.{ok}
use uv_k5_v3_emulator.Lcd.{
  Pixels, unpack_bits, unpack_cols, unpack_pages, page_source, unpack, lcd_width, total_rows, blank,
}
use uv_k5_v3_emulator.Lcd.Bits.{pixel, bit_set, shown}
use uv_k5_v3_emulator.Lcd.Pages.{pages_here}

some_byte : (src : Bytes) (i : ℕ) → i < length src → get_elem? src i ≢ none
unfolding get_elem?
some_byte [] i h = absurd (omega arith)
some_byte (b ∷ bs) zero h = ground arith
some_byte (b ∷ bs) (suc i) h = some_byte bs i (omega arith)

-- A page that is long enough is unpacked.
cols_ok :
    (n col : ℕ) (src : Bytes) (page : ℕ) (pixels : Pixels)
    → col + n ≤ length src
    → (out : Pixels) × (unpack_cols n col src page pixels ≡ ok out)
unfolding unpack_cols
cols_ok zero col src page pixels h = (pixels, refl)
cols_ok (suc n) col src page pixels h = elim (Option-cases (get_elem? src col)) [
  | inl e ↦ absurd (ground (arith, e, some_byte src col (omega arith)))
  | inr (byte, e) ↦
      let (out, rest) =
        cols_ok n (col + 1) src page (unpack_bits 8 0 byte page col pixels) (omega arith) in
      (out, rw e rest)
]

length-page_source :
    (status frame : Bytes) (page : ℕ)
    → 128 ≤ length status
    → 896 ≤ length frame
    → page < 8
    → 128 ≤ length (page_source status frame page)
unfolding page_source
length-page_source status frame page hs hf h =
    ground (arith, length-slice frame ((page - 1) * 128) (page * 128))

pages_ok :
    (n page : ℕ) (status frame : Bytes) (pixels : Pixels)
    → 128 ≤ length status
    → 896 ≤ length frame
    → page + n ≤ 8
    → (out : Pixels) × (unpack_pages n page status frame pixels ≡ ok out)
unfolding unpack_pages
pages_ok zero page status frame pixels hs hf h = (pixels, refl)
pages_ok (suc n) page status frame pixels hs hf h =
    let (next, e) =
      cols_ok lcd_width 0 (page_source status frame page) page pixels
        (length-page_source status frame page hs hf (omega arith)) in
    let (out, rest) = pages_ok n (page + 1) status frame next hs hf (omega arith) in
    (out, rw e rest)

-- The byte that a pixel comes from.
abbrev pub byte_of : Bytes → Bytes → ℕ → ℕ → Option ℕ
byte_of status frame row col =
    if ltb row 8 then get_elem? status col else get_elem? frame ((row / 8 - 1) * 128 + col)

page_source-byte_of :
    (status frame : Bytes) (r c : ℕ)
    → c < 128
    → get_elem? (page_source status frame (r / 8)) c ≡ byte_of status frame r c
unfolding page_source
page_source-byte_of status frame r c h =
    ground (arith, get_elem?-slice frame ((r / 8 - 1) * 128) (r / 8 * 128) c)

dark-pixel : (r c : ℕ) → r < 64 → c < 128 → pixel blank r c ≡ some 0
dark-pixel r c hr hc =
    let row = get_elem?-replicate {0} {A = List ℕ} 64 (replicate 128 0) r in
    let lit_row : get_elem? blank r ≡ some (replicate 128 0) = ground (arith, row) in
    rw lit_row (ground (arith, get_elem?-replicate {0} {A = ℕ} 128 0 c))

abbrev pub bit_value : Bool → ℕ
bit_value true = 1
bit_value false = 0

shown_dark : (byte bit : ℕ) → shown byte bit (some 0) ≡ some (bit_value (bit_set byte bit))
shown_dark byte bit = elim (Bool-cases (bit_set byte bit)) [ inl e ↦ rw e refl | inr e ↦ rw e refl ]

-- A status line of 128 bytes and a frame of 896 give a picture of 64 rows of 128 pixels, and the
-- pixel in a row and a column is the bit of its own byte: of the status line in the first eight rows,
-- of the page of the frame below them, the top row of a page at bit 0.
pub unpack_lem :
    (status frame : Bytes)
    → 128 ≤ length status
    → 896 ≤ length frame
    → (out : Pixels) × (unpack status frame ≡ ok out)
      × ((r c : ℕ)
          → r < 64
          → c < 128
          → (byte : ℕ) × (byte_of status frame r c ≡ some byte)
            × (pixel out r c ≡ some (bit_value (bit_set byte (r % 8)))))
unfolding unpack
unpack_lem status frame hs hf =
    let (out, e) = pages_ok total_rows 0 status frame blank hs hf (omega arith) in
    (
      out,
      e,
      λ r c hr hc.
          let (byte, at, shows) =
            pages_here total_rows 0 (r / 8) status frame r c blank out refl (omega arith)
              (omega arith) hc e in
          (
            byte,
            sym (page_source-byte_of status frame r c hc) ∙ at,
            shows ∙ ap (shown byte (r % 8)) (dark-pixel r c hr hc) ∙ shown_dark byte (r % 8),
          ),
    )
