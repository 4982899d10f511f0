-- ===== src/Lcd/Pages.antt =====
-- `unpack`: the loops on the columns and on the pages.
use uv_k5_v3_emulator.Common.{
  ℕ, zero, suc, ◌+◌, ◌-◌, ◌*◌, ◌/◌, ◌%◌, ◌≤◌, ◌<◌, ◌≡◌, ◌≢◌, ◌⊎◌, refl, ap, sym, ◌∙◌, arith, some,
  ◌==◌, get_elem?, Option-cases, Bool-cases, inl, inr,
}
use uv_k5_v3_emulator.Common.Words.{Bytes}
use uv_k5_v3_emulator.Common.Result.{ok, Result-cases}
use uv_k5_v3_emulator.Lcd.{Pixels, unpack_bits, unpack_cols, unpack_pages, page_source, lcd_width}
use uv_k5_v3_emulator.Lcd.Bits.{pixel, bits_elsewhere, shown, bits_here}

-- One round of the loop on the columns.
cols_round :
    (n col : ℕ) (src : Bytes) (page : ℕ) (pixels out : Pixels)
    → unpack_cols (suc n) col src page pixels ≡ ok out
    → (byte : ℕ) × (get_elem? src col ≡ some byte)
      × (unpack_cols n (col + 1) src page (unpack_bits 8 0 byte page col pixels) ≡ ok out)
unfolding unpack_cols
cols_round n col src page pixels out h = elim (Option-cases (get_elem? src col)) [
  | inl e ↦ absurd (ground (arith, e, h))
  | inr (byte, e) ↦ (byte, e, ground (arith, e, h))
]

cols_elsewhere :
    (n col : ℕ) (src : Bytes) (page r c : ℕ) (pixels out : Pixels)
    → (c < col) ⊎ ((r < page * 8) ⊎ (page * 8 + 8 ≤ r))
    → unpack_cols n col src page pixels ≡ ok out
    → pixel out r c ≡ pixel pixels r c
cols_elsewhere zero col src page r c pixels out away h =
    let same : pixels ≡ out = unfold unpack_cols in ground (arith, h) in rw same refl
cols_elsewhere (suc n) col src page r c pixels out away h =
    let (byte, _, rest) = cols_round n col src page pixels out h in
    cols_elsewhere n (col + 1) src page r c _ out (ground (arith, away)) rest
    ∙ bits_elsewhere 8 0 byte page col r c pixels (ground (arith, away))

cols_here :
    (n col : ℕ) (src : Bytes) (page r c : ℕ) (pixels out : Pixels)
    → page * 8 ≤ r
    → r < page * 8 + 8
    → col ≤ c
    → c < col + n
    → unpack_cols n col src page pixels ≡ ok out
    → (byte : ℕ) × (get_elem? src c ≡ some byte)
      × (pixel out r c ≡ shown byte (r - page * 8) (pixel pixels r c))
cols_here zero col src page r c pixels out low high left right h = absurd (omega arith)
cols_here (suc n) col src page r c pixels out low high left right h =
    let (byte, at, rest) = cols_round n col src page pixels out h in
    elim (Bool-cases (col == c)) [
      | inl e ↦
          let here : col ≡ c = ground (arith, e) in
          (
            byte,
            ap (get_elem? src) (sym here) ∙ at,
            cols_elsewhere n (col + 1) src page r c _ out (inl (omega arith)) rest
                ∙ rw (← here) (bits_here 8 0 byte page col r pixels (omega arith) (omega arith)),
          )
      | inr e ↦
          let apart : col ≢ c = ground (arith, e) in
          let (byte', at', shows) =
            cols_here n (col + 1) src page r c _ out low high (omega arith) (omega arith) rest in
          (
            byte',
            at',
            shows
                ∙ ap (shown byte' (r - page * 8))
                    (bits_elsewhere 8 0 byte page col r c pixels (inr (inr apart))),
          )
    ]

pages_round :
    (n page : ℕ) (status frame : Bytes) (pixels out : Pixels)
    → unpack_pages (suc n) page status frame pixels ≡ ok out
    → (next : Pixels) × (unpack_cols lcd_width 0 (page_source status frame page) page pixels
        ≡ ok next)
      × (unpack_pages n (page + 1) status frame next ≡ ok out)
unfolding unpack_pages
pages_round n page status frame pixels out h =
    elim (Result-cases (unpack_cols lcd_width 0 (page_source status frame page) page pixels)) [
      | inl (next, e) ↦ (next, e, ground (arith, e, h))
      | inr (x, e) ↦ absurd (ground (arith, e, h))
    ]

pages_elsewhere :
    (n page : ℕ) (status frame : Bytes) (r c : ℕ) (pixels out : Pixels)
    → r < page * 8
    → unpack_pages n page status frame pixels ≡ ok out
    → pixel out r c ≡ pixel pixels r c
pages_elsewhere zero page status frame r c pixels out away h =
    let same : pixels ≡ out = unfold unpack_pages in ground (arith, h) in rw same refl
pages_elsewhere (suc n) page status frame r c pixels out away h =
    let (next, e, rest) = pages_round n page status frame pixels out h in
    pages_elsewhere n (page + 1) status frame r c next out (omega arith) rest
    ∙ cols_elsewhere lcd_width 0 (page_source status frame page) page r c pixels next
        (inr (inl away)) e

pub pages_here :
    (n page q : ℕ) (status frame : Bytes) (r c : ℕ) (pixels out : Pixels)
    → q ≡ r / 8
    → page ≤ q
    → q < page + n
    → c < lcd_width
    → unpack_pages n page status frame pixels ≡ ok out
    → (byte : ℕ) × (get_elem? (page_source status frame q) c ≡ some byte)
      × (pixel out r c ≡ shown byte (r % 8) (pixel pixels r c))
pages_here zero page q status frame r c pixels out place low high right h = absurd (omega arith)
pages_here (suc n) page q status frame r c pixels out place low high right h =
    let (next, e, rest) = pages_round n page status frame pixels out h in
    elim (Bool-cases (page == q)) [
      | inl g ↦
          let here : page ≡ q = ground (arith, g) in
          let bit : r - page * 8 ≡ r % 8 = omega arith in
          let (byte, at, shows) =
            cols_here lcd_width 0 (page_source status frame page) page r c pixels next (omega arith)
              (omega arith) (omega arith) (omega arith) e in
          (
            byte,
            rw (← here) at,
            pages_elsewhere n (page + 1) status frame r c next out (omega arith) rest
                ∙ shows
                ∙ ap (λ k. shown byte k (pixel pixels r c)) bit,
          )
      | inr g ↦
          let apart : page ≢ q = ground (arith, g) in
          let (byte, at, shows) =
            pages_here n (page + 1) q status frame r c next out place (omega arith) (omega arith)
              right rest in
          (
            byte,
            at,
            shows
                ∙ ap (shown byte (r % 8)) (
                    cols_elsewhere lcd_width 0 (page_source status frame page) page r c pixels next
                      (inr (inr (omega arith))) e),
          )
    ]
