-- ===== src/Lcd/Panel.antt =====
-- `panel_pixels`: the picture that the panel shows.
use uv_k5_v3_emulator.Common.{
  ℕ, zero, suc, ◌+◌, ◌-◌, ◌*◌, ◌/◌, ◌%◌, ◌≤◌, ◌<◌, ◌≡◌, refl, ap, sym, ◌∙◌, arith, Bool, true,
  false, none, some, List, [], ◌∷◌, map, ◌==◌, not, if◌then◌else◌, length, get_elem?, ltb, lt→ltb,
  Bool-cases, inl, inr,
}
use uv_k5_v3_emulator.Common.Slices.{slice, length-slice, get_elem?-slice}
use uv_k5_v3_emulator.Common.Words.{Bytes}
use uv_k5_v3_emulator.Common.Result.{ok}
use uv_k5_v3_emulator.Lcd.{Pixels, unpack, apply_panel, invert_pixels, panel_pixels}
use uv_k5_v3_emulator.Lcd.Bits.{pixel, bit_set}
use uv_k5_v3_emulator.Lcd.Unpack.{byte_of, bit_value, unpack_lem}

get_elem?-map :
    (row : List ℕ) (c : ℕ) (f : ℕ → ℕ) (v : ℕ)
    → get_elem? row c ≡ some v
    → get_elem? (map f row) c ≡ some (f v)
unfolding get_elem?
get_elem?-map [] c f v h = absurd (ground (arith, h))
get_elem?-map (x ∷ row) zero f v h = let same : x ≡ v = ground (arith, h) in rw same refl
get_elem?-map (x ∷ row) (suc c) f v h = get_elem?-map row c f v h

pixel-map :
    (pixels : Pixels) (r c : ℕ) (f : ℕ → ℕ) (v : ℕ)
    → pixel pixels r c ≡ some v
    → pixel (map (map f) pixels) r c ≡ some (f v)
unfolding get_elem?
pixel-map [] r c f v h = absurd (ground (arith, h))
pixel-map (row ∷ rows) zero c f v h = get_elem?-map row c f v h
pixel-map (row ∷ rows) (suc r) c f v h = pixel-map rows r c f v h

-- What the panel shows of a bit.
abbrev pub inverted : Bool → Bool → Bool
inverted true b = not b
inverted false b = b

invert_value : (b : Bool) → 1 - bit_value b ≡ bit_value (not b)
invert_value true = refl
invert_value false = refl

apply_panel-pixel :
    (invert : Bool) (pixels : Pixels) (r c : ℕ) (b : Bool)
    → pixel pixels r c ≡ some (bit_value b)
    → pixel (apply_panel invert pixels) r c ≡ some (bit_value (inverted invert b))
unfolding apply_panel invert_pixels
apply_panel-pixel true pixels r c b h =
    pixel-map pixels r c (λ value. 1 - value) (bit_value b) h ∙ ap some (invert_value b)
apply_panel-pixel false pixels r c b h = h

panel_unpacked :
    (gram : Bytes) (invert : Bool) (out : Pixels)
    → length gram ≡ 1024
    → unpack (slice gram 0 128) (slice gram 128 (length gram)) ≡ ok out
    → panel_pixels gram invert ≡ ok (apply_panel invert out)
unfolding panel_pixels
panel_unpacked gram invert out h e =
    let size : (length gram == 1024) ≡ true = ground (arith, h) in rw (size, e) refl

-- The two parts of the memory are its bytes in their order.
byte_of-gram :
    (gram : Bytes) (r c : ℕ)
    → length gram ≡ 1024
    → r < 64
    → c < 128
    → byte_of (slice gram 0 128) (slice gram 128 (length gram)) r c
      ≡ get_elem? gram (r / 8 * 128 + c)
byte_of-gram gram r c h hr hc = elim (Bool-cases (ltb r 8)) [
  | inl e ↦
      let top : 0 + c ≡ r / 8 * 128 + c = ground (arith, e) in
      rw e (
        get_elem?-slice gram 0 128 c
        ∙ ap (λ b. if b then get_elem? gram (0 + c) else none) (lt→ltb c (128 - 0) (omega arith))
        ∙ ap (get_elem? gram) top)
  | inr e ↦
      let below : 8 ≤ r = ground (arith, e) in
      let i = (r / 8 - 1) * 128 + c in
      let at : 128 + i ≡ r / 8 * 128 + c = omega arith in
      rw e (
        get_elem?-slice gram 128 (length gram) i
        ∙ ap (λ b. if b then get_elem? gram (128 + i) else none)
            (lt→ltb i (length gram - 128) (omega arith))
        ∙ ap (get_elem? gram) at)
]

-- The pixel in a row and a column is the bit of the byte in that column of the row's page, inverted if
-- the panel is.
abbrev pub Shows : Bytes → Bool → Pixels → Type 0
Shows gram invert out =
    (r c : ℕ)
    → r < 64
    → c < 128
    → (byte : ℕ) × (get_elem? gram (r / 8 * 128 + c) ≡ some byte)
      × (pixel out r c ≡ some (bit_value (inverted invert (bit_set byte (r % 8)))))

-- A picture is given only for 1024 bytes.
panel_pixels-length :
    (gram : Bytes) (invert : Bool) (out : Pixels)
    → panel_pixels gram invert ≡ ok out
    → length gram ≡ 1024
unfolding panel_pixels
panel_pixels-length gram invert out h = elim (Bool-cases (length gram == 1024)) [
  | inl e ↦ ground (arith, e)
  | inr e ↦ absurd (ground (arith, e, h))
]

panel_pixels-Shows :
    (gram : Bytes) (invert : Bool)
    → length gram ≡ 1024
    → (out : Pixels) × (panel_pixels gram invert ≡ ok out) × Shows gram invert out
panel_pixels-Shows gram invert h =
    let status = slice gram 0 128 in
    let frame = slice gram 128 (length gram) in
    let (out, e, shows) =
      unpack_lem status frame (omega (arith, length-slice gram 0 128))
        (omega (arith, length-slice gram 128 (length gram))) in
    (
      apply_panel invert out,
      panel_unpacked gram invert out h e,
      λ r c hr hc.
          let (byte, at, lit_at) = shows r c hr hc in
          (
            byte,
            sym (byte_of-gram gram r c h hr hc) ∙ at,
            apply_panel-pixel invert out r c (bit_set byte (r % 8)) lit_at,
          ),
    )

-- The controller's memory gives a picture exactly if it has 1024 bytes, and the pixel in a row and a
-- column of it is the bit of the byte in that column of the row's page, inverted if the panel is.
pub panel_pixels_lem :
    (gram : Bytes) (invert : Bool)
    → ((out : Pixels) → panel_pixels gram invert ≡ ok out → length gram ≡ 1024)
      × (length gram ≡ 1024
          → (out : Pixels) × (panel_pixels gram invert ≡ ok out) × Shows gram invert out)
panel_pixels_lem gram invert = (panel_pixels-length gram invert, panel_pixels-Shows gram invert)
