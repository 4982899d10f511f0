-- ===== src/Apps/Image/Put.antt =====
-- The image that the writes of `install` leave: the slot reads as the app, the others as before.
use uv_k5_v3_emulator.Common.{
  ℕ, ◌+◌, ◌≤◌, ◌<◌, ◌≡◌, ◌≢◌, inl, inr, refl, sym, ◌∙◌, ap, arith, length, ltb-false, true, false,
  some, ◌++◌, [], ◌∷◌, get_elem?, take, drop, length-append,
}
use uv_k5_v3_emulator.Common.Slices.{
  slice, splice, fill, length-splice, length-fill, length-slice, slice-slice,
}
use uv_k5_v3_emulator.Common.Words.{Bytes, IsBytes, byte_at, u32_at, bytes_eq}
use uv_k5_v3_emulator.Common.Result.{ok}
use uv_k5_v3_emulator.Common.Regions.{
  SameOn, SameOn-u32_at, SameOn-slice, SameOn-trans, splice-SameOn, fill-SameOn, slice-splice,
  slice-splice_self,
}
use uv_k5_v3_emulator.Apps.Header.{Info, parse, hdr_size, app_magic}
use uv_k5_v3_emulator.Apps.Image.{
  app, slot_count, slot_stride, code_offset, read_at, read_slot, slot_content, any_set, fap1,
  put_app,
}
use uv_k5_v3_emulator.Apps.Image.Local.{
  base_of, slot_base-lt, bases_apart, header_info-SameOn, head-SameOn, Accepted,
}

-- The magic word is the four bytes FAP1.
pub magic_bytes :
    (blob : Bytes)
    → IsBytes blob
    → 64 ≤ length blob
    → u32_at blob 0 ≡ app_magic
    → slice blob 0 4 ≡ fap1
unfolding u32_at byte_at get_elem? slice take drop
magic_bytes [] b long h = absurd (omega arith)
magic_bytes (x ∷ []) b long h = absurd (omega arith)
magic_bytes (x ∷ y ∷ []) b long h = absurd (omega arith)
magic_bytes (x ∷ y ∷ z ∷ []) b long h = absurd (omega arith)
magic_bytes (x ∷ y ∷ z ∷ w ∷ rest) b long h =
    let ex : x ≡ 0x46 = omega arith in
    let ey : y ≡ 0x41 = omega arith in
    let ez : z ≡ 0x50 = omega arith in let ew : w ≡ 0x31 = omega arith in rw (ex, ey, ez, ew)

-- A slot that begins with a magic is not blank.
pub any_set-magic : (raw : Bytes) → slice raw 0 4 ≡ fap1 → any_set raw ≡ true
unfolding any_set slice take drop
any_set-magic [] h = cc
any_set-magic (x ∷ raw) h = ground arith

pub parse-head :
    (blob rest : Bytes) (info : Info)
    → Accepted blob info
    → parse (slice blob 0 hdr_size ++ rest) false ≡ ok info
unfolding parse
parse-head blob rest info acc =
    let long : 64 ≤ length blob = omega (arith, acc.long) in
    let same = head-SameOn blob rest long in
    let not_short =
      ltb-false (length (slice blob 0 64 ++ rest)) 64
        (omega (arith, length-append {0} (slice blob 0 64) rest, length-slice blob 0 64)) in
    rw (
      not_short,
      SameOn-u32_at 0 64 _ blob same 0 (omega arith) (omega arith),
      acc.magic,
      header_info-SameOn _ blob same,
      ← acc.same,
    )

module _ (image : Bytes) (slot : ℕ) (blob : Bytes) (info : Info) (valid : slot < slot_count)
    (held : base_of slot + slot_stride ≤ length image) (acc : Accepted blob info) where
  unfoldable pub erased : Bytes
  erased = fill image (base_of slot) slot_stride 0xff

  unfoldable pub head : Bytes
  head = slice blob 0 hdr_size

  unfoldable pub code : Bytes
  code = slice blob hdr_size (hdr_size + info.code_size)

  unfoldable pub headed : Bytes
  unfolding erased head
  headed = splice erased (base_of slot) (base_of slot + hdr_size) head

  unfoldable pub put : Bytes
  unfolding headed code
  put = splice headed (base_of slot + code_offset) (base_of slot + code_offset + length code) code

  pub length-erased : length erased ≡ length image
  unfolding erased
  length-erased = length-fill image (base_of slot) slot_stride 0xff

  pub length-head : length head ≡ 64
  unfolding head
  length-head = omega (arith, length-slice blob 0 hdr_size, acc.long)

  pub length-code : length code ≡ info.code_size
  unfolding code
  length-code = omega (arith, length-slice blob hdr_size (hdr_size + info.code_size), acc.long)

  pub head_size : base_of slot + length head ≡ base_of slot + hdr_size
  head_size = omega (arith, length-head)

  pub length-headed : length headed ≡ length image
  unfolding headed
  length-headed =
      length-splice erased _ _ head head_size (omega (arith, length-erased)) ∙ length-erased

  pub code_room : base_of slot + code_offset + length code ≤ length headed
  code_room = omega (arith, length-headed, length-code, acc.code_fits)

  pub length-put : length put ≡ length image
  unfolding put
  length-put = length-splice headed _ _ code refl code_room ∙ length-headed

  pub put_app-eq-put : put_app image (base_of slot) blob info.code_size ≡ put
  unfolding put_app put
  put_app-eq-put = refl

  pub head_kept : SameOn (base_of slot) (base_of slot + hdr_size) put headed
  unfolding put
  head_kept = splice-SameOn headed _ _ code _ _ refl code_room (inl (omega arith))

  pub head_read :
      (i j : ℕ) → j ≤ 64 → slice put (base_of slot + i) (base_of slot + j) ≡ slice head i j
  unfolding headed
  head_read i j h =
      SameOn-slice _ _ put headed head_kept (base_of slot + i) (base_of slot + j) (omega arith)
        (omega arith)
      ∙ slice-splice erased _ _ head head_size (omega (arith, length-erased)) i j
          (omega (arith, length-head))

  -- The code stands one sector behind the header.
  pub code_read :
      slice put (base_of slot + code_offset) (base_of slot + code_offset + info.code_size) ≡ code
  unfolding put
  code_read =
      ap (λ n. slice put (base_of slot + code_offset) (base_of slot + code_offset + n))
        (sym length-code)
      ∙ slice-splice_self headed _ _ code refl code_room

  pub apart_kept : (t : ℕ) → slot ≢ t → SameOn (base_of t) (base_of t + slot_stride) put image
  unfolding put headed erased
  apart_kept t apart =
      SameOn-trans _ _ put headed image
        (splice-SameOn headed _ _ code _ _ refl code_room (elim (bases_apart slot t apart) [
          | inl p ↦ inl (omega arith)
          | inr p ↦ inr (omega (arith, length-code, acc.code_fits))
        ]))
        (SameOn-trans _ _ headed erased image
          (splice-SameOn erased _ _ head _ _ head_size (omega (arith, length-erased))
            (elim (bases_apart slot t apart) [
              | inl p ↦ inl (omega arith)
              | inr p ↦ inr (omega arith)
            ]))
          (fill-SameOn image _ slot_stride 0xff _ _ held (elim (bases_apart slot t apart) [
            | inl p ↦ inl (omega arith)
            | inr p ↦ inr (omega arith)
          ])))

  unfoldable pub raw : Bytes
  raw = slice put (base_of slot) (base_of slot + slot_stride)

  pub raw-head : (j : ℕ) → j ≤ 64 → slice raw 0 j ≡ slice head 0 j
  unfolding raw
  raw-head j h =
      slice-slice put (base_of slot) (base_of slot + slot_stride) 0 j (omega arith)
      ∙ head_read 0 j h

  pub raw_header : slice raw 0 64 ≡ head
  unfolding head
  raw_header = raw-head 64 (omega arith) ∙ slice-slice blob 0 64 0 64 (omega arith)

  pub raw_magic : IsBytes blob → slice raw 0 4 ≡ fap1
  unfolding head
  raw_magic bytes =
      raw-head 4 (omega arith)
      ∙ slice-slice blob 0 64 0 4 (omega arith)
      ∙ magic_bytes blob bytes (omega (arith, acc.long)) acc.magic

  pub slot_content-raw : IsBytes blob → slot_content raw ≡ some (app info)
  unfolding slot_content head bytes_eq
  slot_content-raw bytes = rw (
    raw_magic bytes,
    any_set-magic raw (raw_magic bytes),
    raw_header,
    parse-head blob (slice raw code_offset (code_offset + u32_at raw 8)) info acc,
  )

  pub read_slot-put : IsBytes blob → read_slot put slot ≡ ok (some (app info))
  unfolding read_slot read_at raw
  read_slot-put bytes = rw (
    slot_base-lt slot valid,
    ltb-false (length put) (base_of slot + slot_stride) (omega (arith, length-put)),
    slot_content-raw bytes,
  )
