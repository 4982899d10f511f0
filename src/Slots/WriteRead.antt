-- ===== src/Slots/WriteRead.antt =====
-- What `write_slot` leaves in the buffer: the slot reads back, and every other slot reads as before.
use uv_k5_v3_emulator.Common.{
  ℕ, ◌+◌, ◌-◌, ◌≤◌, ◌<◌, ◌≡◌, ◌≢◌, ◌↔◌, inl, inr, refl, ◌∙◌, ap, arith, length, ltb-false, true,
  some, take, ==_refl,
}
use uv_k5_v3_emulator.Common.Slices.{slice, splice, length-splice}
use uv_k5_v3_emulator.Common.Words.{Bytes, u32_at, u16_at}
use uv_k5_v3_emulator.Common.Text.{Text, IsPlain}
use uv_k5_v3_emulator.Common.Crc32.{crc32}
use uv_k5_v3_emulator.Common.Result.{ok, Result-cases}
use uv_k5_v3_emulator.Common.Regions.{
  SameOn, SameOn-u16_at, SameOn-u32_at, SameOn-slice, SameOn-trans, splice-SameOn, u16_at-splice,
  u32_at-splice, slice-splice, slice-splice_self,
}
use uv_k5_v3_emulator.Slots.{
  Header, slot_base, slot_count, slot_stride, slot_image_offset, header_bytes, build_header,
  write_slot, read_at, read_slot, slot_magic,
}
use uv_k5_v3_emulator.Slots.Layout.{
  base_of, slot_base-lt, slot_base-ok, bases_apart, length-header_bytes, header_magic,
  header_version, header_flags, header_size, header_crc, header_name, header_fw, header_text_read,
}
use uv_k5_v3_emulator.Slots.Locality.{IsSound, read_at-SameOn}

abbrev pub image_room : ℕ
image_room = slot_stride - slot_image_offset

-- The whole slot lies in the buffer.
abbrev pub Holds : Bytes → ℕ → Type 0
Holds buf slot = base_of slot + slot_stride ≤ length buf

-- The header that a slot is expected to show after a write.
abbrev pub committed : ℕ → Bytes → Text → Text → Header
committed slot image name fw = record {
  slot = slot;
  base = base_of slot;
  hdr_version = 1;
  flags = 1;
  image_size = length image;
  image_crc32 = crc32 image;
  crc_ok = true;
  name = take 15 name;
  fw_version = take 15 fw;
}

module _ (buf : Bytes) (slot : ℕ) (image : Bytes) (name fw : Text) (valid : slot < slot_count)
    (held : Holds buf slot) (room : length image ≤ image_room) where
  base : ℕ
  base = base_of slot

  headed : Bytes
  headed = splice buf (base_of slot) (base_of slot + 64) (header_bytes image name fw)

  written : Bytes
  unfolding headed
  written =
      splice headed (base_of slot + slot_image_offset)
        (base_of slot + slot_image_offset + length image) image

  header_size_eq : base_of slot + length (header_bytes image name fw) ≡ base_of slot + 64
  header_size_eq = omega (arith, length-header_bytes image name fw)

  length-headed : length headed ≡ length buf
  unfolding headed
  length-headed = length-splice buf _ _ _ header_size_eq (omega arith)

  image_fits : base_of slot + slot_image_offset + length image ≤ length headed
  image_fits = omega (arith, length-headed)

  length-written : length written ≡ length buf
  unfolding written
  length-written = length-splice headed _ _ image refl image_fits ∙ length-headed

  write_slot-eq-written : write_slot buf slot image name fw ≡ ok written
  unfolding write_slot written headed build_header
  write_slot-eq-written = rw (slot_base-lt slot valid, ltb-false _ _ room)

  -- The image does not touch the header.
  header_kept : SameOn (base_of slot) (base_of slot + 64) written headed
  unfolding written
  header_kept = splice-SameOn headed _ _ image _ _ refl image_fits (inl (omega arith))

  u32_field :
      (k : ℕ)
      → k + 3 < 64
      → u32_at written (base_of slot + k) ≡ u32_at (header_bytes image name fw) k
  u32_field k h =
      SameOn-u32_at _ _ written headed header_kept (base_of slot + k) (omega arith) (omega arith)
      ∙ (unfold headed in
          u32_at-splice buf _ _ _ header_size_eq (omega arith) k
            (omega (arith, length-header_bytes image name fw)))

  u16_field :
      (k : ℕ)
      → k + 1 < 64
      → u16_at written (base_of slot + k) ≡ u16_at (header_bytes image name fw) k
  u16_field k h =
      SameOn-u16_at _ _ written headed header_kept (base_of slot + k) (omega arith) (omega arith)
      ∙ (unfold headed in
          u16_at-splice buf _ _ _ header_size_eq (omega arith) k
            (omega (arith, length-header_bytes image name fw)))

  slice_field :
      (a b : ℕ)
      → b ≤ 64
      → slice written (base_of slot + a) (base_of slot + b) ≡ slice (header_bytes image name fw) a b
  slice_field a b h =
      SameOn-slice _ _ written headed header_kept (base_of slot + a) (base_of slot + b)
        (omega arith) (omega arith)
      ∙ (unfold headed in
          slice-splice buf _ _ _ header_size_eq (omega arith) a b
            (omega (arith, length-header_bytes image name fw)))

  image_read :
      slice written
        (base_of slot + slot_image_offset)
        (base_of slot + slot_image_offset + length image)
      ≡ image
  unfolding written
  image_read = slice-splice_self headed _ _ image refl image_fits

  magic_field : u32_at written (base_of slot) ≡ slot_magic
  magic_field =
      let e : base_of slot ≡ base_of slot + 0 = omega arith in
      ap (u32_at written) e ∙ u32_field 0 (omega arith) ∙ header_magic image name fw

  size_field : u32_at written (base_of slot + 8) ≡ length image
  size_field = u32_field 8 (omega arith) ∙ header_size image name fw (omega arith)

  read_at-written :
      IsPlain name
      → IsPlain fw
      → read_at written slot (base_of slot) ≡ some (committed slot image name fw, image)
  unfolding read_at
  read_at-written plain plain' = rw (
    magic_field,
    size_field,
    u16_field 4 (omega arith) ∙ header_version image name fw,
    u16_field 6 (omega arith) ∙ header_flags image name fw,
    u32_field 12 (omega arith) ∙ header_crc image name fw,
    image_read,
    slice_field 16 32 (omega arith) ∙ header_name image name fw,
    slice_field 32 48 (omega arith) ∙ header_fw image name fw,
    header_text_read name plain,
    header_text_read fw plain',
    ==_refl (crc32 image),
  )

  -- Every other slot's region is left alone.
  written-SameOn : (t : ℕ) → slot ≢ t → SameOn (base_of t) (base_of t + slot_stride) written buf
  unfolding written headed
  written-SameOn t apart =
      SameOn-trans _ _ written headed buf
        (splice-SameOn headed _ _ image _ _ refl image_fits (elim (bases_apart slot t apart) [
          | inl p ↦ inl (omega arith)
          | inr p ↦ inr (omega arith)
        ]))
        (splice-SameOn buf _ _ (header_bytes image name fw) _ _ header_size_eq (omega arith)
          (elim (bases_apart slot t apart) [
            | inl p ↦ inl (omega arith)
            | inr p ↦ inr (omega arith)
          ]))

write_slot-ok :
    (buf : Bytes) (slot : ℕ) (image : Bytes) (name fw : Text) (out : Bytes)
    → write_slot buf slot image name fw ≡ ok out
    → (slot < slot_count) × (length image ≤ image_room)
unfolding write_slot slot_base build_header
write_slot-ok buf slot image name fw out h = ground arith

-- A write succeeds exactly when the slot number is one of the five and the image fits behind the
-- header sector.
pub write_slot-ok_iff :
    (buf : Bytes) (slot : ℕ) (image : Bytes) (name fw : Text)
    → ((out : Bytes) × (write_slot buf slot image name fw ≡ ok out))
      ↔ ((slot < slot_count) × (length image ≤ image_room))
unfolding write_slot slot_base build_header
write_slot-ok_iff buf slot image name fw = (
  λ p. write_slot-ok buf slot image name fw p.0 p.1,
  λ q. elim (Result-cases (write_slot buf slot image name fw)) [
    | inl p ↦ p
    | inr (e, p) ↦ absurd (ground arith)
  ],
)

module _ (buf : Bytes) (slot : ℕ) (image : Bytes) (name fw : Text) (out : Bytes)
    (held : Holds buf slot) (done : write_slot buf slot image name fw ≡ ok out) where
  out-eq-written :
      (valid : slot < slot_count) (room : length image ≤ image_room)
      → out ≡ written buf slot image name fw valid held room
  out-eq-written valid room =
      let e = write_slot-eq-written buf slot image name fw valid held room in ground (arith, e)

  -- A write does not change the size of the flash image.
  pub length-write_slot : length out ≡ length buf
  length-write_slot =
      let (valid, room) = write_slot-ok buf slot image name fw out done in
      ap length (out-eq-written valid room) ∙ length-written buf slot image name fw valid held room

  pub write_slot-SameOn : (t : ℕ) → slot ≢ t → SameOn (base_of t) (base_of t + slot_stride) out buf
  write_slot-SameOn t apart =
      let (valid, room) = write_slot-ok buf slot image name fw out done in
      rw (out-eq-written valid room) (written-SameOn buf slot image name fw valid held room t apart)

  -- The slot that was written holds a committed header with the image's size and CRC, the texts cut
  -- to 15 characters, a CRC that checks, and exactly the image.
  pub read_slot-write_slot :
      IsPlain name
      → IsPlain fw
      → read_slot out slot ≡ ok (some (committed slot image name fw, image))
  unfolding read_slot
  read_slot-write_slot plain plain' =
      let (valid, room) = write_slot-ok buf slot image name fw out done in
      rw (
        slot_base-lt slot valid,
        ltb-false (length out) (base_of slot + 16) (omega (arith, length-write_slot)),
        out-eq-written valid room,
        read_at-written buf slot image name fw valid held room plain plain',
      )

  -- Every other slot reads as it did before the write.
  pub read_slot-write_slot_ne :
      (t : ℕ) → slot ≢ t → IsSound buf (base_of t) → read_slot out t ≡ read_slot buf t
  unfolding read_slot
  read_slot-write_slot_ne t apart fits = elim (Result-cases (slot_base t)) [
    | inl (b, e) ↦
        let (_, at) = slot_base-ok t b e in
        rw (
          e,
          length-write_slot,
          at,
          read_at-SameOn out buf t (base_of t) (write_slot-SameOn t apart) fits,
        )
    | inr (x, e) ↦ rw e
  ]

  pub IsSound-write_slot : IsSound out (base_of slot)
  IsSound-write_slot =
      let (valid, room) = write_slot-ok buf slot image name fw out done in
      inr (rw (out-eq-written valid room, size_field buf slot image name fw valid held room) room)

  pub IsSound-write_slot_ne : (t : ℕ) → slot ≢ t → IsSound buf (base_of t) → IsSound out (base_of t)
  IsSound-write_slot_ne t apart fits =
      let u32 =
        SameOn-u32_at (base_of t) (base_of t + slot_stride) out buf (write_slot-SameOn t apart) in
      rw
        (
          u32 (base_of t) (omega arith) (omega arith),
          u32 (base_of t + 8) (omega arith) (omega arith),
        )
        fits
