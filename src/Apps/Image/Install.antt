-- ===== src/Apps/Image/Install.antt =====
-- What `install` leaves in the image, and when it succeeds.
use uv_k5_v3_emulator.Common.{
  ℕ, ◌+◌, ◌≤◌, ◌<◌, ◌≡◌, ◌≢◌, ◌⊎◌, ◌↔◌, inl, inr, refl, ◌∙◌, ap, arith, length, ltb-false, Bool,
  true, false, some,
}
use uv_k5_v3_emulator.Common.Slices.{slice}
use uv_k5_v3_emulator.Common.Words.{Bytes, IsBytes}
use uv_k5_v3_emulator.Common.Crc32.{crc32}
use uv_k5_v3_emulator.Common.Result.{ok, err, Result-cases}
use uv_k5_v3_emulator.Apps.Header.{AppError, Info, parse, hdr_size}
use uv_k5_v3_emulator.Apps.Image.{
  app, slot_base, slot_count, slot_stride, code_offset, read_at, read_slot, put_app, install,
  is_foreign, install_file,
}
use uv_k5_v3_emulator.Apps.Image.Local.{
  base_of, slot_base-lt, slot_base-ok, read_slot-SameOn, parse-Accepted,
}
use uv_k5_v3_emulator.Apps.Image.Put.{
  code, put, length-put, put_app-eq-put, code_read, apart_kept, read_slot-put,
}

pub install-ok :
    (image : Bytes) (slot : ℕ) (blob : Bytes) (force : Bool) (info : Info) (out : Bytes)
    → install image slot blob force ≡ ok (info, out)
    → (slot < slot_count)
      × (base_of slot + slot_stride ≤ length image)
      × (parse blob true ≡ ok info)
      × (out ≡ put_app image (base_of slot) blob info.code_size)
unfolding install
install-ok image slot blob force info out h = elim (Result-cases (parse blob true)) [
  | inl (i, e) ↦ elim (Result-cases (slot_base slot)) [
    | inl (b, f) ↦
        let (valid, at) = slot_base-ok slot b f in
        (valid, ground (arith, at), ground arith, ground (arith, at))
    | inr (x, f) ↦ absurd (ground arith)
  ]
  | inr (x, e) ↦ absurd (ground arith)
]

module _ (image : Bytes) (slot : ℕ) (blob : Bytes) (force : Bool) (info : Info) (out : Bytes)
    (bytes : IsBytes blob) (done : install image slot blob force ≡ ok (info, out)) where
  -- An install that is not refused has been given a sound blob. The image keeps its size; the slot
  -- then reads as that app; the code behind its header has the length and the CRC-32 that the header
  -- says; and every other slot reads as before.
  pub install_lem :
      (parse blob true ≡ ok info)
      × (length out ≡ length image)
      × (read_slot out slot ≡ ok (some (app info)))
      × (slice out (base_of slot + code_offset) (base_of slot + code_offset + info.code_size)
          ≡ slice blob hdr_size (hdr_size + info.code_size))
      × (crc32
            (slice out (base_of slot + code_offset) (base_of slot + code_offset + info.code_size))
          ≡ info.crc)
      × ((t : ℕ) → slot ≢ t → read_slot out t ≡ read_slot image t)
  unfolding code
  install_lem =
      let (valid, held, parsed, e) = install-ok image slot blob force info out done in
      let acc = parse-Accepted blob info parsed in
      let at : out ≡ put image slot blob info valid held acc =
        e ∙ put_app-eq-put image slot blob info valid held acc in
      let read = code_read image slot blob info valid held acc in
      rw at (
        parsed,
        length-put image slot blob info valid held acc,
        read_slot-put image slot blob info valid held acc bytes,
        read,
        ap crc32 read ∙ acc.crc_ok,
        λ t apart.
            read_slot-SameOn _ image t (length-put image slot blob info valid held acc)
              (apart_kept image slot blob info valid held acc t apart),
      )

-- A slot that an install without force may write.
abbrev pub MayWrite : Bytes → ℕ → Bool → Type 0
MayWrite image slot force = (force ≡ true) ⊎ (is_foreign (read_at image (base_of slot)) ≡ false)

pub install-allowed :
    (image : Bytes) (slot : ℕ) (blob : Bytes) (force : Bool) (info : Info) (out : Bytes)
    → install image slot blob force ≡ ok (info, out)
    → MayWrite image slot force
unfolding install read_slot
install-allowed image slot blob true info out h = inl refl
install-allowed image slot blob false info out h = elim (Result-cases (parse blob true)) [
  | inl (i, e) ↦ elim (Result-cases (slot_base slot)) [
    | inl (b, f) ↦ let (valid, at) = slot_base-ok slot b f in inr (rw (← at) (ground arith))
    | inr (x, f) ↦ absurd (ground arith)
  ]
  | inr (x, e) ↦ absurd (ground arith)
]

pub install_allowed :
    (image : Bytes) (slot : ℕ) (blob : Bytes) (force : Bool) (info : Info)
    → parse blob true ≡ ok info
    → slot < slot_count
    → base_of slot + slot_stride ≤ length image
    → MayWrite image slot force
    → install image slot blob force ≡ ok (info, put_app image (base_of slot) blob info.code_size)
unfolding install read_slot
install_allowed image slot blob true info parsed valid held may =
    rw (parsed, slot_base-lt slot valid, ltb-false _ _ held)
install_allowed image slot blob false info parsed valid held (inl may) = absurd (cc)
install_allowed image slot blob false info parsed valid held (inr may) =
    rw (parsed, slot_base-lt slot valid, ltb-false _ _ held, may)

-- An install succeeds exactly when the strict `parse` accepts the blob, the slot is one of the
-- sixteen and lies in the image, and it holds an app or nothing, unless the install is forced.
pub install-ok_iff :
    (image : Bytes) (slot : ℕ) (blob : Bytes) (force : Bool) (info : Info)
    → ((out : Bytes) × (install image slot blob force ≡ ok (info, out))) ↔ (
        (parse blob true ≡ ok info)
        × (slot < slot_count)
        × (base_of slot + slot_stride ≤ length image)
        × MayWrite image slot force)
install-ok_iff image slot blob force info = (
  λ p.
      let (valid, held, parsed, e) = install-ok image slot blob force info p.0 p.1 in
      (parsed, valid, held, install-allowed image slot blob force info p.0 p.1),
  λ q. (
    put_app image (base_of slot) blob info.code_size,
    install_allowed image slot blob force info q.0 q.1 q.2 q.3,
  ),
)

-- A refused install leaves the file as it was.
pub install_file_refused :
    (file : Bytes) (slot : ℕ) (blob : Bytes) (force : Bool) (e : AppError)
    → (install_file file slot blob force).0 ≡ err e
    → (install_file file slot blob force).1 ≡ file
unfolding install_file
install_file_refused file slot blob force e h = ground arith
