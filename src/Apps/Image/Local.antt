-- ===== src/Apps/Image/Local.antt =====
-- A read of an app slot sees the slot's own region only, and the header sees its 64 bytes only.
use uv_k5_v3_emulator.Common.{
  ℕ, ◌+◌, ◌*◌, ◌≤◌, ◌<◌, ◌≡◌, ◌≢◌, ◌⊎◌, inl, inr, arith, length, true, get_elem?-append, ◌++◌,
}
use uv_k5_v3_emulator.Common.Slices.{slice, get_elem?-slice, length-slice}
use uv_k5_v3_emulator.Common.Words.{Bytes, u32_at}
use uv_k5_v3_emulator.Common.Crc32.{crc32}
use uv_k5_v3_emulator.Common.Result.{ok, Result-cases}
use uv_k5_v3_emulator.Common.Regions.{
  SameOn, SameOn-byte_at, SameOn-u16_at, SameOn-u32_at, SameOn-slice,
}
use uv_k5_v3_emulator.Apps.Header.{
  Info, header_info, parse, strict_checks, hdr_size, app_magic, app_overlay_max, overlay_vma,
}
use uv_k5_v3_emulator.Apps.Image.{
  read_at, read_slot, slot_base, slot_count, slot_stride, region_base,
}

abbrev pub base_of : ℕ → ℕ
base_of slot = region_base + slot * slot_stride

pub slot_base-lt : (slot : ℕ) → slot < slot_count → slot_base slot ≡ ok (base_of slot)
unfolding slot_base
slot_base-lt slot h = ground arith

pub slot_base-ok :
    (slot base : ℕ) → slot_base slot ≡ ok base → (slot < slot_count) × (base ≡ base_of slot)
unfolding slot_base
slot_base-ok slot base h = ground arith

pub bases_apart :
    (s t : ℕ)
    → s ≢ t
    → (base_of t + slot_stride ≤ base_of s) ⊎ (base_of s + slot_stride ≤ base_of t)
bases_apart s t h = omega arith

pub read_slot-SameOn :
    (xs ys : Bytes) (t : ℕ)
    → length xs ≡ length ys
    → SameOn (base_of t) (base_of t + slot_stride) xs ys
    → read_slot xs t ≡ read_slot ys t
unfolding read_slot read_at
read_slot-SameOn xs ys t same_length same = elim (Result-cases (slot_base t)) [
  | inl (b, e) ↦
      let (_, at) = slot_base-ok t b e in
      rw (
        e,
        same_length,
        at,
        SameOn-slice _ _ xs ys same (base_of t) (base_of t + slot_stride) (omega arith)
            (omega arith),
      )
  | inr (x, e) ↦ rw e
]

pub header_info-SameOn : (xs ys : Bytes) → SameOn 0 64 xs ys → header_info xs ≡ header_info ys
unfolding header_info
header_info-SameOn xs ys same =
    let b = SameOn-byte_at 0 64 xs ys same in
    let u16 = SameOn-u16_at 0 64 xs ys same in
    let u32 = SameOn-u32_at 0 64 xs ys same in
    let part = SameOn-slice 0 64 xs ys same in
    rw (
      u32 0 (omega arith) (omega arith),
      u16 4 (omega arith) (omega arith),
      b 6 (omega arith) (omega arith),
      b 7 (omega arith) (omega arith),
      u32 8 (omega arith) (omega arith),
      u32 12 (omega arith) (omega arith),
      u16 16 (omega arith) (omega arith),
      u16 18 (omega arith) (omega arith),
      part 20 36 (omega arith) (omega arith),
      part 36 52 (omega arith) (omega arith),
      u32 52 (omega arith) (omega arith),
      u32 56 (omega arith) (omega arith),
    )

-- The first 64 bytes of a blob, with anything behind them, have the blob's header.
pub head-SameOn :
    (blob rest : Bytes) → 64 ≤ length blob → SameOn 0 64 (slice blob 0 64 ++ rest) blob
head-SameOn blob rest long i p q = ground (
  arith,
  get_elem?-append (slice blob 0 64) rest i,
  length-slice blob 0 64,
  get_elem?-slice blob 0 64 i,
)

-- What the strict `parse` has checked of a blob that it accepts.
pub record Accepted (blob : Bytes) (info : Info) : Type 0 where
  pub same : info ≡ header_info blob
  pub magic : u32_at blob 0 ≡ app_magic
  pub some_code : 0 < info.code_size
  pub code_fits : info.code_size ≤ app_overlay_max
  pub long : hdr_size + info.code_size ≤ length blob
  pub crc_ok : crc32 (slice blob hdr_size (hdr_size + info.code_size)) ≡ info.crc
  pub vma_ok : info.vma ≡ overlay_vma
  pub version_ok : info.hdr_version ≡ 1

strict_checks-ok :
    (blob : Bytes) (info got : Info)
    → strict_checks blob info ≡ ok got
    → (got ≡ info)
      × (0 < info.code_size)
      × (info.code_size ≤ app_overlay_max)
      × (hdr_size + info.code_size ≤ length blob)
      × (crc32 (slice blob hdr_size (hdr_size + info.code_size)) ≡ info.crc)
      × (info.vma ≡ overlay_vma)
      × (info.hdr_version ≡ 1)
unfolding strict_checks
strict_checks-ok blob info got h = ground arith

pub parse-Accepted : (blob : Bytes) (info : Info) → parse blob true ≡ ok info → Accepted blob info
unfolding parse
parse-Accepted blob info h =
    let magic_ok : u32_at blob 0 ≡ app_magic = ground arith in
    let checked : strict_checks blob (header_info blob) ≡ ok info = ground arith in
    let (e, some_code, fits, long, crc, vma, version) =
      strict_checks-ok blob (header_info blob) info checked in
    record {
      same = e;
      magic = magic_ok;
      some_code = rw e some_code;
      code_fits = rw e fits;
      long = rw e long;
      crc_ok = rw e crc;
      vma_ok = rw e vma;
      version_ok = rw e version;
    }
