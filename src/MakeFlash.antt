-- ===== src/MakeFlash.antt =====
-- tools/make_flash.py: the 2 MB flash image, from erased flash, the calibration dump and blobs.
pub mod Uf2
mod Tests
use uv_k5_v3_emulator.Common.{
  ℕ, zero, suc, ◌+◌, ◌*◌, ◌%◌, ◌/◌, Bool, true, false, List, [], ◌∷◌, ◌++◌, ◌||◌, ltb, ◌==◌,
  if◌then◌else◌, length, not, replicate, drop,
}
use uv_k5_v3_emulator.Common.Slices.{slice, splice}
use uv_k5_v3_emulator.Common.Words.{Bytes, u32_at}
use uv_k5_v3_emulator.Common.Result.{Result, ok, err, ◌>>=◌, ◌>>◌, raise_if}

abbrev pub flash_size : ℕ
flash_size = 2 * 1024 * 1024

abbrev pub calibration_addr : ℕ
calibration_addr = 0x010000

abbrev pub uf2_magic0 : ℕ
uf2_magic0 = 0x0a324655

abbrev pub uf2_magic1 : ℕ
uf2_magic1 = 0x9e5d5157

abbrev pub uf2_magic_end : ℕ
uf2_magic_end = 0x0ab16f30

-- What ends the program, with the number of the block.
pub data FlashError : Type 0 where
  not_uf2 : FlashError
  bad_magic : ℕ → FlashError
  bad_payload : ℕ → ℕ → FlashError
  past_the_end : ℕ → FlashError
  does_not_fit : FlashError

-- One round of the loop of `apply_uf2`, on the block at `i`.
unfoldable pub apply_block : Bytes → Bytes → ℕ → Result FlashError Bytes
apply_block image content i = do
  let addr = u32_at content (i + 12)
  let plen = u32_at content (i + 16)
  raise_if
      (not (u32_at content i == uf2_magic0)
        || not (u32_at content (i + 4) == uf2_magic1)
        || not (u32_at content (i + 508) == uf2_magic_end))
      (bad_magic i)
  raise_if (ltb 476 plen) (bad_payload i plen)
  raise_if (ltb (length image) (addr + plen)) (past_the_end i)
  ok (splice image addr (addr + plen) (slice content (i + 32) (i + 32 + plen)))

-- `n` blocks from the one at `i` on.
unfoldable pub apply_blocks : ℕ → ℕ → Bytes → Bytes → Result FlashError Bytes
apply_blocks zero i content image = ok image
apply_blocks (suc n) i content image = do
  image' ← apply_block image content i
  apply_blocks n (i + 512) content image'

unfoldable pub apply_uf2 : Bytes → Bytes → Result FlashError Bytes
apply_uf2 image content = do
  raise_if (not (length content % 512 == 0)) not_uf2
  apply_blocks (length content / 512) 0 content image

unfoldable pub apply_blob : Bytes → ℕ → Bytes → Result FlashError Bytes
apply_blob image addr content = do
  raise_if (ltb (length image) (addr + length content)) does_not_fit
  ok (splice image addr (addr + length content) content)

-- The image that `main` starts from.
unfoldable pub base_image : Bytes → Bytes
base_image cal =
    splice (replicate flash_size 0xff) calibration_addr (calibration_addr + length cal) cal

-- A `--blob` that names a file: by its own addresses, or at the given one.
pub data Blob : Type 0 where
  uf2 : Bytes → Blob
  plain : ℕ → Bytes → Blob

unfoldable pub apply_spec : Bytes → Blob → Result FlashError Bytes
apply_spec image (uf2 content) = apply_uf2 image content
apply_spec image (plain addr content) = apply_blob image addr content

unfoldable pub apply_specs : Bytes → List Blob → Result FlashError Bytes
apply_specs image [] = ok image
apply_specs image (b ∷ bs) = do image' ← apply_spec image b; apply_specs image' bs

-- The content that `main` writes.
unfoldable pub make : Bytes → List Blob → Result FlashError Bytes
make cal blobs = apply_specs (base_image cal) blobs
