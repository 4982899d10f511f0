-- ===== src/Slots.antt =====
-- tools/uvk5_slots.py: the firmware slots of the external flash image.
pub mod Layout
pub mod Locality
pub mod WriteRead
pub mod Erase
pub mod Files
pub mod Build
mod Tests
use Prim.Native.Nat.{bit_and}
use uv_k5_v3_emulator.Common.{
  ℕ, ◌+◌, ◌-◌, ◌*◌, ◌≤◌, ◌<◌, Bool, true, false, Option, none, some, List, [], ◌∷◌, ◌++◌, ◌&&◌,
  ◌||◌, ltb, leb, ◌==◌, if◌then◌else◌, length, take, replicate, not,
}
use uv_k5_v3_emulator.Common.Slices.{slice, splice}
use uv_k5_v3_emulator.Common.Words.{Bytes, pack16, pack32, u16_at, u32_at}
use uv_k5_v3_emulator.Common.Text.{Text, before_nul, decode_ascii, encode_replace, pad_nul}
use uv_k5_v3_emulator.Common.Crc32.{crc32}
use uv_k5_v3_emulator.Common.Result.{Result, ok, err, ◌>>=◌}

-- "FMB1"
abbrev pub slot_magic : ℕ
slot_magic = 0x31424D46

abbrev pub hdr_version_written : ℕ
hdr_version_written = 1

abbrev pub mb_flag_committed : ℕ
mb_flag_committed = 1

abbrev pub slot_backup_base : ℕ
slot_backup_base = 0x020000

abbrev pub slot_stride : ℕ
slot_stride = 0x20000

abbrev pub slot_image_offset : ℕ
slot_image_offset = 0x1000

abbrev pub slot_count : ℕ
slot_count = 5

abbrev pub slot_header_size : ℕ
slot_header_size = 64

abbrev pub state_a_base : ℕ
state_a_base = 0x00100000

abbrev pub state_b_base : ℕ
state_b_base = 0x00101000

abbrev pub state_size : ℕ
state_size = 24

-- The `ValueError`s of the module, and the `struct.error` of a buffer that is too short.
pub data SlotError : Type 0 where
  out_of_range : ℕ → SlotError
  image_too_large : ℕ → SlotError
  short_buffer : SlotError
  index_error : SlotError

unfoldable pub slot_base : ℕ → Result SlotError ℕ
slot_base slot =
    if slot == 0
    then ok slot_backup_base
    else if leb 1 slot && ltb slot slot_count
    then ok (slot_backup_base + slot * slot_stride)
    else err (out_of_range slot)

-- A text in a header field of 16 bytes: 15 bytes at most, then NULs.
unfoldable pub header_text : Text → Bytes
header_text cs = pad_nul 16 (take 15 (encode_replace cs))

unfoldable pub header_bytes : Bytes → Text → Text → Bytes
header_bytes image name fw_version =
    pack32 slot_magic
    ++ (pack16 hdr_version_written
        ++ (pack16 mb_flag_committed
            ++ (pack32 (length image)
                ++ (pack32 (crc32 image)
                    ++ (header_text name ++ (header_text fw_version ++ replicate 16 0))))))

unfoldable pub build_header : Bytes → Text → Text → Result SlotError Bytes
build_header image name fw_version =
    if ltb (slot_stride - slot_image_offset) (length image)
    then err (image_too_large (length image))
    else ok (header_bytes image name fw_version)

unfoldable pub write_slot : Bytes → ℕ → Bytes → Text → Text → Result SlotError Bytes
write_slot buf slot image name fw_version = do
  base ← slot_base slot
  header ← build_header image name fw_version
  let buf' = splice buf base (base + slot_header_size) header
  let start = base + slot_image_offset
  ok (splice buf' start (start + length image) image)

unfoldable pub erase_slot : Bytes → ℕ → Result SlotError Bytes
erase_slot buf slot = do
  base ← slot_base slot
  ok (splice buf base (base + slot_stride) (replicate slot_stride 0xff))

pub record Header : Type 0 where
  pub slot : ℕ
  pub base : ℕ
  pub hdr_version : ℕ
  pub flags : ℕ
  pub image_size : ℕ
  pub image_crc32 : ℕ
  pub crc_ok : Bool
  pub name : Text
  pub fw_version : Text

-- What is read of a slot that lies at `base`.
unfoldable pub read_at : Bytes → ℕ → ℕ → Option (Header × Bytes)
read_at buf slot base =
    let flags' = u16_at buf (base + 6) in
    let size = u32_at buf (base + 8) in
    let crc = u32_at buf (base + 12) in
    if not (u32_at buf base == slot_magic) || bit_and flags' mb_flag_committed == 0
    then none
    else (let image = slice buf (base + slot_image_offset) (base + slot_image_offset + size) in
        some (
          record {
            slot = slot;
            base = base;
            hdr_version = u16_at buf (base + 4);
            flags = flags';
            image_size = size;
            image_crc32 = crc;
            crc_ok = crc32 image == crc;
            name = decode_ascii (before_nul (slice buf (base + 16) (base + 32)));
            fw_version = decode_ascii (before_nul (slice buf (base + 32) (base + 48)));
          },
          image,
        ))

unfoldable pub read_slot : Bytes → ℕ → Result SlotError (Option (Header × Bytes))
read_slot buf slot = do
  base ← slot_base slot
  if ltb (length buf) (base + 16) then err short_buffer else ok (read_at buf slot base)

unfoldable pub erase_state : Bytes → Bytes
erase_state buf =
    let buf' = splice buf state_a_base (state_a_base + state_size) (replicate state_size 0xff) in
    splice buf' state_b_base (state_b_base + state_size) (replicate state_size 0xff)
