-- ===== src/Common/Crc32.antt =====
-- `zlib.crc32` of Python's library: CRC-32 by the reflected polynomial 0xEDB88320, bit by bit.
use Prim.Native.Nat.{bit_xor}
use uv_k5_v3_emulator.Common.{
  ℕ, zero, suc, ◌/◌, ◌%◌, ◌^◌, ◌<◌, ◌≡◌, refl, [], ◌∷◌, arith, ◌==◌, if◌then◌else◌,
}
use uv_k5_v3_emulator.Common.Words.{Bytes}

crc32_round : ℕ → ℕ
crc32_round crc = if crc % 2 == 1 then bit_xor (crc / 2) 0xedb88320 else crc / 2

crc32_rounds : ℕ → ℕ → ℕ
crc32_rounds zero crc = crc
crc32_rounds (suc n) crc = crc32_rounds n (crc32_round crc)

crc32_from : ℕ → Bytes → ℕ
crc32_from crc [] = crc
crc32_from crc (b ∷ bs) = crc32_from (crc32_rounds 8 (bit_xor crc b)) bs

-- `zlib.crc32(bs) & 0xFFFFFFFF`
unfoldable pub crc32 : Bytes → ℕ
unfolding crc32_round crc32_rounds crc32_from
crc32 bs = bit_xor (crc32_from 0xffffffff bs) 0xffffffff % 2 ^ 32

pub crc32-lt : (bs : Bytes) → crc32 bs < 2 ^ 32
unfolding crc32
crc32-lt bs = omega arith

-- The check value of CRC-32.
crc32_check : crc32 (0x31 ∷ 0x32 ∷ 0x33 ∷ 0x34 ∷ 0x35 ∷ 0x36 ∷ 0x37 ∷ 0x38 ∷ 0x39 ∷ []) ≡ 0xcbf43926
unfolding crc32
crc32_check = refl
