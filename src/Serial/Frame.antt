-- ===== src/Serial/Frame.antt =====
-- `obfuscate`, `crc16_xmodem` and `build` of tools/uvk5_serial_flash.py: one frame of the link.
use Prim.Native.Nat.{bit_and, bit_xor}
use uv_k5_v3_emulator.Common.{
  ℕ, zero, suc, ◌+◌, ◌*◌, ◌%◌, ◌<◌, ◌≡◌, refl, Bool, true, [], ◌∷◌, ◌++◌, ◌&&◌, arith, ltb, ◌==◌,
  ==_iff, if◌then◌else◌, length, get_elem?, every_from, every_from-true, length-append,
}
use uv_k5_v3_emulator.Common.Words.{Bytes, IsBytes, IsBytes-append, pack16, byte_at}
use uv_k5_v3_emulator.Common.Result.{Result, ok, err}

abbrev pub magic : Bytes
magic = 0xab ∷ 0xcd ∷ []

abbrev pub end_mark : Bytes
end_mark = 0xdc ∷ 0xba ∷ []

abbrev pub obfus : Bytes
obfus =
    0x16 ∷ 0x6c ∷ 0x14 ∷ 0xe6 ∷ 0x2e ∷ 0x91 ∷ 0x0d ∷ 0x40 ∷ 0x21 ∷ 0x35 ∷ 0xd5 ∷ 0x40 ∷ 0x13 ∷ 0x03
    ∷ 0xe9 ∷ 0x80 ∷ []

-- `enumerate(data)` from the position `i` on.
unfoldable pub obfuscate_from : ℕ → Bytes → Bytes
obfuscate_from i [] = []
obfuscate_from i (b ∷ bs) = bit_xor b (byte_at obfus (i % 16)) ∷ obfuscate_from (i + 1) bs

unfoldable pub obfuscate : Bytes → Bytes
unfolding obfuscate_from
obfuscate payload = obfuscate_from 0 payload

pub length-obfuscate_from : (i : ℕ) (bs : Bytes) → length (obfuscate_from i bs) ≡ length bs
unfolding obfuscate_from
length-obfuscate_from i [] = refl
length-obfuscate_from i (b ∷ bs) = omega (arith, length-obfuscate_from (i + 1) bs)

pub length-obfuscate : (bs : Bytes) → length (obfuscate bs) ≡ length bs
length-obfuscate bs = unfold obfuscate in length-obfuscate_from 0 bs

-- The table is applied to every byte at every position of the key, by evaluation.
abbrev restores : ℕ → ℕ → Bool
restores i b = bit_xor (bit_xor b (byte_at obfus i)) (byte_at obfus i) == b

obfus_table : every_from 0 16 (λ i. every_from 0 256 (λ b. restores i b)) ≡ true
unfolding every_from byte_at get_elem?
obfus_table = refl

restores_byte : (i b : ℕ) → b < 256 → restores (i % 16) b ≡ true
restores_byte i b h =
    let row =
      every_from-true 0 16 (λ j. every_from 0 256 (λ c. restores j c)) obfus_table (i % 16)
        (omega arith) (omega arith) in
    every_from-true 0 256 (restores (i % 16)) row b (omega arith) h

obfuscate_from_twice :
    (i : ℕ) (bs : Bytes) → IsBytes bs → obfuscate_from i (obfuscate_from i bs) ≡ bs
unfolding obfuscate_from
obfuscate_from_twice i [] h = refl
obfuscate_from_twice i (b ∷ bs) h =
    cc ((==_iff _ b).0 (restores_byte i b h.0), obfuscate_from_twice (i + 1) bs h.1)

-- The obfuscation of bytes undoes itself.
pub obfuscate-obfuscate : (bs : Bytes) → IsBytes bs → obfuscate (obfuscate bs) ≡ bs
obfuscate-obfuscate bs h = unfold obfuscate in obfuscate_from_twice 0 bs h

-- One of the eight rounds for a byte.
pub crc16_round : ℕ → ℕ
crc16_round crc =
    if bit_and crc 0x8000 == 0 then (crc * 2) % 0x10000 else bit_xor (crc * 2) 0x1021 % 0x10000

pub crc16_rounds : ℕ → ℕ → ℕ
crc16_rounds zero crc = crc
crc16_rounds (suc n) crc = crc16_rounds n (crc16_round crc)

pub crc16_from : ℕ → Bytes → ℕ
crc16_from crc [] = crc
crc16_from crc (byte ∷ bs) = crc16_from (crc16_rounds 8 (bit_xor crc (byte * 256))) bs

unfoldable pub crc16_xmodem : Bytes → ℕ
unfolding crc16_round crc16_rounds crc16_from
crc16_xmodem payload = crc16_from 0 payload

-- The check value of CRC-16/XMODEM.
crc16_check :
    crc16_xmodem (0x31 ∷ 0x32 ∷ 0x33 ∷ 0x34 ∷ 0x35 ∷ 0x36 ∷ 0x37 ∷ 0x38 ∷ 0x39 ∷ []) ≡ 0x31c3
unfolding crc16_xmodem
crc16_check = refl

-- The two ways `struct.pack` refuses a frame: a field that is out of its range.
pub data StructError : Type 0 where
  field_out_of_range : StructError

-- The message that is checked and obfuscated: type, data length, data, CRC.
unfoldable pub frame_body : ℕ → Bytes → Bytes
frame_body msg_type bs =
    let payload = pack16 msg_type ++ (pack16 (length bs) ++ bs) in
    payload ++ pack16 (crc16_xmodem payload)

unfoldable pub build : ℕ → Bytes → Result StructError Bytes
build msg_type bs =
    if ltb msg_type 0x10000 && ltb (length bs + 4) 0x10000
    then ok (magic ++ (pack16 (length bs + 4) ++ (obfuscate (frame_body msg_type bs) ++ end_mark)))
    else err field_out_of_range

pub length-frame_body : (t : ℕ) (bs : Bytes) → length (frame_body t bs) ≡ length bs + 6
unfolding frame_body
length-frame_body t bs =
    omega
      (arith, length-append {0} bs (pack16 (crc16_xmodem (pack16 t ++ (pack16 (length bs) ++ bs)))))

pub IsBytes-frame_body : (t : ℕ) (bs : Bytes) → IsBytes bs → IsBytes (frame_body t bs)
unfolding frame_body
IsBytes-frame_body t bs h =
    IsBytes-append (pack16 t ++ (pack16 (length bs) ++ bs))
      (pack16 (crc16_xmodem (pack16 t ++ (pack16 (length bs) ++ bs))))
      (omega arith, (omega arith, (omega arith, (omega arith, h)))) (omega arith, (omega arith, tt))
