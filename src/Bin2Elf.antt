-- ===== src/Bin2Elf.antt =====
-- `build_elf` of tools/bin2elf.py: a raw image wrapped in an ELF header, so that QEMU loads it.
pub mod Load
mod Tests
use uv_k5_v3_emulator.Common.{
  ℕ, zero, suc, ◌+◌, ◌-◌, ◌*◌, ◌%◌, ◌^◌, Bool, true, false, List, [], ◌∷◌, ◌++◌, ◌&&◌, ◌||◌, ltb,
  leb, ◌==◌, if◌then◌else◌, length, not, replicate,
}
use uv_k5_v3_emulator.Common.Words.{Bytes, pack16, pack32, u32_at}
use uv_k5_v3_emulator.Common.Result.{Result, ok, err, ◌>>=◌, ◌>>◌, raise_if}

abbrev pub em_arm : ℕ
em_arm = 40

abbrev pub et_exec : ℕ
et_exec = 2

abbrev pub pt_load : ℕ
pt_load = 1

abbrev pub ef_arm_eabi_ver5 : ℕ
ef_arm_eabi_ver5 = 0x05000000

pub data ElfError : Type 0 where
  too_short : ElfError
  sp_not_in_sram : ℕ → ElfError
  reset_outside : ℕ → ElfError
  struct_error : ElfError

-- "<16sHHIIIIIHHHHHH"
unfoldable pub elf_header : ℕ → Bytes
elf_header reset =
    0x7f ∷ 0x45 ∷ 0x4c ∷ 0x46 ∷ 1 ∷ 1 ∷ 1 ∷ 0 ∷ 0 ∷ 0 ∷ 0 ∷ 0 ∷ 0 ∷ 0 ∷ 0 ∷ 0 ∷ pack16 et_exec
    ++ (pack16 em_arm
        ++ (pack32 1
            ++ (pack32 reset
                ++ (pack32 52
                    ++ (pack32 0
                        ++ (pack32 ef_arm_eabi_ver5
                            ++ (pack16 52
                                ++ (pack16 32
                                    ++ (pack16 1 ++ (pack16 40 ++ (pack16 0 ++ pack16 0)))))))))))

-- "<IIIIIIII"
unfoldable pub program_header : ℕ → ℕ → ℕ → Bytes
program_header p_offset base size =
    pack32 pt_load
    ++ (pack32 p_offset
        ++ (pack32 base
            ++ (pack32 base ++ (pack32 size ++ (pack32 size ++ (pack32 5 ++ pack32 0x1000))))))

-- `b"\x00" * n` is empty for a negative `n`.
unfoldable pub padding : ℕ → Bytes
padding p_offset = replicate (p_offset - 84) 0

unfoldable pub build_elf : Bytes → ℕ → Result ElfError Bytes
build_elf image base = do
  raise_if (ltb (length image) 8) too_short
  let sp = u32_at image 0
  let reset = u32_at image 4
  raise_if (not (leb 0x20000000 sp && leb sp 0x20004000)) (sp_not_in_sram sp)
  let handler = reset - reset % 2
  raise_if (ltb handler base || leb (base + length image) handler) (reset_outside reset)
  let p_offset = base % 0x10000
  raise_if (leb (2 ^ 32) base || leb (2 ^ 32) (length image)) struct_error
  ok (
      elf_header reset
      ++ (program_header p_offset base (length image) ++ (padding p_offset ++ image)))
