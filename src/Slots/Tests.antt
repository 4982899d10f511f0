-- ===== src/Slots/Tests.antt =====
-- The slot functions at an erased 2 MB flash image.
use uv_k5_v3_emulator.Common.{
  ℕ, ◌+◌, ◌≡◌, ◌≢◌, ◌↔◌, ◌≤◌, ◌<◌, refl, arith, length, none, some, List, [], ◌∷◌, replicate,
  length-replicate, true, false, inl, get_elem?-replicate,
}
use uv_k5_v3_emulator.Common.Slices.{splice}
use uv_k5_v3_emulator.Common.Words.{Bytes, u32_at, byte_at}
use uv_k5_v3_emulator.Common.Text.{Text}
use uv_k5_v3_emulator.Common.Result.{ok, err}
use uv_k5_v3_emulator.Slots.{
  slot_base, write_slot, erase_slot, erase_state, read_slot, out_of_range, SlotError,
}
use uv_k5_v3_emulator.Slots.Layout.{base_of}
use uv_k5_v3_emulator.Slots.Locality.{IsSound}
use uv_k5_v3_emulator.Slots.WriteRead.{
  Holds, committed, write_slot-ok_iff, read_slot-write_slot, read_slot-write_slot_ne,
}
use uv_k5_v3_emulator.Slots.Erase.{HoldsState, erase_slot-read_slot, read_slot-erase_state}
use uv_k5_v3_emulator.Slots.Files.{
  Row, write_slot_file, write_slot_file_lem, write_slot_file_refused,
}
use uv_k5_v3_emulator.Slots.Build.{Entry, build, Reads, build-Reads, build_ok}

abbrev flash : Bytes
flash = replicate 0x200000 0xff

length-flash : length flash ≡ 0x200000
length-flash = length-replicate 0x200000 0xff

flash-HoldsState : HoldsState flash
flash-HoldsState = omega (arith, length-flash)

flash-Holds : (slot : ℕ) → slot < 5 → Holds flash slot
flash-Holds slot h = omega (arith, length-flash)

erased_word : (i : ℕ) → i + 3 < 0x200000 → u32_at flash i ≡ 0xffffffff
unfolding u32_at byte_at
erased_word i h = ground (
  arith,
  get_elem?-replicate {0} {A = ℕ} 0x200000 0xff i,
  get_elem?-replicate {0} {A = ℕ} 0x200000 0xff (i + 1),
  get_elem?-replicate {0} {A = ℕ} 0x200000 0xff (i + 2),
  get_elem?-replicate {0} {A = ℕ} 0x200000 0xff (i + 3),
)

flash-IsSound : (slot : ℕ) → slot < 5 → IsSound flash (base_of slot)
flash-IsSound slot h = inl (omega (arith, erased_word (base_of slot) (omega arith)))

abbrev firmware : Bytes
firmware = 1 ∷ 2 ∷ 3 ∷ []

-- "A"
abbrev label : Text
label = 0x41 ∷ []

out_of_range_slot : slot_base 5 ≡ err (out_of_range 5)
unfolding slot_base
out_of_range_slot = refl

abbrev described : Row
described = record {
  slot = 2;
  base = base_of 2;
  empty = false;
  header = some (committed 2 firmware label []);
}

write_slot_file_lem_example :
    let (row, out) = write_slot_file flash 2 firmware label [] true in
    (row ≡ ok described)
    × (read_slot out 2 ≡ ok (some (committed 2 firmware label [], firmware)))
    × (length out ≡ length flash)
    × ((t : ℕ) → t < 5 → 2 ≢ t → IsSound flash (base_of t) → read_slot out t ≡ read_slot flash t)
write_slot_file_lem_example =
    write_slot_file_lem flash 2 firmware label [] true flash-HoldsState (omega arith) (omega arith)
      (omega arith) tt

write_slot_file_refused_example :
    (e : SlotError) × (write_slot_file flash 7 firmware label [] true ≡ (err e, flash))
write_slot_file_refused_example =
    write_slot_file_refused flash 7 firmware label [] true (inl (omega arith))

write_slot-ok_iff_example :
    ((out : Bytes) × (write_slot flash 4 firmware label [] ≡ ok out)) ↔ ((4 < 5) × (3 ≤ 0x1f000))
write_slot-ok_iff_example = write_slot-ok_iff flash 4 firmware label []

-- The image of the tests with slot 1 written.
written_flash : (out : Bytes) × (write_slot flash 1 firmware label [] ≡ ok out)
written_flash = (write_slot-ok_iff flash 1 firmware label []).1 (omega arith, omega arith)

read_slot-write_slot_ne_example : read_slot written_flash.0 3 ≡ read_slot flash 3
read_slot-write_slot_ne_example =
    read_slot-write_slot_ne flash 1 firmware label [] written_flash.0 (flash-Holds 1 (omega arith))
      written_flash.1 3 (omega arith) (flash-IsSound 3 (omega arith))

read_slot-write_slot_example :
    read_slot written_flash.0 1 ≡ ok (some (committed 1 firmware label [], firmware))
read_slot-write_slot_example =
    read_slot-write_slot flash 1 firmware label [] written_flash.0 (flash-Holds 1 (omega arith))
      written_flash.1 (omega arith) tt

erased_flash : (out : Bytes) × (erase_slot flash 1 ≡ ok out)
unfolding erase_slot slot_base
erased_flash = (splice flash 0x40000 0x60000 (replicate 0x20000 0xff), refl)

erase_slot-read_slot_example :
    (length erased_flash.0 ≡ length flash)
    × (read_slot erased_flash.0 1 ≡ ok none)
    × ((t : ℕ) → 1 ≢ t → IsSound flash (base_of t) → read_slot erased_flash.0 t ≡ read_slot flash t)
erase_slot-read_slot_example =
    erase_slot-read_slot flash 1 erased_flash.0 (flash-Holds 1 (omega arith)) erased_flash.1

read_slot-erase_state_example : read_slot (erase_state flash) 4 ≡ read_slot flash 4
read_slot-erase_state_example =
    read_slot-erase_state flash flash-HoldsState 4 (omega arith) (flash-IsSound 4 (omega arith))

abbrev entries : List Entry
entries =
    record { slot = 1; image = firmware; name = label; version = [] }
    ∷ record { slot = 0; image = 9 ∷ []; name = []; version = label }
    ∷ []

built_flash : (out : Bytes) × (build flash entries true ≡ ok out)
built_flash = build_ok flash entries true (omega arith)

build-Reads_example : (length built_flash.0 ≡ length flash) × Reads built_flash.0 entries
build-Reads_example =
    build-Reads flash entries true built_flash.0 flash-HoldsState (omega arith) built_flash.1
