-- ===== src/Logs/Tests.antt =====
-- A buffer of two lines, and a stream with a firmware line and a binary one.
use uv_k5_v3_emulator.Common.{ℕ, ◌≤◌, ◌≡◌, none, List, [], ◌∷◌, length, refl, some, take}
use uv_k5_v3_emulator.Common.Words.{Bytes}
use uv_k5_v3_emulator.Logs.{
  Item, readable, binary, make, add_all, cursor, entries, last_of, describe_line, strip_newline,
  count_unprintable, pump_stream, lines_of,
}
use uv_k5_v3_emulator.Logs.Poll.{numbered, entries-add_all}
use uv_k5_v3_emulator.Logs.Lines.{stream_items, join, AreLines, pump_stream_lem}

abbrev item : ℕ → Item
item n = record { source = "power"; line = readable (n ∷ []); ip = none; time = [] }

abbrev first : List Item
first = item 1 ∷ item 2 ∷ item 3 ∷ []

abbrev second : List Item
second = item 4 ∷ item 5 ∷ item 6 ∷ []

entries-add_all_example :
    let b = add_all first (make 2) in
    (entries (cursor b) (add_all second b) ≡ last_of 2 (numbered 4 second))
    × (length second ≤ 2 → entries (cursor b) (add_all second b) ≡ numbered 4 second)
    × (cursor (add_all second b) ≡ 6)
entries-add_all_example = entries-add_all 2 first second

binary_line :
    describe_line (λ bs. bs) (0x00 ∷ 0x01 ∷ 0x41 ∷ 0x0a ∷ [])
    ≡ some (binary 3 (0x00 ∷ 0x01 ∷ 0x41 ∷ []) 0)
unfolding describe_line strip_newline count_unprintable take
binary_line = refl

-- "SERIAL hi", and a line with no end.
abbrev stream : Bytes
stream = 0x53 ∷ 0x45 ∷ 0x52 ∷ 0x49 ∷ 0x41 ∷ 0x4c ∷ 0x20 ∷ 0x68 ∷ 0x69 ∷ 0x0a ∷ 0x00 ∷ []

pump_stream_lem_example :
    (pump_stream (λ bs. bs) "qemu" [] stream (make 500)
      ≡ add_all (stream_items (λ bs. bs) "qemu" [] (lines_of stream)) (make 500))
    × (join (lines_of stream) ≡ stream)
    × AreLines (lines_of stream)
pump_stream_lem_example = pump_stream_lem (λ bs. bs) "qemu" [] stream (make 500)
