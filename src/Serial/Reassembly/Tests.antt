-- ===== src/Serial/Reassembly/Tests.antt =====
-- The frames of the link on small inputs, and each theorem at one of them.
use uv_k5_v3_emulator.Common.{
  ◌≡◌, ◌≢◌, drop, get_elem?, refl, none, some, List, [], ◌∷◌, ◌++◌, arith,
}
use uv_k5_v3_emulator.Common.Words.{Bytes, byte_at, IsBytes}
use uv_k5_v3_emulator.Common.Result.{ok}
use uv_k5_v3_emulator.Serial.Frame.{build, obfuscate, frame_body, crc16_xmodem, obfuscate-obfuscate}
use uv_k5_v3_emulator.Serial.Reassembly.{find_magic, take_frame, drain, feed, Message}
use uv_k5_v3_emulator.Serial.Reassembly.Progress.{take_frame_total}
use uv_k5_v3_emulator.Serial.Reassembly.RoundTrip.{take_frame-build}
use uv_k5_v3_emulator.Serial.Reassembly.Partial.{take_frame-pieces, take_frame-split_magic}
use uv_k5_v3_emulator.Serial.Reassembly.Drain.{build_all, drain-build_all}

abbrev info_frame : Bytes
info_frame =
    0xab ∷ 0xcd ∷ 0x05 ∷ 0x00 ∷ 0x36 ∷ 0x6b ∷ 0x15 ∷ 0xe6 ∷ 0x2d ∷ 0x5b ∷ 0x53 ∷ 0xdc ∷ 0xba ∷ []

abbrev hello_frame : Bytes
hello_frame = 0xab ∷ 0xcd ∷ 0x04 ∷ 0x00 ∷ 0x02 ∷ 0x69 ∷ 0x14 ∷ 0xe6 ∷ 0x88 ∷ 0xab ∷ 0xdc ∷ 0xba ∷ []

built-info : build 0x0720 (3 ∷ []) ≡ ok info_frame
unfolding build obfuscate frame_body crc16_xmodem byte_at get_elem?
built-info = refl

built-hello : build 0x0514 [] ≡ ok hello_frame
unfolding build obfuscate frame_body crc16_xmodem byte_at get_elem?
built-hello = refl

info-IsBytes : IsBytes (3 ∷ [])
info-IsBytes = omega arith

-- A frame whose obfuscated part holds the magic is still taken whole.
magic_inside : find_magic (0x00 ∷ 0xab ∷ 0xcd ∷ []) ≡ some 1
unfolding find_magic
magic_inside = refl

take_frame-build_example :
    take_frame (record { buf = (0x41 ∷ 0xab ∷ []) ++ (info_frame ++ (7 ∷ [])) })
    ≡ some (some (0x0720, 3 ∷ []), record { buf = 7 ∷ [] })
unfolding find_magic
take_frame-build_example =
    take_frame-build (0x41 ∷ 0xab ∷ []) 0x0720 (3 ∷ []) info_frame (7 ∷ []) built-info info-IsBytes
      refl

take_frame-pieces_example :
    let first = feed (record { buf = [] }) (0xab ∷ 0xcd ∷ 5 ∷ 0 ∷ []) in
    (take_frame first ≡ some (none, first))
    × (take_frame (feed first (drop 4 info_frame))
        ≡ some (some (0x0720, 3 ∷ []), record { buf = [] }))
unfolding drop
take_frame-pieces_example =
    take_frame-pieces 0x0720 (3 ∷ []) info_frame (5 ∷ 0 ∷ []) (drop 4 info_frame) built-info
      info-IsBytes refl (omega arith)

take_frame-split_magic_example :
    let first = feed (record { buf = [] }) (0xab ∷ []) in
    (take_frame first ≡ some (none, record { buf = [] }))
    × (take_frame (feed (record { buf = [] }) (drop 1 info_frame))
        ≡ some (none, record { buf = [] }))
unfolding drop find_magic
take_frame-split_magic_example =
    take_frame-split_magic 0x0720 (3 ∷ []) info_frame (drop 1 info_frame) built-info refl refl

abbrev session : List Message
session = (0x0514, []) ∷ (0x0720, 3 ∷ []) ∷ []

built-session : build_all session ≡ ok (hello_frame ++ info_frame)
unfolding build_all
built-session = rw (built-hello, built-info)

drain-build_all_example :
    drain (feed (record { buf = [] }) (hello_frame ++ info_frame))
    ≡ some (session, record { buf = [] })
drain-build_all_example =
    drain-build_all session (hello_frame ++ info_frame) built-session (omega arith)

take_frame_total_example : take_frame (record { buf = 0xab ∷ 0xcd ∷ [] }) ≢ none
take_frame_total_example = take_frame_total (record { buf = 0xab ∷ 0xcd ∷ [] })

obfuscate-obfuscate_example : obfuscate (obfuscate (3 ∷ [])) ≡ 3 ∷ []
obfuscate-obfuscate_example = obfuscate-obfuscate (3 ∷ []) info-IsBytes
