-- ===== src/Serial/Handshake/Tests.antt =====
-- A device that announces "5.00" in the second round, and in two of the three rounds that follow.
use uv_k5_v3_emulator.Common.{
  false, ◌≡◌, refl, arith, some, List, [], ◌∷◌, ◌++◌, min, replicate, take, drop,
}
use uv_k5_v3_emulator.Common.Words.{Bytes}
use uv_k5_v3_emulator.Common.Chars.{chars}
use uv_k5_v3_emulator.Common.Text.{pad_nul, IsPlain}
use uv_k5_v3_emulator.Common.Slices.{slice}
use uv_k5_v3_emulator.Common.Result.{ok}
use uv_k5_v3_emulator.Serial.Reassembly.{Message}
use uv_k5_v3_emulator.Serial.Handshake.{
  wait_for_device, handshake, any_announced, msg_notify_dev_info,
}
use uv_k5_v3_emulator.Serial.Handshake.Replied.{
  announced, want_of, Understood, handshake-wait_for_device,
}

abbrev content : Bytes
content = replicate 16 7 ++ (chars "5.00.01" ++ replicate 9 0)

abbrev rounds : List (List Message)
rounds =
    ((msg_notify_dev_info, content) ∷ []) ∷ [] ∷ ((1, []) ∷ (msg_notify_dev_info, []) ∷ []) ∷ []

plain : IsPlain (chars "5.00.01")
plain = omega arith

field : slice content 16 32 ≡ pad_nul 16 (chars "5.00.01")
unfolding slice pad_nul replicate take drop
field = refl

quiet_rounds : announced ([] ∷ []) ≡ 0
unfolding announced any_announced
quiet_rounds = refl

quiet_messages : any_announced ((2, []) ∷ []) ≡ false
unfolding any_announced
quiet_messages = refl

handshake-wait_for_device_example :
    (wait_for_device (([] ∷ []) ++ (((2, []) ∷ []) ++ (msg_notify_dev_info, content) ∷ []) ∷ [])
      ≡ some (chars "5.00.01", []))
    × (frame : Bytes) × (handshake (chars "5.00.01") 3 rounds
        ≡ (ok tt, replicate (min 3 (announced rounds)) frame))
    × Understood frame (want_of (chars "5.00.01"))
handshake-wait_for_device_example =
    handshake-wait_for_device ([] ∷ []) ((2, []) ∷ []) [] content [] (chars "5.00.01") 3 rounds
      quiet_rounds quiet_messages plain field
