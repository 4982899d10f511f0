-- ===== src/Keys/Tests.antt =====
-- Two keys for a long press, and a name that is no key.
use uv_k5_v3_emulator.Common.{◌≡◌, refl, true, false, none, some, [], ◌∷◌}
use uv_k5_v3_emulator.Common.Chars.{chars, trim, upper}
use uv_k5_v3_emulator.Common.Words.{bytes_eq}
use uv_k5_v3_emulator.Common.Result.{ok, err}
use uv_k5_v3_emulator.Keys.{
  set_key, sleep, in_list, is_valid, normalise, unknown, unknown_keys, press, press_all, run,
}

names : (is_valid (chars " menu ") ≡ true) × (is_valid (chars "PTT2") ≡ false)
unfolding is_valid normalise in_list trim upper bytes_eq
names = (refl, refl)

presses :
    run (chars "1" ∷ chars "up" ∷ []) none true
    ≡ ok (
        set_key (chars "1")
        ∷ sleep 900
        ∷ set_key []
        ∷ sleep 400
        ∷ set_key (chars "UP")
        ∷ sleep 900
        ∷ set_key []
        ∷ sleep 400
        ∷ [])
unfolding run unknown_keys press_all press in_list upper bytes_eq
presses = refl

refusal : run (chars "1" ∷ chars "x" ∷ []) (some 5) false ≡ err (unknown (chars "x" ∷ []))
unfolding run unknown_keys in_list upper bytes_eq
refusal = refl
