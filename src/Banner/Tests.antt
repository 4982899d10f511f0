-- ===== src/Banner/Tests.antt =====
-- The last banner of a log, and an image that holds it.
use uv_k5_v3_emulator.Common.{◌≡◌, refl, true, false, none, some, [], ◌∷◌, drop}
use uv_k5_v3_emulator.Common.Chars.{chars, trim}
use uv_k5_v3_emulator.Banner.{
  starts_with, contains, banner_in, latest_from, latest, encode_ignore, image_mentions,
}

last_banner :
    latest (chars "UV-K5 Firmware, v1" ∷ chars "boot" ∷ chars "x UV-K5 Firmware, v2 " ∷ [])
    ≡ some (chars "v2")
unfolding latest latest_from banner_in starts_with trim drop
last_banner = refl

mentioned :
    (image_mentions (λ p. some (chars "..v2..")) (some (chars "f")) (chars "v2") ≡ true)
    × (image_mentions (λ p. some (chars "..v1..")) (some (chars "f")) (chars "v2") ≡ false)
    × (image_mentions (λ p. none) (some (chars "f")) (chars "v2") ≡ true)
unfolding image_mentions contains starts_with encode_ignore
mentioned = (refl, refl, refl)
