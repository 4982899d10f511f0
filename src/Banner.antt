-- ===== src/Banner.antt =====
-- tools/uvk5_banner.py: the banner that the firmware prints, and whether an image holds it.
mod Tests
use uv_k5_v3_emulator.Common.{
  ℕ, Bool, true, false, Option, none, some, List, [], ◌∷◌, ◌||◌, ◌&&◌, ltb, ◌==◌, if◌then◌else◌,
  length, drop,
}
use uv_k5_v3_emulator.Common.Text.{Text}
use uv_k5_v3_emulator.Common.Chars.{chars, trim}
use uv_k5_v3_emulator.Common.Words.{Bytes}
use uv_k5_v3_emulator.Image.{Files}

unfoldable pub starts_with : List ℕ → List ℕ → Bool
starts_with [] blob = true
starts_with (m ∷ ms) [] = false
starts_with (m ∷ ms) (b ∷ bs) = m == b && starts_with ms bs

-- `marker in blob`
unfoldable pub contains : Bytes → Bytes → Bool
contains marker [] = starts_with marker []
contains marker (b ∷ bs) = starts_with marker (b ∷ bs) || contains marker bs

abbrev pub banner_prefix : Text
banner_prefix = chars "UV-K5 Firmware,"

abbrev pub not_empty : Text → Option Text
not_empty [] = none
not_empty (c ∷ cs) = some (trim (c ∷ cs))

-- `BANNER.search(line)` and the stripped group: the rest of the line behind the first prefix, if
-- there is any. The line has no newline.
unfoldable pub banner_in : Text → Option Text
banner_in [] = none
banner_in (c ∷ cs) = elim (starts_with banner_prefix (c ∷ cs)) [
  | true ↦ not_empty (drop 15 (c ∷ cs))
  | false ↦ banner_in cs
]

abbrev pub or_found : Option Text → Option Text → Option Text
or_found none found = found
or_found (some banner) found = some banner

-- The loop of `latest`.
unfoldable pub latest_from : Option Text → List Text → Option Text
latest_from found [] = found
latest_from found (line ∷ lines) = latest_from (or_found (banner_in line) found) lines

unfoldable pub latest : List Text → Option Text
latest lines = latest_from none lines

-- `banner.encode("ascii", "ignore")`
unfoldable pub encode_ignore : Text → Bytes
encode_ignore [] = []
encode_ignore (c ∷ cs) = let rest = encode_ignore cs in if ltb c 0x80 then c ∷ rest else rest

abbrev pub mentioned : Option Bytes → Bytes → Bool
mentioned none banner = true
mentioned (some blob) banner = contains banner blob

-- `none` is no path.
unfoldable pub image_mentions : Files → Option Text → Text → Bool
image_mentions files none banner = true
image_mentions files (some path) banner =
    if length path == 0 || length banner == 0
    then true
    else mentioned (files path) (encode_ignore banner)
