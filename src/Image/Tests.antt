-- ===== src/Image/Tests.antt =====
-- A full-flash image of ten bytes.
use uv_k5_v3_emulator.Common.{
  ◌+◌, ◌≡◌, ◌↔◌, ◌≤◌, ◌<◌, some, [], ◌∷◌, refl, length, take, drop, get_elem?,
}
use uv_k5_v3_emulator.Common.Slices.{slice}
use uv_k5_v3_emulator.Common.Words.{Bytes, bytes_eq, u32_at, byte_at}
use uv_k5_v3_emulator.Common.Result.{ok}
use uv_k5_v3_emulator.Image.{
  flash_base, max_image, full_flash, ImageInfo, vector_info, Files, detect, detect_content,
  image_of, by_vector, vector_at,
}
use uv_k5_v3_emulator.Image.Detect.{Boots, detect-ok_iff, app_offset_lem}

-- The stack pointer 0x20004000 and the handler 0x08000009.
abbrev image_file : Bytes
image_file = 0x00 ∷ 0x40 ∷ 0x00 ∷ 0x20 ∷ 0x09 ∷ 0x00 ∷ 0x00 ∷ 0x08 ∷ 0x00 ∷ 0xbf ∷ []

abbrev files : Files
files path = some image_file

abbrev info : ImageInfo
info = vector_info [] full_flash 0 10 0x20004000 0x08000009

detect-ok_iff_example : (detect files [] ≡ ok info) ↔ (
    (content : Bytes) × (files [] ≡ some content)
    × (0 < length content)
    × (length content ≤ max_image)
    × Boots [] content info)
detect-ok_iff_example = detect-ok_iff files [] info

detected : detect files [] ≡ ok info
unfolding detect detect_content image_of by_vector vector_at u32_at bytes_eq slice take drop byte_at
    get_elem?
detected = refl

app_offset_lem_example :
    (flash_base + info.app_offset ≤ 0x08000009)
    × ((info.kind ≡ full_flash) ↔ (0x08000009 < flash_base + 0x2800))
app_offset_lem_example = app_offset_lem files [] info 0x08000009 detected refl
