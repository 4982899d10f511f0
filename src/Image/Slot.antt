-- ===== src/Image/Slot.antt =====
-- The class `ImageSlot` of tools/uvk5_image.py: the image that the next launch boots.
use uv_k5_v3_emulator.Common.{ℕ, Option, none, some}
use uv_k5_v3_emulator.Common.Text.{Text}
use uv_k5_v3_emulator.Common.Result.{Result, ok, err}
use uv_k5_v3_emulator.Image.{ImageError, ImageInfo, Files, detect}

pub record ImageSlot : Type 0 where
  pub current : Option ImageInfo

-- What `set` takes: a path, or an image that has been detected.
pub data Choice : Type 0 where
  by_path : Text → Choice
  by_info : ImageInfo → Choice

abbrev pub stored :
    ImageSlot → Result ImageError ImageInfo → Result ImageError ImageInfo × ImageSlot
stored slot (ok info) = (ok info, record { current = some info })
stored slot (err e) = (err e, slot)

-- The result and the slot after the call.
unfoldable pub set : Files → Choice → ImageSlot → Result ImageError ImageInfo × ImageSlot
set files (by_path path) slot = stored slot (detect files path)
set files (by_info info) slot = stored slot (ok info)

unfoldable pub clear : ImageSlot → ImageSlot
clear slot = record { current = none }

-- `ImageSlot(path)`
unfoldable pub make : Files → Option Text → Result ImageError ImageSlot
make files none = ok (record { current = none })
make files (some path) = elim (detect files path) [
  | ok info ↦ ok (record { current = some info })
  | err e ↦ err e
]

abbrev pub path_of : Option ImageInfo → Option Text
path_of none = none
path_of (some info) = some info.path

abbrev pub offset_of : Option ImageInfo → Option ℕ
offset_of none = none
offset_of (some info) = some info.app_offset

unfoldable pub path : ImageSlot → Option Text
path slot = path_of slot.current

unfoldable pub app_offset : ImageSlot → Option ℕ
app_offset slot = offset_of slot.current
