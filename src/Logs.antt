-- ===== src/Logs.antt =====
-- tools/uvk5_logs.py: the bounded log buffer of the web UI, and the reader that fills it.
pub mod Poll
pub mod Lines
mod Tests
use Prim.Native.String.{String}
use uv_k5_v3_emulator.Common.{
  ℕ, zero, suc, ◌+◌, ◌-◌, ◌*◌, Bool, true, false, Option, none, some, List, [], ◌∷◌, ◌++◌, ◌&&◌,
  ◌||◌, ltb, leb, ◌==◌, if◌then◌else◌, length, not, take, drop,
}
use uv_k5_v3_emulator.Common.Words.{Bytes, bytes_eq}
use uv_k5_v3_emulator.Common.Text.{Text}

-- What is shown of a line: the text that it decodes to, or "<binary N bytes>" with the first bytes in
-- hex and the number of those that are not shown.
pub data Line : Type 0 where
  readable : Text → Line
  binary : ℕ → Bytes → ℕ → Line

unfoldable pub is_text_byte : ℕ → Bool
is_text_byte b = (leb 0x20 b && ltb b 0x7f) || b == 0x09

unfoldable pub count_unprintable : Bytes → ℕ
unfolding is_text_byte
count_unprintable [] = 0
count_unprintable (b ∷ bs) = (if is_text_byte b then 0 else 1) + count_unprintable bs

-- `raw.rstrip(b"\r\n")`
unfoldable pub strip_newline : Bytes → Bytes
strip_newline [] = []
strip_newline (b ∷ bs) = elim (strip_newline bs) [
  | [] ↦ if b == 0x0d || b == 0x0a then [] else b ∷ []
  | c ∷ cs ↦ b ∷ c ∷ cs
]

-- `decode` is `.decode("utf-8", "replace")`. `none` is the empty string.
abbrev pub describe_body : (Bytes → Text) → Bytes → Option Line
describe_body decode [] = none
describe_body decode (b ∷ bs) =
    if leb (count_unprintable (b ∷ bs) * 4) (length (b ∷ bs))
    then some (readable (decode (b ∷ bs)))
    else some (binary (length (b ∷ bs)) (take 24 (b ∷ bs)) (length (b ∷ bs) - 24))

unfoldable pub describe_line : (Bytes → Text) → Bytes → Option Line
describe_line decode raw = describe_body decode (strip_newline raw)

-- The arguments of `add`, and the time of the call.
pub record Item : Type 0 where
  pub source : String
  pub line : Line
  pub ip : Option Text
  pub time : Text

pub record Entry : Type 0 where
  pub seq : ℕ
  pub item : Item

-- The oldest entry stands first.
pub record LogBuffer : Type 0 where
  pub capacity : ℕ
  pub kept : List Entry
  pub seq : ℕ

unfoldable pub make : ℕ → LogBuffer
make capacity = record { capacity = capacity; kept = []; seq = 0 }

-- What a `deque(maxlen=n)` keeps of a list that is appended to it.
unfoldable pub last_of {ℓ} : {A : Type ℓ} → ℕ → List A → List A
last_of n xs = drop (length xs - n) xs

unfoldable pub add : Item → LogBuffer → LogBuffer
add item b = record {
  capacity = b.capacity;
  kept = last_of b.capacity (b.kept ++ record { seq = b.seq + 1; item = item } ∷ []);
  seq = b.seq + 1;
}

unfoldable pub cursor : LogBuffer → ℕ
cursor b = b.seq

unfoldable pub newer : ℕ → List Entry → List Entry
newer since [] = []
newer since (e ∷ es) = let rest = newer since es in if ltb since e.seq then e ∷ rest else rest

unfoldable pub entries : ℕ → LogBuffer → List Entry
entries since b = newer since b.kept

unfoldable pub add_all : List Item → LogBuffer → LogBuffer
add_all [] b = b
add_all (i ∷ is) b = add_all is (add i b)

-- A byte in front of the first line.
unfoldable pub put : ℕ → List Bytes → List Bytes
put b [] = (b ∷ []) ∷ []
put b (l ∷ ls) = (b ∷ l) ∷ ls

-- The lines that `readline` returns up to the end of the stream; each keeps its newline.
unfoldable pub lines_of : Bytes → List Bytes
lines_of [] = []
lines_of (b ∷ bs) = let rest = lines_of bs in if b == 0x0a then (b ∷ []) ∷ rest else put b rest

-- "SERIAL "
abbrev pub serial_tag : Bytes
serial_tag = 0x53 ∷ 0x45 ∷ 0x52 ∷ 0x49 ∷ 0x41 ∷ 0x4c ∷ 0x20 ∷ []

unfoldable pub is_serial : Bytes → Bool
is_serial raw = bytes_eq (take 7 raw) serial_tag

abbrev pub item_of : String → Text → Option Line → List Item
item_of source time none = []
item_of source time (some line) =
    record { source = source; line = line; ip = none; time = time } ∷ []

-- What one line of the stream adds.
unfoldable pub line_items : (Bytes → Text) → String → Text → Bytes → List Item
line_items decode default_source time raw =
    if is_serial raw
    then item_of "serial" time (describe_line decode (drop 7 raw))
    else item_of default_source time (describe_line decode raw)

unfoldable pub pump_lines : (Bytes → Text) → String → Text → List Bytes → LogBuffer → LogBuffer
pump_lines decode default_source time [] b = b
pump_lines decode default_source time (raw ∷ raws) b =
    pump_lines decode default_source time raws
      (add_all (line_items decode default_source time raw) b)

-- The whole stream, up to its end; the time of the calls of `add` is given once.
unfoldable pub pump_stream : (Bytes → Text) → String → Text → Bytes → LogBuffer → LogBuffer
pump_stream decode default_source time stream b =
    pump_lines decode default_source time (lines_of stream) b
