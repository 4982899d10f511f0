-- ===== src/Logs/Lines.antt =====
-- The reader of a stream: no byte is lost between lines, and every line is added in turn.
use Prim.Native.String.{String}
use uv_k5_v3_emulator.Common.{
  ℕ, ◌≡◌, refl, ap, ◌∙◌, false, List, [], ◌∷◌, ◌++◌, ◌==◌, Bool-cases, inl, inr,
}
use uv_k5_v3_emulator.Common.Words.{Bytes}
use uv_k5_v3_emulator.Common.Text.{Text}
use uv_k5_v3_emulator.Logs.{
  Item, LogBuffer, add, add_all, lines_of, put, line_items, pump_lines, pump_stream,
}

-- The lines put together again.
unfoldable pub join : List Bytes → Bytes
join [] = []
join (l ∷ ls) = l ++ join ls

-- A newline stands at the end of a line or nowhere in it.
unfoldable pub IsLine : Bytes → Type 0
IsLine [] = Unit
IsLine (b ∷ []) = Unit
IsLine (b ∷ c ∷ cs) = ((b == 0x0a) ≡ false) × IsLine (c ∷ cs)

abbrev pub AreLines : List Bytes → Type 0
AreLines [] = Unit
AreLines (l ∷ ls) = IsLine l × AreLines ls

join-put : (b : ℕ) (ls : List Bytes) → join (put b ls) ≡ b ∷ join ls
unfolding join put
join-put b [] = refl
join-put b (l ∷ ls) = refl

-- The items of a whole stream.
unfoldable pub stream_items : (Bytes → Text) → String → Text → List Bytes → List Item
stream_items decode source time [] = []
stream_items decode source time (l ∷ ls) =
    line_items decode source time l ++ stream_items decode source time ls

add_all-append :
    (is js : List Item) (b : LogBuffer) → add_all js (add_all is b) ≡ add_all (is ++ js) b
unfolding add_all
add_all-append [] js b = refl
add_all-append (i ∷ is) js b = add_all-append is js (add i b)

pump_lines-stream_items :
    (decode : Bytes → Text) (source : String) (time : Text) (ls : List Bytes) (b : LogBuffer)
    → pump_lines decode source time ls b ≡ add_all (stream_items decode source time ls) b
unfolding pump_lines stream_items
pump_lines-stream_items decode source time [] b = unfold add_all in refl
pump_lines-stream_items decode source time (l ∷ ls) b =
    pump_lines-stream_items decode source time ls (add_all (line_items decode source time l) b)
    ∙ add_all-append (line_items decode source time l) (stream_items decode source time ls) b

join-lines_of : (bs : Bytes) → join (lines_of bs) ≡ bs
unfolding lines_of join
join-lines_of [] = refl
join-lines_of (b ∷ bs) = elim (Bool-cases (b == 0x0a)) [
  | inl e ↦ rw e (ap (λ r. b ∷ r) (join-lines_of bs))
  | inr e ↦ rw e (join-put b (lines_of bs) ∙ ap (λ r. b ∷ r) (join-lines_of bs))
]

AreLines-put : (b : ℕ) (ls : List Bytes) → (b == 0x0a) ≡ false → AreLines ls → AreLines (put b ls)
unfolding put IsLine
AreLines-put b [] h k = (tt, tt)
AreLines-put b ([] ∷ ls) h k = (tt, k.1)
AreLines-put b ((c ∷ cs) ∷ ls) h k = ((h, k.0), k.1)

lines_of-AreLines : (bs : Bytes) → AreLines (lines_of bs)
unfolding lines_of
lines_of-AreLines [] = tt
lines_of-AreLines (b ∷ bs) = elim (Bool-cases (b == 0x0a)) [
  | inl e ↦ rw e (unfold IsLine in tt, lines_of-AreLines bs)
  | inr e ↦ rw e (AreLines-put b (lines_of bs) e (lines_of-AreLines bs))
]

-- Whatever the decoder does with the bytes, the reader adds to the log, in order, what each line of
-- the stream gives, and the lines are the stream: together they are all of its bytes, and a newline
-- only ends a line.
pub pump_stream_lem :
    (decode : Bytes → Text) (source : String) (time : Text) (stream : Bytes) (b : LogBuffer)
    → (pump_stream decode source time stream b
        ≡ add_all (stream_items decode source time (lines_of stream)) b)
      × (join (lines_of stream) ≡ stream)
      × AreLines (lines_of stream)
unfolding pump_stream
pump_stream_lem decode source time stream b = (
  pump_lines-stream_items decode source time (lines_of stream) b,
  join-lines_of stream,
  lines_of-AreLines stream,
)
