-- ===== src/Qmp/Stream.antt =====
-- The answer to a command does not depend on how the stream is cut into chunks.
use mathlib.Core.List.{append-nil, append_assoc}
use uv_k5_v3_emulator.Common.{
  ℕ, zero, suc, ◌+◌, ◌<◌, ◌≡◌, ◌⊎◌, inl, inr, refl, ap, ◌∙◌, arith, true, false, Option, none, some,
  List, [], ◌∷◌, ◌++◌, ◌==◌, if◌then◌else◌, length, Option-cases, Bool-cases,
}
use uv_k5_v3_emulator.Common.Words.{Bytes}
use uv_k5_v3_emulator.Common.Text.{Text}
use uv_k5_v3_emulator.Common.Result.{Result, err}
use uv_k5_v3_emulator.Qmp.{
  Message, Client, split_newline, take_line, decided, answered, read_line, joined, stream, verdict,
  command_loop, command,
}

-- No chunk is empty: an empty one is the end of the stream.
abbrev pub AllFull : List Bytes → Type 0
AllFull [] = Unit
AllFull ([] ∷ cs) = ⊥
AllFull ((b ∷ bs) ∷ cs) = AllFull cs

module _ {V : Type 0} (parse : Bytes → Message V) (closed : Text) where
  -- The stream read byte by byte: `line` is what stands of the line so far. The result is the one of
  -- the first line that is no event, with what follows that line.
  abbrev pub scanned :
      Option (Result Text V) → Bytes → Result Text V × Bytes → Result Text V × Bytes
  scanned none bs rest = rest
  scanned (some result) bs rest = (result, bs)

  unfoldable pub scan : Bytes → Bytes → Result Text V × Bytes
  scan line [] = (err closed, line)
  scan line (b ∷ bs) =
      let next = scan (line ++ b ∷ []) bs in
      let fresh = scan [] bs in
      if b == 0x0a then scanned (verdict parse closed (parse line)) bs fresh else next

-- How a byte string that begins with `b` splits.
abbrev Splits : ℕ → Bytes → Bytes → Bytes → Type 0
Splits b xs line rest = ((b == 0x0a) ≡ true) × (line ≡ []) × (rest ≡ xs)

split_newline-cons :
    (b : ℕ) (xs line rest : Bytes)
    → split_newline (b ∷ xs) ≡ some (line, rest)
    → Splits b xs line rest
      ⊎ (((b == 0x0a) ≡ false)
          × ((l : Bytes) × (line ≡ b ∷ l) × (split_newline xs ≡ some (l, rest))))
unfolding split_newline
split_newline-cons b xs line rest h = elim (Bool-cases (b == 0x0a)) [
  | inl e ↦
      let h' : ◌≡◌ {A = Option (Bytes × Bytes)} (some ([], xs)) (some (line, rest)) = rw e at h in
      inl (e, cc, cc)
  | inr e ↦ elim (Option-cases (split_newline xs)) [
    | inl f ↦ absurd (ground (arith, e, f, h))
    | inr (p, f) ↦
        let h' : ◌≡◌ {A = Option (Bytes × Bytes)} (some (b ∷ p.0, p.1)) (some (line, rest)) =
          rw (e, f) at h in
        let same : p.1 ≡ rest = cc in inr (e, (p.0, cc, f ∙ ap (λ r. some (p.0, r)) same))
  ]
]

split_newline-append :
    (xs ys line rest : Bytes)
    → split_newline xs ≡ some (line, rest)
    → split_newline (xs ++ ys) ≡ some (line, rest ++ ys)
unfolding split_newline
split_newline-append [] ys line rest h = cc
split_newline-append (b ∷ xs) ys line rest h = elim (split_newline-cons b xs line rest h) [
  | inl (e, f, g) ↦ rw (e, f, g) refl
  | inr (e, (l, f, g)) ↦ rw (e, split_newline-append xs ys l rest g, f) refl
]

split_newline-length :
    (xs line rest : Bytes)
    → split_newline xs ≡ some (line, rest)
    → length xs ≡ length line + 1 + length rest
unfolding split_newline
split_newline-length [] line rest h = cc
split_newline-length (b ∷ xs) line rest h = elim (split_newline-cons b xs line rest h) [
  | inl (e, f, g) ↦ rw (f, g) (omega arith)
  | inr (e, (l, f, g)) ↦ rw f (omega (arith, split_newline-length xs l rest g))
]

-- A stream with no newline, and the rest of one behind its first line.
split_newline-none :
    (b : ℕ) (xs : Bytes)
    → split_newline (b ∷ xs) ≡ none
    → ((b == 0x0a) ≡ false) × (split_newline xs ≡ none)
unfolding split_newline
split_newline-none b xs h = elim (Bool-cases (b == 0x0a)) [
  | inl e ↦ absurd (ground (arith, e, h))
  | inr e ↦ elim (Option-cases (split_newline xs)) [
    | inl f ↦ (e, f)
    | inr (p, f) ↦ absurd (ground (arith, e, f, h))
  ]
]

-- What `read_line` finds in a stream, and what it leaves of it.
abbrev Reads : Bytes → Option Bytes → Client → Type 0
Reads s none c = (split_newline s ≡ none) × (stream c ≡ s)
Reads s (some line) c = (split_newline s ≡ some (line, stream c)) × AllFull c.chunks

take_line-Reads :
    (chunks : List Bytes) (buf : Bytes) (o : Option (Bytes × Bytes)) (more : Option Bytes × Client)
    → split_newline buf ≡ o
    → AllFull chunks
    → (split_newline buf ≡ none → Reads (buf ++ joined chunks) more.0 more.1)
    → let (found, c) = take_line chunks o more in Reads (buf ++ joined chunks) found c
take_line-Reads chunks buf none more e full h = h e
take_line-Reads chunks buf (some (line, rest)) more e full h =
    (split_newline-append buf (joined chunks) line rest e, full)

read_line-Reads :
    (chunks : List Bytes) (buf : Bytes)
    → AllFull chunks
    → let (found, c) = read_line chunks buf in Reads (buf ++ joined chunks) found c
unfolding read_line joined
read_line-Reads [] buf full =
    take_line-Reads [] buf (split_newline buf) _ refl tt λ e. (rw append-nil e, refl)
read_line-Reads ([] ∷ cs) buf full = absurd full
read_line-Reads ((b ∷ bs) ∷ cs) buf full =
    take_line-Reads ((b ∷ bs) ∷ cs) buf (split_newline buf) (read_line cs (buf ++ b ∷ bs)) refl full
      λ e. rw (← append_assoc buf (b ∷ bs) (joined cs)) (read_line-Reads cs (buf ++ b ∷ bs) full)

module _ {V : Type 0} (parse : Bytes → Message V) (closed : Text) where
  scan-none :
      (s line : Bytes) → split_newline s ≡ none → scan parse closed line s ≡ (err closed, line ++ s)
  unfolding scan
  scan-none [] line h = rw append-nil refl
  scan-none (b ∷ s) line h =
      let (e, f) = split_newline-none b s h in
      rw (e, scan-none s (line ++ b ∷ []) f, append_assoc line (b ∷ []) s) refl

  scan-some :
      (s l rest line : Bytes)
      → split_newline s ≡ some (l, rest)
      → scan parse closed line s
        ≡ scanned parse closed
            (verdict parse closed (parse (line ++ l)))
            rest
            (scan parse closed [] rest)
  unfolding scan
  scan-some [] l rest line h = absurd (unfold split_newline in cc)
  scan-some (b ∷ s) l rest line h = elim (split_newline-cons b s l rest h) [
    | inl (e, f, g) ↦ rw (e, f, g, append-nil) refl
    | inr (e, (m, f, g)) ↦
        rw (e, f, scan-some s m rest (line ++ b ∷ []) g, append_assoc line (b ∷ []) m) refl
  ]

  -- What the loop is meant to answer.
  abbrev AnswersAs : Result Text V × Bytes → Option (Result Text V × Client) → Type 0
  AnswersAs meant none = ⊥
  AnswersAs meant (some (result, client)) = (result, stream client) ≡ meant

  abbrev Answers : Bytes → Option (Result Text V × Client) → Type 0
  Answers s o = AnswersAs (scan parse closed [] s) o

  decided-Answers :
      (v : Option (Result Text V)) (left : Client) (rest : Option (Result Text V × Client))
      → Answers (stream left) rest
      → AnswersAs
          (scanned parse closed v (stream left) (scan parse closed [] (stream left)))
          (decided parse closed v left rest)
  decided-Answers none left none h = h
  decided-Answers none left (some (result, client)) h = h
  decided-Answers (some result) left rest h = refl

  found_answer :
      (s : Bytes) (o : Option (Result Text V × Client))
      → Answers s o
      → (result : Result Text V) × (left : Client) × (o ≡ some (result, left))
        × ((result, stream left) ≡ scan parse closed [] s)
  found_answer s none h = absurd h
  found_answer s (some (result, left)) h = (result, left, refl, h)

  answered-Answers :
      (s : Bytes) (found : Option Bytes) (left : Client) (rest : Option (Result Text V × Client))
      → Reads s found left
      → (length (stream left) < length s → AllFull left.chunks → Answers (stream left) rest)
      → Answers s (answered parse closed found left rest)
  answered-Answers s none left rest h k = rw (scan-none s [] h.0, h.1) refl
  answered-Answers s (some line) left rest h k = rw (scan-some s line (stream left) [] h.0) (
      decided-Answers (verdict parse closed (parse line)) left rest
        (k (omega (arith, split_newline-length s line (stream left) h.0)) h.1))

  command_loop-Answers :
      (n : ℕ) (client : Client)
      → length (stream client) < n
      → AllFull client.chunks
      → Answers (stream client) (command_loop parse closed n client)
  unfolding command_loop
  command_loop-Answers zero client h full = absurd (omega arith)
  command_loop-Answers (suc n) client h full =
      let (found, left) = read_line client.chunks client.buf in
      answered-Answers (stream client) found left (command_loop parse closed n left)
        (read_line-Reads client.chunks client.buf full)
        λ shorter left_full. command_loop-Answers n left (omega arith) left_full

  -- For any stream cut into chunks of any size, the loop of `command` ends, within one round more than
  -- the stream has bytes. Its answer and the bytes that it leaves are those of a reader of the whole
  -- stream, byte by byte: the value or the error of the first line that is no event, with all that
  -- follows that line kept for the next command, or the error of a connection that closes before one.
  pub command-eq-scan :
      (client : Client)
      → AllFull client.chunks
      → (result : Result Text V) × (left : Client) × (command parse closed client
          ≡ some (result, left))
        × ((result, stream left) ≡ scan parse closed [] (stream client))
  unfolding command
  command-eq-scan client full =
      found_answer (stream client) (command parse closed client)
        (command_loop-Answers (length (stream client) + 1) client (omega arith) full)
