-- ===== src/Serial/Flasher/Delivery.antt =====
-- What a programming run that returns has sent, and when it returns.
use uv_k5_v3_emulator.Common.{
  ℕ, zero, suc, ◌+◌, ◌<◌, ◌≤◌, ◌≡◌, length, some, refl, ap, ◌∙◌, arith, Option, none, List, [], ◌∷◌,
  ◌++◌, leb, replicate, Bool-cases, inl, inr,
}
use uv_k5_v3_emulator.Common.Words.{Bytes, u16_at}
use uv_k5_v3_emulator.Serial.Reassembly.{Message}
use uv_k5_v3_emulator.Common.Result.{ok, err, Result-cases}
use uv_k5_v3_emulator.Serial.Flasher.{
  Replies, page_count, page_frame, attempts, tried, Verdict, acknowledged, refused, broken, verdict,
  last_reply, Sent, counted, program_pages, program,
}

-- The last reply of a round is whole, and it names the page without an error.
abbrev pub IsAcknowledged : ℕ → List Message → Type 0
IsAcknowledged index msgs =
    (reply : Bytes) × (last_reply none msgs ≡ some reply)
    × (8 ≤ length reply)
    × (u16_at reply 4 ≡ index)
    × (u16_at reply 6 ≡ 0)

-- The pages from `index` on: each is sent once more than the attempts on it that were not acknowledged,
-- at most `retries` times, and the attempt before the next page was acknowledged.
abbrev pub InOrder : Replies → ℕ → ℕ → ℕ → Bytes → ℕ → ℕ → List Bytes → Type 0
InOrder replies zero index total image stamp retries sent = sent ≡ []
InOrder replies (suc n) index total image stamp retries sent =
    (frame : Bytes) × (k : ℕ) × (rest : List Bytes) × (page_frame image stamp index total
      ≡ ok frame)
    × (k < retries)
    × ((j : ℕ) → j < k → ¬ (IsAcknowledged index (replies index j)))
    × IsAcknowledged index (replies index k)
    × (sent ≡ replicate (suc k) frame ++ rest)
    × InOrder replies n (index + 1) total image stamp retries rest

verdict-acknowledged :
    (index : ℕ) (o : Option Bytes)
    → verdict index o ≡ acknowledged
    → (reply : Bytes) × (o ≡ some reply)
      × (8 ≤ length reply)
      × (u16_at reply 4 ≡ index)
      × (u16_at reply 6 ≡ 0)
unfolding verdict
verdict-acknowledged index none h = absurd (ground arith)
verdict-acknowledged index (some reply) h = (reply, refl, ground arith, ground arith, ground arith)

verdict-not :
    (index : ℕ) (msgs : List Message)
    → verdict index (last_reply none msgs) ≡ refused
    → ¬ (IsAcknowledged index msgs)
unfolding verdict
verdict-not index msgs h (reply, at, long, page, fine) =
    absurd (ground (arith, rw at at h, long, page, fine))

-- What the attempts on a page from `attempt` on have sent.
abbrev Tried : ℕ → ℕ → ℕ → Bytes → Replies → List Bytes → Type 0
Tried n attempt index frame replies sent =
    (k : ℕ) × (k < n)
    × ((j : ℕ) → j < k → ¬ (IsAcknowledged index (replies index (attempt + j))))
    × IsAcknowledged index (replies index (attempt + k))
    × (sent ≡ replicate (suc k) frame)

attempt_zero : (attempt : ℕ) → attempt + 0 ≡ attempt
attempt_zero attempt = omega arith

attempt_suc : (attempt k : ℕ) → attempt + 1 + k ≡ attempt + suc k
attempt_suc attempt k = omega arith

refused_first :
    (attempt index k : ℕ) (replies : Replies)
    → ¬ (IsAcknowledged index (replies index attempt))
    → ((j : ℕ) → j < k → ¬ (IsAcknowledged index (replies index (attempt + 1 + j))))
    → (j : ℕ) → j < suc k
    → ¬ (IsAcknowledged index (replies index (attempt + j)))
refused_first attempt index k replies first later zero p = rw (attempt_zero attempt) first
refused_first attempt index k replies first later (suc j) p =
    rw (← attempt_suc attempt j) (later j (omega arith))

tried-ok :
    (v : Verdict) (n attempt index : ℕ) (frame : Bytes) (replies : Replies) (rest : Sent (Unit {0}))
    → verdict index (last_reply none (replies index attempt)) ≡ v
    → (tried v frame rest).0 ≡ ok tt
    → (rest.0 ≡ ok tt → Tried n (attempt + 1) index frame replies rest.1)
    → Tried (suc n) attempt index frame replies (tried v frame rest).1
unfolding replicate
tried-ok acknowledged n attempt index frame replies rest v h more = (
  0,
  omega arith,
  (λ j p. absurd (omega arith)),
  rw (attempt_zero attempt)
      (verdict-acknowledged index (last_reply none (replies index attempt)) v),
  refl,
)
tried-ok broken n attempt index frame replies rest v h more = absurd (ground arith)
tried-ok refused n attempt index frame replies (result, sent) v h more =
    let (k, low, earlier, done, e) = more h in
    (
      suc k,
      omega arith,
      refused_first attempt index k replies (verdict-not index (replies index attempt) v) earlier,
      rw (← attempt_suc attempt k) done,
      ap (λ s. frame ∷ s) e,
    )

attempts-ok :
    (n attempt index : ℕ) (frame : Bytes) (replies : Replies)
    → (attempts n attempt index frame replies).0 ≡ ok tt
    → Tried n attempt index frame replies (attempts n attempt index frame replies).1
unfolding attempts
attempts-ok zero attempt index frame replies h = absurd (ground arith)
attempts-ok (suc n) attempt index frame replies h =
    tried-ok (verdict index (last_reply none (replies index attempt))) n attempt index frame replies
      (attempts n (attempt + 1) index frame replies) refl h
      (attempts-ok n (attempt + 1) index frame replies)

counted-ok :
    (a : Sent (Unit {0})) (b : Sent ℕ) (w : ℕ)
    → (counted a b).0 ≡ ok w
    → (v : ℕ) × (a.0 ≡ ok tt) × (b.0 ≡ ok v) × (w ≡ suc v) × ((counted a b).1 ≡ a.1 ++ b.1)
counted-ok (err e, sent) b w h = absurd (ground arith)
counted-ok (ok tt, sent) (err e, sent') w h = absurd (ground arith)
counted-ok (ok tt, sent) (ok v, sent') w h = (v, refl, refl, ground arith, refl)

plus_zero : (j : ℕ) → j ≡ 0 + j
plus_zero j = omega arith

program_pages-ok :
    (n index total : ℕ) (image : Bytes) (stamp retries : ℕ) (replies : Replies) (written : ℕ)
    → (program_pages n index total image stamp retries replies).0 ≡ ok written
    → (written ≡ n)
      × InOrder replies n index total image stamp retries
          (program_pages n index total image stamp retries replies).1
unfolding program_pages
program_pages-ok zero index total image stamp retries replies written h = (ground arith, refl)
program_pages-ok (suc n) index total image stamp retries replies written h =
    elim (Result-cases (page_frame image stamp index total)) [
      | inr (x, e) ↦ absurd (ground (arith, e, h))
      | inl (frame, e) ↦
          let here = attempts retries 0 index frame replies in
          let rest = program_pages n (index + 1) total image stamp retries replies in
          let h' : (counted here rest).0 ≡ ok written = rw e at h in
          let (v, a, b, w, s) = counted-ok here rest written h' in
          let (k, low, earlier, done, sent) = attempts-ok retries 0 index frame replies a in
          let (v', order) = program_pages-ok n (index + 1) total image stamp retries replies v b in
          (
            w ∙ ap suc v',
            rw e (
              frame,
              k,
              rest.1,
              refl,
              low,
              (λ j p. rw (plus_zero j) (earlier j p)),
              rw (plus_zero k) done,
              s ∙ ap (λ t. t ++ rest.1) sent,
              order,
            ),
          )
    ]

-- A run that returns has written every page: it has sent the frames of all the pages in order, each
-- at least once and at most as often as there are retries, and it returns their number. The attempts on a
-- page end with the first one that is acknowledged, by a last reply that is whole, names the page and
-- has no error, and no page is sent before the one in front of it was acknowledged in this way.
pub program-InOrder :
    (image : Bytes) (pages : Option ℕ) (stamp retries : ℕ) (replies : Replies) (written : ℕ)
    → (program image pages stamp retries replies).0 ≡ ok written
    → (written ≡ page_count image pages)
      × InOrder replies
          (page_count image pages)
          0
          (page_count image pages)
          image
          stamp
          retries
          (program image pages stamp retries replies).1
unfolding program
program-InOrder image pages stamp retries replies written h =
    elim (Bool-cases (leb 0x10000 (page_count image pages))) [
      | inl e ↦ absurd (ground (arith, e, h))
      | inr e ↦ rw e (
          program_pages-ok (page_count image pages) 0 (page_count image pages) image stamp retries
            replies written (rw e at h))
    ]
