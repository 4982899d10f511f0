-- ===== src/Serial/Flasher/Liveness.antt =====
-- A device that acknowledges every page within the retries is programmed.
use uv_k5_v3_emulator.Common.{
  ℕ, zero, suc, ◌+◌, ◌*◌, ◌≤◌, ◌<◌, ◌≡◌, refl, ap, sym, ◌∙◌, arith, Option, none, ltb, leb,
  replicate, length, true, false, lt→ltb, inl, inr,
}
use uv_k5_v3_emulator.Common.Slices.{length-slice}
use uv_k5_v3_emulator.Common.Words.{Bytes}
use uv_k5_v3_emulator.Common.Result.{ok, err, Result-cases}
use uv_k5_v3_emulator.Serial.Frame.{build}
use uv_k5_v3_emulator.Serial.Flasher.{
  Replies, page_count, page_frame, page_data, page_size, attempts, acknowledged, refused, verdict,
  last_reply, Sent, counted, program_pages, program,
}

-- The device answers a page: it refuses `k` attempts and acknowledges the next one.
abbrev pub Answers : Replies → ℕ → ℕ → ℕ → Type 0
Answers replies index attempt k =
    ((j : ℕ) → j < k → verdict index (last_reply none (replies index (attempt + j))) ≡ refused)
    × (verdict index (last_reply none (replies index (attempt + k))) ≡ acknowledged)

attempts_within :
    (k n attempt index : ℕ) (frame : Bytes) (replies : Replies)
    → k < n
    → Answers replies index attempt k
    → (attempts n attempt index frame replies).0 ≡ ok tt
unfolding attempts
attempts_within k zero attempt index frame replies low h = absurd (omega arith)
attempts_within zero (suc n) attempt index frame replies low h =
    let here : attempt + 0 ≡ attempt = omega arith in
    let e = ap (λ a. verdict index (last_reply none (replies index a))) (sym here) ∙ h.1 in
    rw e refl
attempts_within (suc k) (suc n) attempt index frame replies low h =
    let here : attempt + 0 ≡ attempt = omega arith in
    let e =
      ap (λ a. verdict index (last_reply none (replies index a))) (sym here)
      ∙ h.0 0 (omega arith) in
    rw e (
      attempts_within k n (attempt + 1) index frame replies (omega arith) (
        λ j p.
            ap (λ a. verdict index (last_reply none (replies index a))) (the_sum attempt j)
            ∙ h.0 (suc j) (omega arith),
        ap (λ a. verdict index (last_reply none (replies index a))) (the_sum attempt k) ∙ h.1,
      ))
  where
    the_sum : (a j : ℕ) → a + 1 + j ≡ a + suc j
    the_sum a j = omega arith

length-page_data :
    (image : Bytes) (stamp index total : ℕ) → length (page_data image stamp index total) ≤ 268
unfolding page_data replicate
length-page_data image stamp index total =
    omega (arith, length-slice image (index * page_size) ((index + 1) * page_size))

page_frame_ok :
    (image : Bytes) (stamp index total : ℕ)
    → (frame : Bytes) × (page_frame image stamp index total ≡ ok frame)
unfolding page_frame build
page_frame_ok image stamp index total =
    let fits : ltb (length (page_data image stamp index total) + 4) 0x10000 ≡ true =
      lt→ltb _ _ (omega (arith, length-page_data image stamp index total)) in
    elim (Result-cases (page_frame image stamp index total)) [
      | inl p ↦ p
      | inr (x, e) ↦ absurd (ground (arith, e, fits))
    ]

counted_ok :
    (a : Sent (Unit {0})) (b : Sent ℕ) (v : ℕ)
    → a.0 ≡ ok tt
    → b.0 ≡ ok v
    → (counted a b).0 ≡ ok (suc v)
counted_ok (err e, sent) b v h k = absurd (ground arith)
counted_ok (ok tt, sent) (err e, sent') v h k = absurd (ground arith)
counted_ok (ok tt, sent) (ok w, sent') v h k = ground (arith, k)

program_pages_ok :
    (n index total : ℕ) (image : Bytes) (stamp retries : ℕ) (replies : Replies)
    → ((i : ℕ) → index ≤ i → i < index + n → (k : ℕ) × (k < retries) × Answers replies i 0 k)
    → (program_pages n index total image stamp retries replies).0 ≡ ok n
unfolding program_pages
program_pages_ok zero index total image stamp retries replies h = refl
program_pages_ok (suc n) index total image stamp retries replies h =
    let (frame, e) = page_frame_ok image stamp index total in
    let (k, low, answers) = h index (omega arith) (omega arith) in
    rw e (
      counted_ok (attempts retries 0 index frame replies)
        (program_pages n (index + 1) total image stamp retries replies) n
        (attempts_within k retries 0 index frame replies low answers)
        (program_pages_ok n (index + 1) total image stamp retries replies
          (λ i p q. h i (omega arith) (omega arith))))

-- If the device acknowledges every page within the retries, whatever it refuses before, the run
-- returns, and it returns the number of the pages.
pub program_answered :
    (image : Bytes) (pages : Option ℕ) (stamp retries : ℕ) (replies : Replies)
    → page_count image pages < 0x10000
    → ((i : ℕ) → i < page_count image pages → (k : ℕ) × (k < retries) × Answers replies i 0 k)
    → (program image pages stamp retries replies).0 ≡ ok (page_count image pages)
unfolding program
program_answered image pages stamp retries replies fits h =
    let n = page_count image pages in
    let small : leb 0x10000 n ≡ false = ground (arith, fits) in
    rw small (program_pages_ok n 0 n image stamp retries replies (λ i p q. h i (omega arith)))
