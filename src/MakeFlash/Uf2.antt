-- ===== src/MakeFlash/Uf2.antt =====
-- Where the bytes of the flash image come from.
use uv_k5_v3_emulator.Common.{
  ℕ, zero, suc, ◌+◌, ◌*◌, ◌/◌, ◌≤◌, ◌≡◌, ◌⊎◌, inl, inr, refl, ap, sym, ◌∙◌, arith, length,
}
use uv_k5_v3_emulator.Common.Slices.{slice, splice, length-slice, length-splice}
use uv_k5_v3_emulator.Common.Words.{Bytes, u32_at}
use uv_k5_v3_emulator.Common.Regions.{
  SameOn, SameOn-trans, SameOn-slice, splice-SameOn, slice-splice_self,
}
use uv_k5_v3_emulator.Common.Result.{ok, err, Result-cases}
use uv_k5_v3_emulator.MakeFlash.{FlashError, apply_block, apply_blocks, apply_uf2}

-- The target of the block at `i`, its end, and its payload.
abbrev pub target : Bytes → ℕ → ℕ
target content i = u32_at content (i + 12)

abbrev pub target_end : Bytes → ℕ → ℕ
target_end content i = u32_at content (i + 12) + u32_at content (i + 16)

abbrev pub payload : Bytes → ℕ → Bytes
payload content i = slice content (i + 32) (i + 32 + u32_at content (i + 16))

-- No one of the `n` blocks from `i` on writes between `lo` and `hi`.
abbrev pub Clear : Bytes → ℕ → ℕ → ℕ → ℕ → Type 0
Clear content zero i lo hi = Unit
Clear content (suc n) i lo hi =
    ((hi ≤ target content i) ⊎ (target_end content i ≤ lo)) × Clear content n (i + 512) lo hi

record Written (image content : Bytes) (i : ℕ) (out : Bytes) : Type 0 where
  small : u32_at content (i + 16) ≤ 476
  room : target_end content i ≤ length image
  written : out ≡ splice image (target content i) (target_end content i) (payload content i)

apply_block-Written :
    (image content : Bytes) (i : ℕ) (out : Bytes)
    → apply_block image content i ≡ ok out
    → Written image content i out
unfolding apply_block
apply_block-Written image content i out h = record {
  small = ground arith;
  room = ground arith;
  written = ground arith;
}

module _ (image content : Bytes) (i : ℕ) (out : Bytes) (w : Written image content i out)
    (whole : i + 512 ≤ length content) where
  payload_size : target content i + length (payload content i) ≡ target_end content i
  payload_size =
      omega (arith, length-slice content (i + 32) (i + 32 + u32_at content (i + 16)), w.small)

  block_length : length out ≡ length image
  block_length =
      ap length w.written
      ∙ length-splice image (target content i) (target_end content i) (payload content i)
          payload_size w.room

  block-SameOn :
      (lo hi : ℕ) → (hi ≤ target content i) ⊎ (target_end content i ≤ lo) → SameOn lo hi out image
  block-SameOn lo hi apart = rw w.written (
      splice-SameOn image (target content i) (target_end content i) (payload content i) lo hi
        payload_size w.room apart)

  block_payload : slice out (target content i) (target_end content i) ≡ payload content i
  block_payload = rw w.written (
      slice-splice_self image (target content i) (target_end content i) (payload content i)
        payload_size w.room)

module _ (content : Bytes) where
  apply_blocks-SameOn :
      (n i : ℕ) (image out : Bytes) (lo hi : ℕ)
      → i + 512 * n ≤ length content
      → Clear content n i lo hi
      → apply_blocks n i content image ≡ ok out
      → (length out ≡ length image) × SameOn lo hi out image
  unfolding apply_blocks
  apply_blocks-SameOn zero i image out lo hi whole clear h =
      let same : image ≡ out = ground (arith, h) in (ap length (sym same), rw same (λ k p q. refl))
  apply_blocks-SameOn (suc n) i image out lo hi whole clear h =
      elim (Result-cases (apply_block image content i)) [
        | inl (next, e) ↦
            let w = apply_block-Written image content i next e in
            let (size, rest) =
              apply_blocks-SameOn n (i + 512) next out lo hi (omega arith) clear.1
                (ground (arith, e, h)) in
            (
              size ∙ block_length image content i next w (omega arith),
              SameOn-trans lo hi out next image rest
                  (block-SameOn image content i next w (omega arith) lo hi clear.0),
            )
        | inr (x, e) ↦ absurd (ground (arith, e, h))
      ]

  later :
      (t i : ℕ) (image out next : Bytes)
      → apply_block image content i ≡ ok next
      → apply_blocks (suc t) i content image ≡ ok out
      → apply_blocks t (i + 512) content next ≡ ok out
  unfolding apply_blocks
  later t i image out next e h = ground (arith, e, h)

  failed :
      (t i : ℕ) (image out : Bytes) (x : FlashError)
      → apply_block image content i ≡ err x
      → apply_blocks (suc t) i content image ≡ ok out
      → ⊥
  unfolding apply_blocks
  failed t i image out x e h = ground (arith, e, h)

  nowhere : (n i : ℕ) → Clear content n i 0 0
  nowhere zero i = tt
  nowhere (suc n) i = (inl (omega arith), nowhere n (i + 512))

  -- The last block that writes a region.
  apply_blocks-payload :
      (n i : ℕ) (image out : Bytes)
      → i + 512 * suc n ≤ length content
      → Clear content n (i + 512) (target content i) (target_end content i)
      → apply_blocks (suc n) i content image ≡ ok out
      → slice out (target content i) (target_end content i) ≡ payload content i
  unfolding apply_blocks
  apply_blocks-payload n i image out whole clear h =
      elim (Result-cases (apply_block image content i)) [
        | inl (next, e) ↦
            let w = apply_block-Written image content i next e in
            let lo = target content i in
            let hi = target_end content i in
            let (_, rest) =
              apply_blocks-SameOn n (i + 512) next out lo hi (omega arith) clear
                (ground (arith, e, h)) in
            SameOn-slice lo hi out next rest lo hi (omega arith) (omega arith)
            ∙ block_payload image content i next w (omega arith)
        | inr (x, e) ↦ absurd (ground (arith, e, h))
      ]

  -- The same for the block at `b`, the one `k` after `i`.
  apply_blocks_nth :
      (k total n i b : ℕ) (image out : Bytes)
      → total ≡ k + suc n
      → b ≡ i + 512 * k
      → i + 512 * total ≤ length content
      → Clear content n (b + 512) (target content b) (target_end content b)
      → apply_blocks total i content image ≡ ok out
      → slice out (target content b) (target_end content b) ≡ payload content b
  apply_blocks_nth zero total n i b image out count place whole clear h =
      let here : b ≡ i = omega arith in
      let all : total ≡ suc n = omega arith in
      rw here (apply_blocks-payload n i image out (omega arith) (rw here at clear) (rw all at h))
  apply_blocks_nth (suc k) zero n i b image out count place whole clear h = absurd (omega arith)
  apply_blocks_nth (suc k) (suc t) n i b image out count place whole clear h =
      elim (Result-cases (apply_block image content i)) [
        | inl (next, e) ↦
            apply_blocks_nth k t n (i + 512) b next out (omega arith) (omega arith) (omega arith)
              clear (later t i image out next e h)
        | inr (x, e) ↦ absurd (failed t i image out x e h)
      ]

-- A UF2 file that is accepted has its blocks in the flash: the size of the image is kept, a region
-- that no block writes is as it was, and the region of a block that no later block writes holds the
-- payload of that block.
pub apply_uf2_lem :
    (image content out : Bytes)
    → apply_uf2 image content ≡ ok out
    → (length out ≡ length image)
      × ((lo hi : ℕ) → Clear content (length content / 512) 0 lo hi → SameOn lo hi out image)
      × ((k n : ℕ)
          → length content / 512 ≡ k + suc n
          → Clear content n
              (512 * k + 512)
              (target content (512 * k))
              (target_end content (512 * k))
          → slice out (target content (512 * k)) (target_end content (512 * k))
            ≡ payload content (512 * k))
unfolding apply_uf2
apply_uf2_lem image content out h =
    let total = length content / 512 in
    let run : apply_blocks total 0 content image ≡ ok out = ground (arith, h) in
    let whole : 0 + 512 * total ≤ length content = omega arith in
    (
      (apply_blocks-SameOn content total 0 image out 0 0 whole (nowhere content total 0) run).0,
      λ lo hi clear. (apply_blocks-SameOn content total 0 image out lo hi whole clear run).1,
      λ k n count clear.
          apply_blocks_nth content k total n 0 (512 * k) image out count (omega arith) whole clear
            run,
    )
