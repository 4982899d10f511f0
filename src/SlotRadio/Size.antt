-- ===== src/SlotRadio/Size.antt =====
-- The frames that the slot commands send fit the receive buffer of the firmware.
use uv_k5_v3_emulator.Common.{
  ℕ, zero, suc, ◌+◌, ◌*◌, ◌≤◌, Bool, true, false, List, [], ◌∷◌, ◌++◌, ◌≡◌, refl, arith, length,
  Option-cases, inl, inr, get_elem?, replicate, length-append,
}
use uv_k5_v3_emulator.Common.Slices.{slice, length-slice}
use uv_k5_v3_emulator.Common.Words.{Bytes, pack32}
use uv_k5_v3_emulator.Common.Text.{Text}
use uv_k5_v3_emulator.Common.Crc32.{crc32}
use uv_k5_v3_emulator.Common.Result.{Result, ok, err, Result-cases}
use uv_k5_v3_emulator.Serial.Frame.{build}
use uv_k5_v3_emulator.Serial.Reassembly.RoundTrip.{build_inversion}
use uv_k5_v3_emulator.Serial.Reassembly.Partial.{length-wire}
use uv_k5_v3_emulator.Slots.{build_header, slot_image_offset}
use uv_k5_v3_emulator.SlotRadio.{
  Radio, Replies, RadioError, ◌>>=◌, bound, returns, framed, answer, slot_byte, field32, byte_of,
  present, session_data, session_tries, session, renewed, attempts, command, required, erase,
  chunk_data, write_chunk, is_due, renewal, write_chunks, chunk_count, write, validate, header_of,
  same_crc, install, zero_status, chunk, msg_session, msg_session_ack, msg_slot_erase,
  msg_slot_write, msg_slot_validate, crc_of, erase_status, validate_status,
}

-- The size of UART_DMA_Buffer.
abbrev pub receive_buffer : ℕ
receive_buffer = 256

abbrev pub AllFit : List Bytes → Type 0
AllFit [] = Unit
AllFit (frame ∷ frames) = (length frame ≤ receive_buffer) × AllFit frames

AllFit-append : (xs ys : List Bytes) → AllFit xs → AllFit ys → AllFit (xs ++ ys)
AllFit-append [] ys h k = k
AllFit-append (x ∷ xs) ys h k = (h.0, AllFit-append xs ys h.1 k)

-- Whatever a call returns, the frames that it sends fit.
abbrev pub Fits : {A : Type 0} → Radio A → Type 0
Fits m = (n : ℕ) → AllFit (m n).1

bound-AllFit :
    {A B : Type 0} (r : Result RadioError A × List Bytes) (k : A → Radio B) (n : ℕ)
    → AllFit r.1
    → ((a : A) → r.0 ≡ ok a → Fits (k a))
    → AllFit (bound r k n).1
bound-AllFit (ok a, sent) k n h g =
    AllFit-append sent (k a (n + length sent)).1 h (g a refl (n + length sent))
bound-AllFit (err e, sent) k n h g = h

Fits-bind :
    {A B : Type 0} (m : Radio A) (k : A → Radio B)
    → Fits m
    → ((a : A) → Fits (k a))
    → Fits (m >>= k)
Fits-bind m k h g n = bound-AllFit (m n) k n (h n) (λ a e. g a)

Fits-after :
    {A B : Type 0} (r : Result RadioError A) (k : A → Radio B)
    → ((a : A) → r ≡ ok a → Fits (k a))
    → Fits (returns r >>= k)
Fits-after r k g n = bound-AllFit (returns r n) k n tt g

Fits-returns : {A : Type 0} (r : Result RadioError A) → Fits (returns r)
Fits-returns r n = tt

-- A message of at most 244 bytes is a frame that fits.
fits :
    (msg_id : ℕ) (content frame : Bytes)
    → build msg_id content ≡ ok frame
    → length content ≤ 244
    → length frame ≤ receive_buffer
fits msg_id content frame e h =
    let (_, _, same) = build_inversion msg_id content frame e in
    rw same (omega (arith, length-wire msg_id content))

module _ (replies : Replies) (timestamp : ℕ) where
  session_tries-Fits :
      (k : ℕ) (frame : Bytes)
      → length frame ≤ receive_buffer
      → Fits (session_tries replies timestamp k frame)
  unfolding session_tries
  session_tries-Fits zero frame h n = tt
  session_tries-Fits (suc k) frame h n = elim (Option-cases (answer msg_session_ack (replies n))) [
    | inl e ↦ rw e (h, session_tries-Fits k frame h (n + 1))
    | inr (ack, e) ↦ rw e (h, tt)
  ]

  framed-ok :
      (msg_id : ℕ) (content frame : Bytes)
      → framed (build msg_id content) ≡ ok frame
      → build msg_id content ≡ ok frame
  framed-ok msg_id content frame h = elim (Result-cases (build msg_id content)) [
    | inr (x, e) ↦ absurd (ground (arith, e, h))
    | inl (f, e) ↦ ground (arith, e, h)
  ]

  session-Fits : Fits (session replies timestamp)
  unfolding session
  session-Fits = Fits-after (framed (build msg_session (session_data timestamp))) _ λ frame e.
      session_tries-Fits 6 frame (
        fits msg_session (session_data timestamp) frame
          (framed-ok msg_session (session_data timestamp) frame e)
          (unfold session_data replicate in omega arith))

  renewed-Fits : (k : ℕ) → Fits (renewed replies timestamp k)
  renewed-Fits zero n = tt
  renewed-Fits (suc k) n = session-Fits n

  attempts-Fits :
      (k ack_id : ℕ) (frame : Bytes)
      → length frame ≤ receive_buffer
      → Fits (attempts replies timestamp k ack_id frame)
  unfolding attempts
  attempts-Fits zero ack_id frame h n = tt
  attempts-Fits (suc k) ack_id frame h n = elim (Option-cases (answer ack_id (replies n))) [
    | inr (ack, e) ↦ rw e (h, tt)
    | inl e ↦ rw e (
      h,
      bound-AllFit (renewed replies timestamp k (n + 1)) _ (n + 1) (renewed-Fits k (n + 1))
          (λ u f. attempts-Fits k ack_id frame h),
    )
  ]

  required-Fits :
      (msg_id : ℕ) (content : Bytes) (ack_id : ℕ) (x : RadioError)
      → length content ≤ 244
      → Fits (required replies timestamp msg_id content ack_id x)
  unfolding required command
  required-Fits msg_id content ack_id x h =
      Fits-bind (command replies timestamp msg_id content ack_id) _
        (Fits-after (framed (build msg_id content)) _ λ frame e.
          attempts-Fits 4 ack_id frame
            (fits msg_id content frame (framed-ok msg_id content frame e) h))
        λ ack. Fits-returns (present ack x)

  slot_byte-length : (slot : ℕ) (bs : Bytes) → slot_byte slot ≡ ok bs → length bs ≡ 1
  slot_byte-length slot bs h = let e : bs ≡ slot ∷ [] = ground arith in rw e refl

  erase-Fits : (slot : ℕ) → Fits (erase replies timestamp slot)
  unfolding erase
  erase-Fits slot = Fits-after (slot_byte slot) _ λ first e.
      Fits-bind (required replies timestamp msg_slot_erase (first ++ 0 ∷ pack32 timestamp) _ _) _
        (required-Fits msg_slot_erase (first ++ 0 ∷ pack32 timestamp) _ _ (
          omega (arith, length-append first (0 ∷ pack32 timestamp), slot_byte-length slot first e)))
        λ ack. Fits-returns (byte_of (get_elem? ack 1))

  validate-Fits : (slot : ℕ) → Fits (validate replies timestamp slot)
  unfolding validate
  validate-Fits slot = Fits-after (slot_byte slot) _ λ first e.
      Fits-bind (required replies timestamp msg_slot_validate first _ _) _
        (required-Fits msg_slot_validate first _ _ (omega (arith, slot_byte-length slot first e)))
        λ ack.
          Fits-after (crc_of ack) _
            λ crc f. Fits-after (byte_of (get_elem? ack 5)) _ λ status g n. tt

  chunk_data-length :
      (slot at : ℕ) (piece : Bytes)
      → length piece ≤ chunk
      → length (chunk_data timestamp slot at piece) ≤ 244
  unfolding chunk_data
  chunk_data-length slot at piece h = omega arith

  write_chunk-Fits :
      (slot at : ℕ) (piece : Bytes)
      → length piece ≤ chunk
      → Fits (write_chunk replies timestamp slot at piece)
  unfolding write_chunk
  write_chunk-Fits slot at piece h = Fits-after (slot_byte slot) _ λ first e.
      Fits-after (field32 at) _ λ field f.
        Fits-bind
          (required replies timestamp msg_slot_write (chunk_data timestamp slot at piece) _ _) _
          (required-Fits msg_slot_write (chunk_data timestamp slot at piece) _ _
            (chunk_data-length slot at piece h))
          λ ack. Fits-after (byte_of (get_elem? ack 1)) _ λ status g n. tt

  renewal-Fits : (due : Bool) → Fits (renewal replies timestamp due)
  unfolding renewal
  renewal-Fits false = Fits-returns (ok tt)
  renewal-Fits true =
      Fits-bind (session replies timestamp) _ session-Fits λ version. Fits-returns (ok tt)

  write_chunks-Fits :
      (n index slot offset : ℕ) (blob : Bytes)
      → Fits (write_chunks replies timestamp n index slot offset blob)
  unfolding write_chunks
  write_chunks-Fits zero index slot offset blob = Fits-returns (ok tt)
  write_chunks-Fits (suc n) index slot offset blob =
      let piece = slice blob (index * chunk) (index * chunk + chunk) in
      Fits-bind (renewal replies timestamp (is_due index)) _ (renewal-Fits (is_due index)) λ u.
        Fits-bind (write_chunk replies timestamp slot (offset + index * chunk) piece) _
          (write_chunk-Fits slot (offset + index * chunk) piece
            (omega (arith, length-slice blob (index * chunk) (index * chunk + chunk))))
          λ v. write_chunks-Fits n (index + 1) slot offset blob

  -- Every frame that an install sends, handshakes and repeated frames included and whether it returns or
  -- raises, fits the receive buffer of 256 bytes, beyond which the firmware drops a frame.
  pub install-Fits :
      (slot : ℕ) (image : Bytes) (name version : Text) (n : ℕ)
      → AllFit (install replies timestamp slot image name version n).1
  unfolding install write
  install-Fits slot image name version =
      Fits-after (header_of (build_header image name version)) _ λ header e.
        Fits-bind (erase replies timestamp slot) _ (erase-Fits slot) λ status.
          Fits-after (zero_status status (erase_status status)) _ λ u f.
            Fits-bind (write replies timestamp slot 0 header) _
              (write_chunks-Fits (chunk_count header) 0 slot 0 header)
              λ v.
                Fits-bind (write replies timestamp slot slot_image_offset image) _
                  (write_chunks-Fits (chunk_count image) 0 slot slot_image_offset image)
                  λ w. Fits-bind (validate replies timestamp slot) _ (validate-Fits slot) λ verdict.
                    Fits-after (zero_status verdict.0 (validate_status verdict.0)) _
                      λ x g. Fits-returns (same_crc verdict.1 (crc32 image))
