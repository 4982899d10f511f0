-- ===== src/SlotRadio/Sent.antt =====
-- What an install over the serial link that succeeds has sent.
use mathlib.Core.List.{append-nil}
use uv_k5_v3_emulator.Common.{
  ℕ, zero, suc, ◌+◌, ◌*◌, Bool, true, false, some, [], ◌∷◌, ◌≡◌, ap, ◌∙◌, arith, length,
  Option-cases, inl, inr, get_elem?,
}
use uv_k5_v3_emulator.Common.Slices.{slice}
use uv_k5_v3_emulator.Common.Words.{Bytes, pack32}
use uv_k5_v3_emulator.Common.Text.{Text}
use uv_k5_v3_emulator.Common.Crc32.{crc32}
use uv_k5_v3_emulator.Common.Result.{Result, ok, err, Result-cases}
use uv_k5_v3_emulator.Serial.Frame.{build}
use uv_k5_v3_emulator.Serial.Reassembly.RoundTrip.{wire, build_inversion}
use uv_k5_v3_emulator.Slots.{SlotError, build_header, slot_image_offset}
use uv_k5_v3_emulator.SlotRadio.Carries.{
  Carries, shaken, last, again, done, Carries-append, bound-ok, Gives, Gives-bind, Does, Does-bind,
  Does-after, Does-returns, shake_of, erase_frame, validate_frame, chunk_frame, chunk_frames,
  write_frames, install_frames,
}
use uv_k5_v3_emulator.SlotRadio.{
  Replies, RadioError, bound, returns, answer, slot_byte, field32, byte_of, present, session_data,
  session_tries, session, renewed, attempts, command, required, erase, chunk_data, write_chunk,
  is_due, renewal, write_chunks, chunk_count, write, validate, erase_status, validate_status,
  header_of, same_crc, install, zero_status, chunk, msg_session, msg_session_ack, msg_slot_erase,
  msg_slot_write, msg_slot_validate, crc_of,
}

-- The handshakes of a frame: only that frame is sent, whatever comes of them.
session_tries-Carries :
    (replies : Replies) (timestamp k : ℕ) (frame : Bytes) (n : ℕ)
    → Carries frame (session_tries replies timestamp k frame n).1 []
unfolding session_tries
session_tries-Carries replies timestamp zero frame n = done
session_tries-Carries replies timestamp (suc k) frame n =
    elim (Option-cases (answer msg_session_ack (replies n))) [
      | inl e ↦ rw e (shaken _ _ (session_tries-Carries replies timestamp k frame (n + 1)))
      | inr (ack, e) ↦ rw e (shaken _ _ done)
    ]

module _ (replies : Replies) (timestamp : ℕ) where
  session-Carries : (n : ℕ) → Carries (shake_of timestamp) (session replies timestamp n).1 []
  unfolding session
  session-Carries n = elim (Result-cases (build msg_session (session_data timestamp))) [
    | inr (x, e) ↦ rw e done
    | inl (frame, e) ↦
        let (_, _, same) = build_inversion msg_session (session_data timestamp) frame e in
        rw (e, ← same) (session_tries-Carries replies timestamp 6 frame (n + 0))
  ]

  renewed-Carries : (k n : ℕ) → Carries (shake_of timestamp) (renewed replies timestamp k n).1 []
  renewed-Carries zero n = done
  renewed-Carries (suc k) n = session-Carries n

  attempts-Carries :
      (k ack_id : ℕ) (frame : Bytes) (n : ℕ) (ack : Bytes)
      → (attempts replies timestamp k ack_id frame n).0 ≡ ok (some ack)
      → Carries (shake_of timestamp) (attempts replies timestamp k ack_id frame n).1 (frame ∷ [])
  unfolding attempts
  attempts-Carries zero ack_id frame n ack h = absurd (ground arith)
  attempts-Carries (suc k) ack_id frame n ack h = elim (Option-cases (answer ack_id (replies n))) [
    | inr (found, e) ↦ rw e (last frame [] [] done)
    | inl e ↦
        let more = renewed replies timestamp k in
        let h' : (bound (more (n + 1)) (λ u. attempts replies timestamp k ack_id frame) (n + 1)).0
            ≡ ok (some ack) =
          rw e at h in
        let (u, first, whole) =
          bound-ok (more (n + 1)) (λ u. attempts replies timestamp k ack_id frame) (n + 1)
            (some ack) h' in
        let rest =
          attempts-Carries k ack_id frame (n + 1 + length (more (n + 1)).1) ack (rw whole at h') in
        rw (e, whole)
          (again frame _ [] (
            Carries-append (shake_of timestamp) (more (n + 1)).1 [] _ (frame ∷ [])
              (renewed-Carries k (n + 1)) rest))
  ]

  command-Carries :
      (msg_id : ℕ) (content : Bytes) (ack_id n : ℕ) (ack : Bytes)
      → (command replies timestamp msg_id content ack_id n).0 ≡ ok (some ack)
      → Carries
          (shake_of timestamp)
          (command replies timestamp msg_id content ack_id n).1
          (wire msg_id content ∷ [])
  unfolding command
  command-Carries msg_id content ack_id n ack h = elim (Result-cases (build msg_id content)) [
    | inr (x, e) ↦ absurd (ground (arith, e, h))
    | inl (frame, e) ↦
        let (_, _, same) = build_inversion msg_id content frame e in
        rw (e, ← same) (attempts-Carries 4 ack_id frame (n + 0) ack (rw e at h))
  ]

  required-Does :
      (msg_id : ℕ) (content : Bytes) (ack_id : ℕ) (x : RadioError)
      → Does
          (shake_of timestamp)
          (required replies timestamp msg_id content ack_id x)
          (wire msg_id content ∷ [])
  unfolding required
  required-Does msg_id content ack_id x n a h =
      let m = command replies timestamp msg_id content ack_id n in
      let (o, first, whole) = bound-ok m (λ ack. returns (present ack x)) n a h in
      let left : present o x ≡ ok a = rw whole at h in
      elim (Option-cases o) [
        | inl e ↦ absurd (ground (arith, e, left))
        | inr (ack, e) ↦
            rw (whole, append-nil)
              (command-Carries msg_id content ack_id n ack (first ∙ ap (λ t. ok t) e))
      ]

  slot_byte-ok : (slot : ℕ) (bs : Bytes) → slot_byte slot ≡ ok bs → bs ≡ slot ∷ []
  slot_byte-ok slot bs h = ground arith

  erase-Does :
      (slot : ℕ)
      → Does (shake_of timestamp) (erase replies timestamp slot) (erase_frame timestamp slot ∷ [])
  unfolding erase
  erase-Does slot =
      Does-after (shake_of timestamp) (slot_byte slot) _ (erase_frame timestamp slot ∷ [])
        λ first e. rw (slot_byte-ok slot first e) (
          Does-bind (shake_of timestamp) _ _ (erase_frame timestamp slot ∷ []) []
            (required-Does msg_slot_erase (slot ∷ 0 ∷ pack32 timestamp) 0x723 _)
            (λ ack. Does-returns (shake_of timestamp) _))

  validate-Does :
      (slot : ℕ)
      → Does
          (shake_of timestamp)
          (validate replies timestamp slot)
          (validate_frame timestamp slot ∷ [])
  unfolding validate
  validate-Does slot =
      Does-after (shake_of timestamp) (slot_byte slot) _ (validate_frame timestamp slot ∷ [])
        λ content e. rw (slot_byte-ok slot content e) (
          Does-bind (shake_of timestamp) _ _ (validate_frame timestamp slot ∷ []) []
            (required-Does msg_slot_validate (slot ∷ []) 0x727 _)
            λ ack. Does-after (shake_of timestamp) (crc_of ack) _ [] λ crc f.
              Does-after (shake_of timestamp) (byte_of (get_elem? ack 5)) _ []
                λ status g. Does-returns (shake_of timestamp) _)

  write_chunk-Does :
      (slot at : ℕ) (piece : Bytes)
      → Does
          (shake_of timestamp)
          (write_chunk replies timestamp slot at piece)
          (chunk_frame timestamp slot at piece ∷ [])
  unfolding write_chunk
  write_chunk-Does slot at piece =
      Does-after (shake_of timestamp) (slot_byte slot) _ (chunk_frame timestamp slot at piece ∷ [])
        λ first e.
          Does-after (shake_of timestamp) (field32 at) _ (chunk_frame timestamp slot at piece ∷ [])
            λ field f.
              Does-bind (shake_of timestamp) _ _ (chunk_frame timestamp slot at piece ∷ []) []
                (required-Does msg_slot_write (chunk_data timestamp slot at piece) 0x725 _)
                λ ack.
                  Does-after (shake_of timestamp) (byte_of (get_elem? ack 1)) _ []
                    λ status g. Does-returns (shake_of timestamp) _

  renewal-Does : (due : Bool) → Does (shake_of timestamp) (renewal replies timestamp due) []
  unfolding renewal
  renewal-Does false = Does-returns (shake_of timestamp) (ok tt)
  renewal-Does true =
      Does-bind (shake_of timestamp) (session replies timestamp) _ [] []
        (λ n a h. session-Carries n) λ version. Does-returns (shake_of timestamp) (ok tt)

  write_chunks-Does :
      (n index slot offset : ℕ) (blob : Bytes)
      → Does
          (shake_of timestamp)
          (write_chunks replies timestamp n index slot offset blob)
          (chunk_frames timestamp n index slot offset blob)
  unfolding write_chunks
  write_chunks-Does zero index slot offset blob = Does-returns (shake_of timestamp) (ok tt)
  write_chunks-Does (suc n) index slot offset blob =
      Does-bind (shake_of timestamp) _ _ [] (chunk_frames timestamp (suc n) index slot offset blob)
        (renewal-Does (is_due index))
        λ u.
          Does-bind (shake_of timestamp) _ _ _
            (chunk_frames timestamp n (index + 1) slot offset blob)
            (write_chunk-Does slot (offset + index * chunk)
              (slice blob (index * chunk) (index * chunk + chunk)))
            λ v. write_chunks-Does n (index + 1) slot offset blob

  install-Does :
      (slot : ℕ) (image : Bytes) (name version : Text) (header : Bytes)
      → build_header image name version ≡ ok header
      → Does
          (shake_of timestamp)
          (install replies timestamp slot image name version)
          (install_frames timestamp slot header image)
  unfolding install write
  install-Does slot image name version header built =
      Does-after (shake_of timestamp) (header_of (build_header image name version)) _
        (install_frames timestamp slot header image)
        λ h e.
          let same : h ≡ header = ground (arith, built, e) in
          rw same (
            Does-bind (shake_of timestamp) _ _ (erase_frame timestamp slot ∷ []) _ (erase-Does slot)
              λ status. Does-after (shake_of timestamp) (zero_status status _) _ _ λ u f.
                Does-bind (shake_of timestamp) _ _ (write_frames timestamp slot 0 header) _
                  (write_chunks-Does (chunk_count header) 0 slot 0 header)
                  λ v.
                    Does-bind (shake_of timestamp) _ _
                      (write_frames timestamp slot slot_image_offset image) _
                      (write_chunks-Does (chunk_count image) 0 slot slot_image_offset image)
                      λ w.
                        Does-bind (shake_of timestamp) _ _ (validate_frame timestamp slot ∷ []) []
                          (validate-Does slot)
                          λ verdict.
                            Does-after (shake_of timestamp) (zero_status verdict.0 _) _ [] λ x g.
                              Does-returns (shake_of timestamp) (same_crc verdict.1 (crc32 image)))

  same_crc-ok : (crc own a : ℕ) → same_crc crc own ≡ ok a → a ≡ own
  same_crc-ok crc own a h = ground arith

  install-Gives :
      (slot : ℕ) (image : Bytes) (name version : Text)
      → Gives (crc32 image) (install replies timestamp slot image name version)
  unfolding install
  install-Gives slot image name version =
      let own = crc32 image in
      Gives-bind own (returns (header_of (build_header image name version))) _ λ header.
        Gives-bind own (erase replies timestamp slot) _ λ status.
          Gives-bind own (returns (zero_status status (erase_status status))) _ λ u.
            Gives-bind own (write replies timestamp slot 0 header) _ λ v.
              Gives-bind own (write replies timestamp slot slot_image_offset image) _ λ w.
                Gives-bind own (validate replies timestamp slot) _ λ verdict.
                  Gives-bind own (returns (zero_status verdict.0 (validate_status verdict.0))) _
                    λ x n a e. same_crc-ok verdict.1 own a e

  header_of-ok :
      (r : Result SlotError Bytes) (header : Bytes) → header_of r ≡ ok header → r ≡ ok header
  header_of-ok (ok h) header e = ground arith
  header_of-ok (err x) header e = cc

  install-built :
      (slot : ℕ) (image : Bytes) (name version : Text) (n crc : ℕ)
      → (install replies timestamp slot image name version n).0 ≡ ok crc
      → (header : Bytes) × (build_header image name version ≡ ok header)
  unfolding install
  install-built slot image name version n crc h =
      let (header, first, whole) =
        bound-ok (returns (header_of (build_header image name version)) n) _ n crc h in
      (header, header_of-ok (build_header image name version) header first)

  -- An install over the serial link that returns, whatever the device answers, and however often
  -- frames had to be sent again: the header could be built, the CRC that it returns is the image's own,
  -- and the frames sent carry the erase, then the header, then the pieces of the image one by one, and
  -- last the check, each at least once before the next, with nothing but handshakes in between.
  pub install-Carries :
      (slot : ℕ) (image : Bytes) (name version : Text) (n crc : ℕ)
      → (install replies timestamp slot image name version n).0 ≡ ok crc
      → (crc ≡ crc32 image)
        × (header : Bytes) × (build_header image name version ≡ ok header)
        × Carries
            (shake_of timestamp)
            (install replies timestamp slot image name version n).1
            (install_frames timestamp slot header image)
  install-Carries slot image name version n crc h =
      let (header, built) = install-built slot image name version n crc h in
      (
        install-Gives slot image name version n crc h,
        header,
        built,
        install-Does slot image name version header built n crc h,
      )
