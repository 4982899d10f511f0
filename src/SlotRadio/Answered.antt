-- ===== src/SlotRadio/Answered.antt =====
-- An install with a device that answers every command.
use uv_k5_v3_emulator.Common.{
  ℕ, zero, suc, ◌+◌, ◌*◌, ◌<◌, ◌≤◌, ◌^◌, Bool, true, false, some, List, [], ◌∷◌, ◌≡◌, refl, ap, ◌∙◌,
  ◌++◌, arith, length, inl, inr, get_elem?, replicate, ltb, lt→ltb, ltb-false, ==_refl,
}
use uv_k5_v3_emulator.Common.Slices.{slice, length-slice}
use uv_k5_v3_emulator.Common.Words.{Bytes, pack32, u32_at}
use uv_k5_v3_emulator.Common.Text.{Text}
use uv_k5_v3_emulator.Common.Crc32.{crc32}
use uv_k5_v3_emulator.Common.Result.{Result, ok, err, Result-cases}
use uv_k5_v3_emulator.Serial.Frame.{build}
use uv_k5_v3_emulator.Serial.Reassembly.{Message}
use uv_k5_v3_emulator.Slots.{build_header, slot_image_offset, header_bytes}
use uv_k5_v3_emulator.Slots.WriteRead.{image_room}
use uv_k5_v3_emulator.Slots.Layout.{length-header_bytes}
use uv_k5_v3_emulator.SlotRadio.{
  Radio, Replies, RadioError, ◌>>=◌, bound, returns, framed, answer, slot_byte, field32, byte_of,
  session_data, session_tries, session, attempts, command, required, erase, chunk_data, write_chunk,
  is_due, renewal, write_chunks, chunk_count, write, validate, header_of, same_crc, install,
  zero_status, chunk, msg_session, msg_session_ack, msg_slot_erase, msg_slot_erase_ack,
  msg_slot_write_ack, msg_slot_validate_ack, msg_slot_write, msg_slot_validate, crc_of,
  erase_status, validate_status, version_of,
}

-- A device answers a frame with messages.
abbrev pub Responder : Type 0
Responder = Bytes → List Message

-- What comes after the frames from number `n` on is what the device answers to each of them.
abbrev pub Follows : Replies → Responder → ℕ → List Bytes → Type 0
Follows replies device n [] = Unit
Follows replies device n (frame ∷ sent) =
    (replies n ≡ device frame) × Follows replies device (n + 1) sent

-- A device that answers every frame of a command `msg_id`, whatever its data, with this reply.
abbrev pub Answers : Responder → ℕ → ℕ → Bytes → Type 0
Answers device msg_id ack_id ack =
    (content frame : Bytes)
    → build msg_id content ≡ ok frame
    → answer ack_id (device frame) ≡ some ack

plus_one : (n k : ℕ) → n + 1 + k ≡ n + suc k
plus_one n k = omega arith

plus_none : (n : ℕ) → n ≡ n + 0
plus_none n = omega arith

Follows-append :
    (replies : Replies) (device : Responder) (n : ℕ) (xs ys : List Bytes)
    → Follows replies device n (xs ++ ys)
    → Follows replies device n xs × Follows replies device (n + length xs) ys
Follows-append replies device n [] ys h = (tt, rw (← plus_none n) h)
Follows-append replies device n (x ∷ xs) ys h =
    let (front, back) = Follows-append replies device (n + 1) xs ys h.1 in
    ((h.0, front), rw (← plus_one n (length xs)) back)

module _ (replies : Replies) (device : Responder) where
  -- A call returns this value, whenever it is made, if the device answers its frames.
  abbrev Succeeds : {A : Type 0} → Radio A → A → Type 0
  Succeeds m a = (n : ℕ) → Follows replies device n (m n).1 → (m n).0 ≡ ok a

  bound-Follows :
      {A B : Type 0} (r : Result RadioError A × List Bytes) (k : A → Radio B) (n : ℕ)
      → Follows replies device n (bound r k n).1
      → Follows replies device n r.1
  bound-Follows (ok x, sent) k n f =
      (Follows-append replies device n sent (k x (n + length sent)).1 f).0
  bound-Follows (err x, sent) k n f = f

  bound-ok_of :
      {A B : Type 0} (r : Result RadioError A × List Bytes) (k : A → Radio B) (n : ℕ) (a : A)
      (b : B)
      → r.0 ≡ ok a
      → Succeeds (k a) b
      → Follows replies device n (bound r k n).1
      → (bound r k n).0 ≡ ok b
  bound-ok_of (ok x, sent) k n a b e h f =
      let same : a ≡ x = cc in
      let succeeds : Succeeds (k x) b = rw⁻¹ same h in
      succeeds (n + length sent)
        (Follows-append replies device n sent (k x (n + length sent)).1 f).1
  bound-ok_of (err x, sent) k n a b e h f = cc

  Succeeds-bind :
      {A B : Type 0} (m : Radio A) (k : A → Radio B) (a : A) (b : B)
      → Succeeds m a
      → Succeeds (k a) b
      → Succeeds (m >>= k) b
  Succeeds-bind m k a b h g n f = bound-ok_of (m n) k n a b (h n (bound-Follows (m n) k n f)) g f

built_frame :
    (msg_id : ℕ) (content : Bytes)
    → msg_id < 0x10000
    → length content ≤ 244
    → (frame : Bytes) × (build msg_id content ≡ ok frame)
unfolding build
built_frame msg_id content known short =
    let b : ltb (length content + 4) 0x10000 ≡ true = ground arith in
    elim (Result-cases (build msg_id content)) [
      | inl found ↦ found
      | inr (x, e) ↦ absurd (ground (arith, e, b, lt→ltb msg_id 0x10000 known))
    ]

module _ (replies : Replies) (device : Responder) (timestamp : ℕ) where
  attempts-Succeeds :
      (k ack_id : ℕ) (frame ack : Bytes)
      → answer ack_id (device frame) ≡ some ack
      → Succeeds replies device (attempts replies timestamp (suc k) ack_id frame) (some ack)
  unfolding attempts
  attempts-Succeeds k ack_id frame ack answers n f = rw (ap (answer ack_id) f.0 ∙ answers) refl

  required-Succeeds :
      (msg_id : ℕ) (content : Bytes) (ack_id : ℕ) (x : RadioError) (ack : Bytes)
      → Answers device msg_id ack_id ack
      → msg_id < 0x10000
      → length content ≤ 244
      → Succeeds replies device (required replies timestamp msg_id content ack_id x) ack
  unfolding required command
  required-Succeeds msg_id content ack_id x ack answers known short =
      let (frame, built) = built_frame msg_id content known short in
      Succeeds-bind replies device (command replies timestamp msg_id content ack_id) _ (some ack)
        ack
        (Succeeds-bind replies device (returns (framed (build msg_id content))) _ frame (some ack)
          (λ n f. rw built refl)
          (attempts-Succeeds 3 ack_id frame ack (answers content frame built)))
        λ n f. refl

  session-Succeeds :
      (ack : Bytes)
      → Answers device msg_session msg_session_ack ack
      → Succeeds replies device (session replies timestamp) (version_of ack)
  unfolding session
  session-Succeeds ack answers =
      let (frame, built) =
        built_frame msg_session (session_data timestamp) (omega arith)
          (unfold session_data replicate in omega arith) in
      Succeeds-bind replies device (returns (framed (build msg_session (session_data timestamp)))) _
        frame (version_of ack) (λ n f. rw built refl)
        λ n f.
          unfold session_tries in
          rw (ap (answer msg_session_ack) f.0 ∙ answers (session_data timestamp) frame built) refl

  module _ (slot : ℕ) (valid : slot < 256) where
    erase-Succeeds :
        (ack : Bytes)
        → Answers device msg_slot_erase msg_slot_erase_ack ack
        → get_elem? ack 1 ≡ some 0
        → Succeeds replies device (erase replies timestamp slot) 0
    unfolding erase
    erase-Succeeds ack answers zero_at =
        Succeeds-bind replies device (returns (slot_byte slot)) _ (slot ∷ []) 0
          (λ n f. rw (lt→ltb slot 256 valid) refl)
          (Succeeds-bind replies device
            (required replies timestamp msg_slot_erase (slot ∷ 0 ∷ pack32 timestamp) _ _) _ ack 0
            (required-Succeeds msg_slot_erase (slot ∷ 0 ∷ pack32 timestamp) _ _ ack answers
              (omega arith) (omega arith))
            λ n f. rw zero_at refl)

    validate-Succeeds :
        (ack : Bytes)
        → Answers device msg_slot_validate msg_slot_validate_ack ack
        → get_elem? ack 5 ≡ some 0
        → 4 ≤ length ack
        → Succeeds replies device (validate replies timestamp slot) (0, u32_at ack 0)
    unfolding validate
    validate-Succeeds ack answers zero_at long =
        Succeeds-bind replies device (returns (slot_byte slot)) _ (slot ∷ []) (0, u32_at ack 0)
          (λ n f. rw (lt→ltb slot 256 valid) refl)
          (Succeeds-bind replies device
            (required replies timestamp msg_slot_validate (slot ∷ []) _ _) _ ack _
            (required-Succeeds msg_slot_validate (slot ∷ []) _ _ ack answers (omega arith)
              (omega arith))
            (Succeeds-bind replies device (returns (crc_of ack)) _ (u32_at ack 0) _
              (λ n f. rw (ltb-false (length ack) 4 long) refl)
              (Succeeds-bind replies device (returns (byte_of (get_elem? ack 5))) _ 0 _
                (λ n f. rw zero_at refl) λ n f. refl)))

    module _ (shake ack : Bytes) (shakes : Answers device msg_session msg_session_ack shake)
        (answers : Answers device msg_slot_write msg_slot_write_ack ack)
        (zero_at : get_elem? ack 1 ≡ some 0) where
      write_chunk-Succeeds :
          (at : ℕ) (piece : Bytes)
          → at < 2 ^ 32
          → length piece ≤ chunk
          → Succeeds replies device (write_chunk replies timestamp slot at piece) tt
      unfolding write_chunk chunk_data
      write_chunk-Succeeds at piece low short =
          Succeeds-bind replies device (returns (slot_byte slot)) _ (slot ∷ []) tt
            (λ n f. rw (lt→ltb slot 256 valid) refl)
            (Succeeds-bind replies device (returns (field32 at)) _ (pack32 at) tt
              (λ n f. rw (lt→ltb at (2 ^ 32) low) refl)
              (Succeeds-bind replies device
                (required replies timestamp msg_slot_write (chunk_data timestamp slot at piece) _ _)
                _ ack tt
                (required-Succeeds msg_slot_write (chunk_data timestamp slot at piece) _ _ ack
                  answers (omega arith) (omega arith))
                (Succeeds-bind replies device (returns (byte_of (get_elem? ack 1))) _ 0 tt
                  (λ n f. rw zero_at refl) λ n f. refl)))

      renewal-Succeeds : (due : Bool) → Succeeds replies device (renewal replies timestamp due) tt
      unfolding renewal
      renewal-Succeeds false n f = refl
      renewal-Succeeds true n f =
          Succeeds-bind replies device (session replies timestamp) _ (version_of shake) tt
            (session-Succeeds shake shakes) (λ k g. refl) n f

      write_chunks-Succeeds :
          (m index offset : ℕ) (blob : Bytes)
          → offset + (index + m) * chunk < 2 ^ 32
          → Succeeds replies device (write_chunks replies timestamp m index slot offset blob) tt
      unfolding write_chunks
      write_chunks-Succeeds zero index offset blob low n f = refl
      write_chunks-Succeeds (suc m) index offset blob low n f =
          let piece = slice blob (index * chunk) (index * chunk + chunk) in
          Succeeds-bind replies device (renewal replies timestamp (is_due index)) _ tt tt
            (renewal-Succeeds (is_due index))
            (Succeeds-bind replies device
              (write_chunk replies timestamp slot (offset + index * chunk) piece) _ tt tt
              (write_chunk-Succeeds (offset + index * chunk) piece (omega arith)
                (omega (arith, length-slice blob (index * chunk) (index * chunk + chunk))))
              (write_chunks-Succeeds m (index + 1) offset blob (omega arith)))
            n f

-- A device for an image: it answers each kind of command with that command's reply and status 0, and the
-- check with the CRC of the image.
pub record Device (device : Responder) (image : Bytes) : Type 0 where
  pub shake : Bytes
  pub erase_ack : Bytes
  pub write_ack : Bytes
  pub check_ack : Bytes
  pub shakes : Answers device msg_session msg_session_ack shake
  pub erases : Answers device msg_slot_erase msg_slot_erase_ack erase_ack
  pub erased : get_elem? erase_ack 1 ≡ some 0
  pub writes : Answers device msg_slot_write msg_slot_write_ack write_ack
  pub written : get_elem? write_ack 1 ≡ some 0
  pub checks : Answers device msg_slot_validate msg_slot_validate_ack check_ack
  pub checked : get_elem? check_ack 5 ≡ some 0
  pub whole : 4 ≤ length check_ack
  pub crc : u32_at check_ack 0 ≡ crc32 image

module _ (replies : Replies) (timestamp slot : ℕ) (image : Bytes) (name version : Text)
    (valid : slot < 256) (room : length image ≤ image_room) (device : Responder)
    (d : Device device image) where
  -- The ends of an install, from the check, the image, the header and the erase on.
  abbrev compared : ℕ × ℕ → Radio ℕ
  compared verdict = returns (zero_status verdict.0 (validate_status verdict.0)) >>= λ x.
      returns (same_crc verdict.1 (crc32 image))

  abbrev checking : Radio ℕ
  checking = validate replies timestamp slot >>= compared

  abbrev writing : Radio ℕ
  writing = write replies timestamp slot slot_image_offset image >>= λ w. checking

  abbrev heading : Bytes → Radio ℕ
  heading header = write replies timestamp slot 0 header >>= λ v. writing

  abbrev accepted : Bytes → ℕ → Radio ℕ
  accepted header status =
      returns (zero_status status (erase_status status)) >>= λ u. heading header

  abbrev erasing : Bytes → Radio ℕ
  erasing header = erase replies timestamp slot >>= accepted header

  checking-Succeeds : Succeeds replies device checking (crc32 image)
  checking-Succeeds =
      Succeeds-bind replies device (validate replies timestamp slot) compared
        (0, u32_at d.check_ack 0) (crc32 image)
        (validate-Succeeds replies device timestamp slot valid d.check_ack d.checks d.checked
          d.whole)
        λ n f. rw (d.crc, ==_refl (crc32 image)) refl

  writing-Succeeds : Succeeds replies device writing (crc32 image)
  writing-Succeeds =
      Succeeds-bind replies device (write replies timestamp slot slot_image_offset image)
        (λ w. checking) tt (crc32 image)
        (unfold write in
          write_chunks-Succeeds replies device timestamp slot valid d.shake d.write_ack d.shakes
            d.writes d.written (chunk_count image) 0 slot_image_offset image
            (unfold chunk_count in omega arith))
        checking-Succeeds

  heading-Succeeds :
      (header : Bytes) → length header ≤ 64 → Succeeds replies device (heading header) (crc32 image)
  heading-Succeeds header short =
      Succeeds-bind replies device (write replies timestamp slot 0 header) (λ v. writing) tt
        (crc32 image)
        (unfold write in
          write_chunks-Succeeds replies device timestamp slot valid d.shake d.write_ack d.shakes
            d.writes d.written (chunk_count header) 0 0 header (unfold chunk_count in omega arith))
        writing-Succeeds

  erasing-Succeeds :
      (header : Bytes) → length header ≤ 64 → Succeeds replies device (erasing header) (crc32 image)
  erasing-Succeeds header short =
      Succeeds-bind replies device (erase replies timestamp slot) (accepted header) 0 (crc32 image)
        (erase-Succeeds replies device timestamp slot valid d.erase_ack d.erases d.erased)
        (Succeeds-bind replies device (returns (zero_status 0 (erase_status 0)))
          (λ u. heading header) tt (crc32 image) (λ n f. refl) (heading-Succeeds header short))

  install-Succeeds :
      Succeeds replies device (install replies timestamp slot image name version) (crc32 image)
  unfolding install
  install-Succeeds =
      let header = header_bytes image name version in
      let fits : build_header image name version ≡ ok header =
        unfold build_header in ground arith in
      Succeeds-bind replies device (returns (header_of (build_header image name version))) erasing
        header (crc32 image) (λ n f. rw fits refl)
        (erasing-Succeeds header (omega (arith, length-header_bytes image name version)))

-- With a device that answers each command with that command's reply, status 0 and for the check the right
-- CRC, an install of an image that fits a slot, into a slot whose number is below 256, returns the CRC of
-- the image, whenever it is made: the replies after each of its frames are those of the device to that frame.
pub install-Device :
    (replies : Replies) (device : Responder) (timestamp slot : ℕ) (image : Bytes)
    (name version : Text) (n : ℕ)
    → slot < 256
    → length image ≤ image_room
    → Device device image
    → Follows replies device n (install replies timestamp slot image name version n).1
    → (install replies timestamp slot image name version n).0 ≡ ok (crc32 image)
install-Device replies device timestamp slot image name version n valid room d follows =
    install-Succeeds replies timestamp slot image name version valid room device d n follows
