-- ===== src/SlotRadio/Carries.antt =====
-- What a call of the slot commands that returns has sent, and the frames of an install.
use uv_k5_v3_emulator.Common.{ℕ, zero, suc, ◌+◌, ◌*◌, List, [], ◌∷◌, ◌++◌, ◌≡◌, refl, length}
use uv_k5_v3_emulator.Common.Slices.{slice}
use uv_k5_v3_emulator.Common.Words.{Bytes, pack32}
use uv_k5_v3_emulator.Common.Result.{Result, ok, err}
use uv_k5_v3_emulator.Serial.Reassembly.RoundTrip.{wire}
use uv_k5_v3_emulator.Slots.{slot_image_offset}
use uv_k5_v3_emulator.SlotRadio.{
  Radio, RadioError, ◌>>=◌, bound, after_sent, returns, session_data, chunk_data, chunk_count,
  chunk, msg_session, msg_slot_erase, msg_slot_write, msg_slot_validate,
}

-- The frames that were sent carry the wanted ones, in order: each once or more, the copies of one
-- before those of the next, with handshakes anywhere.
pub data Carries (shake : Bytes) : List Bytes → List Bytes → Type 0 where
  done : Carries shake [] []
  shaken : (sent want : List Bytes) → Carries shake sent want → Carries shake (shake ∷ sent) want
  last :
      (frame : Bytes) (sent want : List Bytes)
      → Carries shake sent want
      → Carries shake (frame ∷ sent) (frame ∷ want)
  again :
      (frame : Bytes) (sent want : List Bytes)
      → Carries shake sent (frame ∷ want)
      → Carries shake (frame ∷ sent) (frame ∷ want)

pub Carries-append :
    (shake : Bytes) (xs want ys want' : List Bytes)
    → Carries shake xs want
    → Carries shake ys want'
    → Carries shake (xs ++ ys) (want ++ want')
Carries-append shake _ _ ys want' done k = k
Carries-append shake _ _ ys want' (shaken sent want h) k =
    shaken (sent ++ ys) (want ++ want') (Carries-append shake sent want ys want' h k)
Carries-append shake _ _ ys want' (last frame sent want h) k =
    last frame (sent ++ ys) (want ++ want') (Carries-append shake sent want ys want' h k)
Carries-append shake _ _ ys want' (again frame sent want h) k =
    again frame (sent ++ ys) (want ++ want') (Carries-append shake sent (frame ∷ want) ys want' h k)

pub bound-ok :
    {A B : Type 0} (r : Result RadioError A × List Bytes) (k : A → Radio B) (n : ℕ) (b : B)
    → (bound r k n).0 ≡ ok b
    → (a : A) × (r.0 ≡ ok a) × (bound r k n ≡ after_sent r.1 (k a (n + length r.1)))
bound-ok (ok a, sent) k n b h = (a, refl, refl)
bound-ok (err e, sent) k n b h = cc

-- A call that returns a number returns this one.
abbrev pub Gives : ℕ → Radio ℕ → Type 0
Gives own m = (n crc : ℕ) → (m n).0 ≡ ok crc → crc ≡ own

pub Gives-bind :
    {A : Type 0} (own : ℕ) (m : Radio A) (k : A → Radio ℕ)
    → ((a : A) → Gives own (k a))
    → Gives own (m >>= k)
Gives-bind own m k h n b e =
    let (a, first, whole) = bound-ok (m n) k n b e in h a (n + length (m n).1) b (rw whole at e)

module _ (shake : Bytes) where
  -- A call that returns has sent these frames.
  abbrev pub Does : {A : Type 0} → Radio A → List Bytes → Type 0
  Does m want = (n : ℕ) (a : _) → (m n).0 ≡ ok a → Carries shake (m n).1 want

  pub Does-bind :
      {A B : Type 0} (m : Radio A) (k : A → Radio B) (want want' : List Bytes)
      → Does m want
      → ((a : A) → Does (k a) want')
      → Does (m >>= k) (want ++ want')
  Does-bind m k want want' h g n b e =
      let (a, first, whole) = bound-ok (m n) k n b e in
      let rest = k a (n + length (m n).1) in
      rw whole (
        Carries-append shake (m n).1 want rest.1 want' (h n a first)
          (g a (n + length (m n).1) b (rw whole at e)))

  pub Does-after :
      {A B : Type 0} (r : Result RadioError A) (k : A → Radio B) (want : List Bytes)
      → ((a : A) → r ≡ ok a → Does (k a) want)
      → Does (returns r >>= k) want
  Does-after (ok a) k want h n b e = h a refl (n + 0) b e
  Does-after (err x) k want h n b e = cc

  pub Does-returns : {A : Type 0} (r : Result RadioError A) → Does (returns r) []
  Does-returns r n a e = done

abbrev pub shake_of : ℕ → Bytes
shake_of timestamp = wire msg_session (session_data timestamp)

module _ (timestamp : ℕ) where
  abbrev pub erase_frame : ℕ → Bytes
  erase_frame slot = wire msg_slot_erase (slot ∷ 0 ∷ pack32 timestamp)

  abbrev pub validate_frame : ℕ → Bytes
  validate_frame slot = wire msg_slot_validate (slot ∷ [])

  abbrev pub chunk_frame : ℕ → ℕ → Bytes → Bytes
  chunk_frame slot at piece = wire msg_slot_write (chunk_data timestamp slot at piece)

  -- The frames of the `n` pieces of a blob from the one of number `index` on.
  abbrev pub chunk_frames : ℕ → ℕ → ℕ → ℕ → Bytes → List Bytes
  chunk_frames zero index slot offset blob = []
  chunk_frames (suc n) index slot offset blob =
      chunk_frame slot (offset + index * chunk) (slice blob (index * chunk) (index * chunk + chunk))
      ∷ chunk_frames n (index + 1) slot offset blob

  abbrev pub write_frames : ℕ → ℕ → Bytes → List Bytes
  write_frames slot offset blob = chunk_frames (chunk_count blob) 0 slot offset blob

  -- The frames of an install: the erase, the header, the image and the check, in this order.
  abbrev pub install_frames : ℕ → Bytes → Bytes → List Bytes
  install_frames slot header image =
      erase_frame slot ∷ write_frames slot 0 header
      ++ (write_frames slot slot_image_offset image ++ validate_frame slot ∷ [])
