-- ===== src/Web/Key/Held.antt =====
-- What the key handlers leave held in the keypad model.
use uv_k5_v3_emulator.Common.{
  ℕ, ◌≤◌, ◌≡◌, ◌⊎◌, inl, inr, refl, arith, Bool, true, false, Option, none, some, List, [], ◌∷◌,
  ◌++◌, Bool-cases, Option-cases, min, leb,
}
use uv_k5_v3_emulator.Common.Text.{Text}
use uv_k5_v3_emulator.Common.Chars.{chars, trim, lower}
use uv_k5_v3_emulator.Common.Signed.{pos, negsuc}
use uv_k5_v3_emulator.Keys.{normalise, is_valid}
use uv_k5_v3_emulator.Web.{
  Exception, Property, press, ptt, Effect, set_property, slept, logged, supervised, Target, threw,
  set_press, set_ptt, Reply, replied, refused, crashed, is_off, key_ignored, key_down, key_up,
  key_tap, Notice,
}
use uv_k5_v3_emulator.Web.Key.{
  KeyReply, KeyBody, Hold, Press, down, up, tap, missing, no_number, number, overflow, max_hold_ms,
  firmware_held_ms, hold_of, pressing, key_reply, key_held, key_action, key_known, key_texts,
  text_of, press_of, api_key, api_release_all, release_reply, ReleaseReply,
}

-- The keypad model: the key that is held, none for the empty text, and PTT.
pub record Keypad : Type 0 where
  pub held : Text
  pub ptt : Bool

abbrev pub with_property : Property → Keypad → Keypad
with_property (press value) k = record k { held = value }
with_property (ptt value) k = record k { ptt = value }

unfoldable pub keypad_after : List Effect → Keypad → Keypad
keypad_after [] k = k
keypad_after (set_property c property ∷ es) k = keypad_after es (with_property property k)
keypad_after (slept ms ∷ es) k = keypad_after es k
keypad_after (logged n ∷ es) k = keypad_after es k
keypad_after (supervised acts ∷ es) k = keypad_after es k

-- An effect that a key request may have: a release, a press of a key of the model, a sleep that is
-- bounded, or a line of the log.
abbrev pub IsAllowed : Effect → Type 0
IsAllowed (set_property c (press value)) = (value ≡ []) ⊎ (is_valid value ≡ true)
IsAllowed (set_property c (ptt value)) = ⊥
IsAllowed (slept ms) = ms ≤ max_hold_ms
IsAllowed (logged n) = Unit
IsAllowed (supervised acts) = ⊥

abbrev pub All : List Effect → Type 0
All [] = Unit
All (e ∷ es) = IsAllowed e × All es

-- The key that is held after an action.
abbrev pub left_held : Press → Text → Text
left_held down key = key
left_held up key = []
left_held tap key = []

-- What a reply says of the keypad and of the effects that came before it.
abbrev pub Tells : List Effect → Reply (Text × Press × ℕ) → Type 0
Tells effects (replied (key, action, hold_ms)) =
    (is_valid key ≡ true)
    × (hold_ms ≤ max_hold_ms)
    × ((k : Keypad) → keypad_after effects k ≡ record k { held = left_held action key })
Tells effects (refused code why) =
    (code ≡ 400 → (k : Keypad) → keypad_after effects k ≡ k) × ((code ≡ 400) ⊎ (why ≡ is_off))
Tells effects (crashed e) = Unit

abbrev Fine : KeyReply → Type 0
Fine (reply, effects) = All effects × Tells effects reply

abbrev pub answers : Option ℕ → Option Exception → Target
answers client fails = record { client = client; fails = fails }

All-logged : (es : List Effect) (n : Notice) → All es → All (es ++ logged n ∷ [])
All-logged [] n h = (tt, tt)
All-logged (e ∷ es) n h = (h.0, All-logged es n h.1)

-- A command that raised: its effects are allowed, and the reply says nothing of the keypad.
threw-Fine :
    (key : Text) (action : Press) (hold_ms : ℕ) (e : Exception) (effects : List Effect)
    → All effects
    → Fine (key_reply key action hold_ms (threw e effects))
unfolding key_reply
threw-Fine key action hold_ms e effects h = elim (Bool-cases e.is_lookup) [
  | inl l ↦ rw l (All-logged effects (key_ignored key) h, ((λ c. absurd (omega arith)), inr refl))
  | inr l ↦ rw l (h, tt)
]

module _ (key : Text) (hold_ms : ℕ) (valid : is_valid key ≡ true)
    (bound : hold_ms ≤ max_hold_ms) where
  abbrev tapped : ℕ → List Effect
  tapped c =
      logged (key_tap key (leb firmware_held_ms hold_ms) hold_ms) ∷ set_property c (press key) ∷ []

  pressing-Fine :
      (action : Press) (c₁ : Option ℕ) (f₁ : Option Exception) (c₂ : Option ℕ)
      (f₂ : Option Exception)
      → Fine (
          key_reply key action hold_ms
            (pressing (answers c₁ f₁) (answers c₂ f₂) key hold_ms action))
  unfolding pressing key_reply keypad_after set_press
  pressing-Fine down (some c) none c₂ f₂ = ((tt, (inr valid, tt)), (valid, bound, λ k. refl))
  pressing-Fine down (some c) (some e) c₂ f₂ =
      threw-Fine key down hold_ms e (logged (key_down key) ∷ set_property c (press key) ∷ [])
        (tt, (inr valid, tt))
  pressing-Fine down none f₁ c₂ f₂ = ((tt, (tt, tt)), ((λ c. absurd (omega arith)), inr refl))
  pressing-Fine up (some c) none c₂ f₂ = ((tt, (inl refl, tt)), (valid, bound, λ k. refl))
  pressing-Fine up (some c) (some e) c₂ f₂ =
      threw-Fine key up hold_ms e (logged (key_up key) ∷ set_property c (press []) ∷ [])
        (tt, (inl refl, tt))
  pressing-Fine up none f₁ c₂ f₂ = ((tt, (tt, tt)), ((λ c. absurd (omega arith)), inr refl))
  pressing-Fine tap (some c) none (some d) none =
      ((tt, (inr valid, (bound, (inl refl, tt)))), (valid, bound, λ k. refl))
  pressing-Fine tap (some c) none (some d) (some e) =
      threw-Fine key tap hold_ms e (tapped c ++ slept hold_ms ∷ set_property d (press []) ∷ [])
        (tt, (inr valid, (bound, (inl refl, tt))))
  pressing-Fine tap (some c) none none f₂ =
      ((tt, (inr valid, (bound, (tt, tt)))), ((λ c. absurd (omega arith)), inr refl))
  pressing-Fine tap (some c) (some e) c₂ f₂ =
      threw-Fine key tap hold_ms e (tapped c) (tt, (inr valid, tt))
  pressing-Fine tap none f₁ c₂ f₂ = ((tt, (tt, tt)), ((λ c. absurd (omega arith)), inr refl))

key_held-Fine :
    (first second : Target) (key : Text) (action : Press) (hold : Hold)
    → is_valid key ≡ true
    → Fine (key_held first second key action (hold_of hold))
unfolding key_held hold_of keypad_after
key_held-Fine first second key action missing valid =
    pressing-Fine key 60 valid (omega arith) action first.client first.fails second.client
      second.fails
key_held-Fine first second key action no_number valid = (tt, ((λ c k. refl), inl refl))
key_held-Fine first second key action (number (negsuc n)) valid = (tt, ((λ c k. refl), inl refl))
key_held-Fine first second key action (number (pos n)) valid =
    pressing-Fine key (min n max_hold_ms) valid (omega arith) action first.client first.fails
      second.client second.fails
key_held-Fine first second key action overflow valid = (tt, tt)

key_known-Fine :
    (first second : Target) (name action : Text) (hold : Hold)
    → Fine (key_known first second name action hold)
unfolding key_known key_action keypad_after
key_known-Fine first second name action hold = elim (Bool-cases (is_valid (normalise name))) [
  | inr e ↦ rw e ((tt, tt), ((λ c k. refl), inl refl))
  | inl e ↦ elim (Option-cases (press_of (lower (trim action)))) [
    | inl f ↦ rw (e, f) (tt, ((λ c k. refl), inl refl))
    | inr (p, f) ↦ rw (e, f) (key_held-Fine first second (normalise name) p hold e)
  ]
]

key_texts-Fine :
    (first second : Target) (hold : Hold) (name action : Option Text)
    → Fine (key_texts first second hold name action)
key_texts-Fine first second hold none action = (tt, tt)
key_texts-Fine first second hold (some name) none = (tt, tt)
key_texts-Fine first second hold (some name) (some action) =
    key_known-Fine first second name action hold

-- Whatever a key request holds and however the emulator answers: it presses only keys of the model
-- or releases, it never touches PTT, and it sleeps for at most `max_hold_ms`. If it is answered with
-- 200, the key of the reply is a key of the model, its hold is in the bound, and the key that is left
-- held is the one of the action: that key after "down", and none after "up" and after "tap". If it is
-- refused with 400 the keypad is as it was, and every other refusal is that the emulator is off.
pub api_key-Tells :
    (first second : Target) (body : Option KeyBody)
    → let (reply, effects) = api_key first second body in All effects × Tells effects reply
unfolding api_key
api_key-Tells first second none = (tt, tt)
api_key-Tells first second (some body) =
    key_texts-Fine first second body.hold_ms (text_of [] body.key)
      (text_of (chars "tap") body.action)

keypad_after-append :
    (xs ys : List Effect) (k : Keypad)
    → keypad_after (xs ++ ys) k ≡ keypad_after ys (keypad_after xs k)
unfolding keypad_after
keypad_after-append [] ys k = refl
keypad_after-append (set_property c p ∷ xs) ys k = keypad_after-append xs ys (with_property p k)
keypad_after-append (slept ms ∷ xs) ys k = keypad_after-append xs ys k
keypad_after-append (logged n ∷ xs) ys k = keypad_after-append xs ys k
keypad_after-append (supervised acts ∷ xs) ys k = keypad_after-append xs ys k

abbrev idle : Keypad
idle = record { held = []; ptt = false }

-- What a release-all is meant to leave.
abbrev Released : ReleaseReply → Keypad → Type 0
Released (replied u, effects) k = keypad_after effects k ≡ idle
Released (refused code why, effects) k = Unit
Released (crashed e, effects) k = Unit

threw-Released :
    (e : Exception) (effects : List Effect) (k : Keypad)
    → Released (release_reply (threw e effects)) k
unfolding release_reply
threw-Released e effects k = elim (Bool-cases e.is_lookup) [ inl l ↦ rw l tt | inr l ↦ rw l tt ]

api_release_all-Released :
    (c₁ : Option ℕ) (f₁ : Option Exception) (c₂ : Option ℕ) (f₂ : Option Exception) (k : Keypad)
    → Released (api_release_all (answers c₁ f₁) (answers c₂ f₂)) k
unfolding api_release_all set_press set_ptt release_reply keypad_after
api_release_all-Released none f₁ c₂ f₂ k = tt
api_release_all-Released (some c) (some e) c₂ f₂ k = threw-Released e _ k
api_release_all-Released (some c) none none f₂ k = tt
api_release_all-Released (some c) none (some d) (some e) k = threw-Released e _ k
api_release_all-Released (some c) none (some d) none k = refl

Released-replied :
    (r : Reply (Unit {0})) (effects : List Effect) (k : Keypad)
    → Released (r, effects) k
    → r ≡ replied tt
    → keypad_after effects k ≡ idle
Released-replied (replied u) effects k h e = h
Released-replied (refused code why) effects k h e = cc
Released-replied (crashed x) effects k h e = cc

-- Every effect of a history, and then of a release-all that is answered with 200: nothing is left
-- held, neither a key nor PTT, whatever was held before and whatever the history was. While one
-- client answers, a release-all is answered with 200; while the emulator is off it does nothing and
-- says so.
pub keypad_after-api_release_all :
    (first second : Target) (history : List Effect) (k : Keypad)
    → let (reply, effects) = api_release_all first second in
      (reply ≡ replied tt → keypad_after (history ++ effects) k ≡ record { held = []; ptt = false })
      × ((c d : ℕ)
          → first ≡ answers (some c) none
          → second ≡ answers (some d) none
          → reply ≡ replied tt)
      × (first.client ≡ none → api_release_all first second ≡ (refused 409 is_off, []))
unfolding api_release_all set_press set_ptt release_reply
keypad_after-api_release_all first second history k =
    rw (keypad_after-append history (api_release_all first second).1 k) (
      Released-replied _ _ _ (
          api_release_all-Released first.client first.fails second.client second.fails
            (keypad_after history k)),
      (λ c d e f. rw (e, f) refl),
      λ off. rw off refl,
    )
