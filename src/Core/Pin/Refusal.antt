-- ===== src/Core/Pin/Refusal.antt =====
-- What is shown of a PIN that is refused (pinpam-core/src/pin.rs, pinpolicy.rs, pinerror.rs).
use pinpam.Base.{
  ◌≡◌, ◌<◌, ◌≤◌, ◌⊎◌, Bool-cases, Option, none, some, ok, err, panic, ℕ, List, [], ◌∷◌, is_empty,
  true, false, arith, refl, inl, inr, ap, ltb, and_then,
}
use pinpam.Base.Text.{Text, codes, len, trim}
use pinpam.Core.Error.{PinError, PinResult, pin_is_empty, pin_too_long, pin_too_short}
use pinpam.Core.Error.Display.{Named, fmt, number}
use pinpam.Core.Pin.{Pin, new}
use pinpam.Core.Policy.{PinPolicy, check_max, validate}

abbrev limit : ℕ → List Named
limit n = record { name = codes "limit"; value = number n } ∷ []

-- The error of a text: it is empty, or below the minimum, or above the maximum.
abbrev Refusal : PinPolicy → Text → PinError → Type 0
Refusal p s e =
    ((is_empty s ≡ true) × (e ≡ pin_is_empty))
    ⊎ (((is_empty s ≡ false) × (len s < p.min_length) × (e ≡ pin_too_short (len s) p.min_length))
        ⊎ ((most : ℕ) × (p.max_length ≡ some most)
            × (p.min_length ≤ len s)
            × (most < len s)
            × (e ≡ pin_too_long (len s) most)))

check_max_err :
    (max_length : Option ℕ) (n : ℕ) (e : PinError)
    → check_max max_length n ≡ err e
    → (most : ℕ) × (max_length ≡ some most) × (most < n) × (e ≡ pin_too_long n most)
unfolding check_max
check_max_err none n e h = cc
check_max_err (some most) n e h = (most, refl, ground (arith, h), ground (arith, h))

validate-Refusal : (p : PinPolicy) (s : Text) (e : PinError) → validate p s ≡ err e → Refusal p s e
unfolding validate
validate-Refusal p s e h = elim (Bool-cases (is_empty s)) [
  | inl z ↦ inl (z, ground (arith, h, z))
  | inr z ↦ inr (elim (Bool-cases (ltb (len s) p.min_length)) [
    | inl l ↦ inl (z, ground (arith, l), ground (arith, h, z, l))
    | inr l ↦
        let q = check_max_err p.max_length (len s) e (ground (arith, h, z, l)) in
        inr (q.0, q.1, ground (arith, l), q.2, q.3)
  ])
]

refused :
    (text : Text) (r : PinResult (Unit {0})) (e : PinError)
    → and_then {B = Pin} r (λ u. ok (record { text = text })) ≡ err e
    → r ≡ err e
refused text (ok u) e h = cc
refused text (err f) e h = cc
refused text panic e h = cc

new-Refusal :
    (input : Text) (p : PinPolicy) (e : PinError) → new input p ≡ err e → Refusal p (trim input) e
unfolding new
new-Refusal input p e h = validate-Refusal p (trim input) e (refused (trim input) _ e h)

module _ (t : Text → List Named → Text) (p : PinPolicy) where
  -- What is shown for a text that is refused, and why.
  abbrev pub Explains : Text → Text → Type 0
  Explains s shown =
      ((is_empty s ≡ true) × (shown ≡ t (codes "pin_is_empty") []))
      ⊎ (((is_empty s ≡ false)
            × (len s < p.min_length)
            × (shown ≡ t (codes "pin_too_short") (limit p.min_length)))
          ⊎ ((most : ℕ) × (p.max_length ≡ some most)
              × (p.min_length ≤ len s)
              × (most < len s)
              × (shown ≡ t (codes "pin_too_long") (limit most))))

  Refusal-Explains : (s : Text) (e : PinError) → Refusal p s e → Explains s (fmt t e)
  unfolding fmt
  Refusal-Explains s e (inl q) = inl (q.0, ap (fmt t) q.1)
  Refusal-Explains s e (inr (inl q)) = inr (inl (q.0, q.1, ap (fmt t) q.2))
  Refusal-Explains s e (inr (inr q)) = inr (inr (q.0, q.1, q.2, q.3, ap (fmt t) q.4))

  -- If `Pin::new` refuses an input, then what is shown of the error says, in any locale, that the
  -- PIN is empty, or that it is too short, with the policy's minimum, or that it is too long, with
  -- its maximum, whichever of these holds of the trimmed input. It is made of the policy alone:
  -- neither the input nor its length is shown.
  pub new-Explains :
      (input : Text) (e : PinError) → new input p ≡ err e → Explains (trim input) (fmt t e)
  new-Explains input e h = Refusal-Explains (trim input) e (new-Refusal input p e h)
