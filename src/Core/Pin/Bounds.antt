-- ===== src/Core/Pin/Bounds.antt =====
-- The check of a PIN (pinpam-core/src/pin.rs, pinpolicy.rs) against the bounds of the policy.
use pinpam.Core.Error.{PinResult}
use pinpam.Base.Text.{trim, len, Text}
use pinpam.Core.Pin.{Pin, new}
use pinpam.Base.{
  and_then, false, ◌↔◌, is_empty, arith, ◌≤◌, ◌≢◌, ◌≡◌, Option, ℕ, ok, err, panic, none, some, refl,
}
use pinpam.Core.Policy.{PinPolicy, validate, check_max}

-- The greatest length of a policy, if it has one.
abbrev pub FitsMax : Option ℕ → ℕ → Type 0
FitsMax none n = Unit
FitsMax (some most) n = n ≤ most

abbrev pub IsAllowed : PinPolicy → Text → Type 0
IsAllowed p s = (is_empty s ≡ false) × (p.min_length ≤ len s) × FitsMax p.max_length (len s)

check_max_total : (max_length : Option ℕ) (n : ℕ) → check_max max_length n ≢ panic
unfolding check_max
check_max_total none n e = cc
check_max_total (some most) n e = ground (arith, e)

check_max_ok :
    (max_length : Option ℕ) (n : ℕ) → (check_max max_length n ≡ ok tt) ↔ FitsMax max_length n
unfolding check_max
check_max_ok none n = (λ e. tt, λ u. refl)
check_max_ok (some most) n = ground arith

validate_total : (p : PinPolicy) (s : Text) → validate p s ≢ panic
unfolding validate
validate_total p s e = ground (arith, e, check_max_total p.max_length (len s))

pub validate_ok : (p : PinPolicy) (s : Text) → (validate p s ≡ ok tt) ↔ IsAllowed p s
unfolding validate
validate_ok p s =
    let c = check_max_ok p.max_length (len s) in
    (λ e. ground (arith, e, c.0), λ a. ground (arith, a, c.1))

pub new-total : (input : Text) (p : PinPolicy) → new input p ≢ panic
unfolding new
new-total input p e = ground (arith, e, validate_total p (trim input))

passed :
    (text : Text) (r : PinResult (Unit {0})) (pin : Pin)
    → (and_then r (λ u. ok (record { text = text })) ≡ ok pin) ↔ ((r ≡ ok tt) × (pin.text ≡ text))
passed text (ok u) pin = (λ e. (refl, cc), λ e. cc)
passed text (err e) pin = (λ e. cc, λ e. cc)
passed text panic pin = (λ e. cc, λ e. cc)

-- `Pin::new` accepts an input exactly when, once trimmed, it is not empty and its length in bytes
-- is within the policy; the `Pin` is the trimmed input.
pub new_ok :
    (input : Text) (p : PinPolicy) (pin : Pin)
    → (new input p ≡ ok pin) ↔ (IsAllowed p (trim input) × (pin.text ≡ trim input))
unfolding new
new_ok input p pin =
    let q = passed (trim input) (validate p (trim input)) pin in
    let v = validate_ok p (trim input) in (λ e. (v.0 (q.0 e).0, (q.0 e).1), λ a. q.1 (v.1 a.0, a.1))
