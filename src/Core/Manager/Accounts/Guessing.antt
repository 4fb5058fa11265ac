-- ===== src/Core/Manager/Accounts/Guessing.antt =====
-- A run of guesses against one account.
use pinpam.Core.Tpm.Laws.{max_auth}
use pinpam.Core.Manager.Slots.Verifies.{NotSuccess}
use pinpam.Core.Manager.Users.{verify_pin}
use pinpam.Core.Pin.{as_bytes, Pin}
use pinpam.Core.Consts.{pin_version_uid_max}
use pinpam.Core.Manager.Connected.{IsConnected}
use pinpam.Core.Account.{guess_wrong, guess, guess_refused, Account}
use pinpam.Core.Manager.{PinManager}
use native.Mathlib.Decide.{dec_lt}
use pinpam.Base.{
  ◌∙◌, [], ◌∷◌, refl, ap, map, arith, some, length, ◌+◌, ◌≢◌, ◌≤◌, ◌∷◌, All, List, ℕ, ◌≡◌,
}
use pinpam.Core.Manager.Accounts.{Stores}
use pinpam.Core.Manager.Accounts.Verify.{verify_pin-Acts}

-- The account after a run of guesses.
abbrev pub guess_all : Account → List (List ℕ) → Account
guess_all a [] = a
guess_all a (pin ∷ pins) = guess_all (guess a pin).1 pins

abbrev full : Account → Account
full a = record a { failures = a.limit }

guess_all_full : (a : Account) (pins : List (List ℕ)) → a.limit ≤ a.failures → guess_all a pins ≡ a
guess_all_full a [] h = refl
guess_all_full a (pin ∷ pins) h = rw (guess_refused a pin h) (guess_all_full a pins h)

at_limit : (a : Account) → a.failures ≡ a.limit → a ≡ full a
at_limit a e = ap (λ n. record a { failures = n }) e

-- A run of wrong guesses uses up the attempts that were left, and then stops counting.
pub guess_all_wrong :
    (a : Account) (pins : List (List ℕ))
    → All (λ pin. pin ≢ a.pin) pins
    → a.failures ≤ a.limit
    → a.limit ≤ a.failures + length pins
    → guess_all a pins ≡ full a
guess_all_wrong a [] w b h = at_limit a (omega arith)
guess_all_wrong a (pin ∷ pins) (w, ws) b h = elim (dec_lt a.failures a.limit) [
  | yes left ↦
      rw (guess_wrong a pin left w) (
        guess_all_wrong (record a { failures = a.failures + 1 }) pins ws (omega arith)
          (omega arith))
  | no over ↦
      rw (guess_refused a pin (omega arith))
        (guess_all_full a pins (omega arith) ∙ at_limit a (omega arith))
]

-- The state after a run of calls of `verify_pin`.
abbrev pub after : (m : PinManager) → ℕ → m.tpm.State → List Pin → m.tpm.State
after m uid s [] = s
after m uid s (pin ∷ pins) = after m uid (verify_pin m uid pin s).1 pins

abbrev pub Fit : Pin → Type 0
Fit pin = length (as_bytes pin) ≤ max_auth

module _ (m : PinManager) (c : IsConnected m) (uid : ℕ) (range : uid ≤ pin_version_uid_max) where
  after-Stores :
      (s : m.tpm.State) (pins : List Pin) (a : Account)
      → All Fit pins
      → Stores m c (c.nv s) uid (some a)
      → Stores m c (c.nv (after m uid s pins)) uid (some (guess_all a (map as_bytes pins)))
  after-Stores s [] a f k = k
  after-Stores s (pin ∷ pins) a (f, fs) k =
      let v = verify_pin-Acts m c uid range s pin a f k in
      after-Stores (verify_pin m uid pin s).1 pins (guess a (as_bytes pin)).1 fs v.2.1

  -- On a reliable TPM, for a user with an account in the current format and a uid of at most
  -- PIN_VERSION_UID_MAX: after a run of wrong PINs of at most 64 bytes each, at least as long as
  -- the attempts that the account had left, `verify_pin` accepts no PIN of at most 64 bytes, the
  -- right one neither.
  pub verify_pin_exhausted :
      (s : m.tpm.State) (a : Account) (pins : List Pin) (pin : Pin)
      → Stores m c (c.nv s) uid (some a)
      → All Fit pins
      → All (λ guess. guess ≢ a.pin) (map as_bytes pins)
      → a.limit ≤ a.failures + length (map as_bytes pins)
      → Fit pin
      → NotSuccess (verify_pin m uid pin (after m uid s pins)).0
  verify_pin_exhausted s a pins pin k fs ws h f =
      let stored =
        rw (guess_all_wrong a (map as_bytes pins) ws k.2.within h) at
          (after-Stores s pins a fs k) in
      let v = verify_pin-Acts m c uid range (after m uid s pins) pin (full a) f stored in
      rw (v.2.0) (rw (guess_refused (full a) (as_bytes pin) (omega arith)) at v.1)
