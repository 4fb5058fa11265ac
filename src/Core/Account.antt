-- ===== src/Core/Account.antt =====
-- What pinpam promises of one user's PIN, without the TPM: an account that is absent, or holds a PIN
-- with the failures since the last success and the limit that was set with it.
use pinpam.Base.{
  list_eq_iff, list_eq_ne, le→ltb, lt→ltb, ◌≡◌, ◌≢◌, ℕ, ◌+◌, ◌≤◌, ◌<◌, Bool, List, ltb, leb,
  list_eq, if◌then◌else◌,
}

pub record Account : Type 0 where
  pub pin : List ℕ
  pub failures : ℕ
  pub limit : ℕ

pub data Answer : Type 0 where
  accepted : Answer
  rejected : Bool → Answer
  refused : Answer

-- One guess. Past the limit it is refused unseen; otherwise a right one clears the failures and a
-- wrong one is counted, and the answer says whether it was the last.
unfoldable pub guess : Account → List ℕ → Answer × Account
guess a pin =
    if ltb a.failures a.limit
    then (if list_eq pin a.pin
        then (accepted, record a { failures = 0 })
        else (rejected (leb a.limit (a.failures + 1)), record a { failures = a.failures + 1 }))
    else (refused, a)

module _ (a : Account) (pin : List ℕ) where
  pub guess_right :
      a.failures < a.limit → pin ≡ a.pin → guess a pin ≡ (accepted, record a { failures = 0 })
  unfolding guess
  guess_right left right = rw (lt→ltb _ _ left, (list_eq_iff pin a.pin).1 right)

  pub guess_wrong :
      a.failures < a.limit
      → pin ≢ a.pin
      → guess a pin
        ≡ (rejected (leb a.limit (a.failures + 1)), record a { failures = a.failures + 1 })
  unfolding guess
  guess_wrong left wrong = rw (lt→ltb _ _ left, list_eq_ne pin a.pin wrong)

  pub guess_refused : a.limit ≤ a.failures → guess a pin ≡ (refused, a)
  unfolding guess
  guess_refused full = rw (le→ltb _ _ full)
