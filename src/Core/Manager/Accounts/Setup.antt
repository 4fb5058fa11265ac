-- ===== src/Core/Manager/Accounts/Setup.antt =====
-- Setting up, removing and looking at a PIN, on accounts.
use pinpam.Core.Manager.Users.Effects.{
  setup_pin_long, delete_pin_admin_missing, setup_pin_taken, delete_pin_admin_ends, setup_pin_ends,
}
use pinpam.Core.Tpm.Laws.{max_index_auth, max_auth}
use pinpam.Core.Pin.{as_bytes, Pin}
use pinpam.Core.Consts.{pin_version_uid_max}
use pinpam.Base.{
  inr, if◌then◌else◌, ltb, ltb→lt, Bool, Outcome, Option, Bool-cases, length, ℕ, ◌≤◌, ◌<◌, ◌^◌,
  none, some, ok, err, inl, refl, arith,
}
use pinpam.Core.Account.{Account}
use pinpam.Core.Manager.{PinManager}
use pinpam.Core.Manager.Connected.{IsConnected}
use pinpam.Core.Manager.Accounts.{counter_of, Stores, Acts, Acts-of_results, Untouched-put}
use pinpam.Core.Error.{tss2_error, PinError, from_tss, already_provisioned, not_provisioned}
use pinpam.Core.Manager.Users.{setup_pin, delete_pin_admin}

-- The account of a new PIN.
abbrev pub new_account : (m : PinManager) → Pin → Account
new_account m pin = record { pin = as_bytes pin; failures = 0; limit = m.policy.max_attempts }

-- A PIN that is longer than the authorisation value of an index can be.
abbrev pub is_long : Pin → Bool
is_long pin = ltb max_index_auth (length (as_bytes pin))

-- The answer to a first PIN, and the account after it: a long PIN is refused by the TPM.
abbrev pub set_result : (m : PinManager) → IsConnected m → Pin → Outcome PinError (Unit {0})
set_result m c pin =
    if is_long pin then err (from_tss (tss2_error (c.errors.refused (as_bytes pin)))) else ok tt

abbrev pub set_account : PinManager → Pin → Option Account
set_account m pin = if is_long pin then none else some (new_account m pin)

module _ (m : PinManager) (c : IsConnected m) (uid : ℕ) (range : uid ≤ pin_version_uid_max)
    (s : m.tpm.State) where
  setup_pin_short-Acts :
      (pin : Pin)
      → m.policy.max_attempts < 2 ^ 31
      → length (as_bytes pin) ≤ max_index_auth
      → Stores m c (c.nv s) uid none
      → Acts m c (setup_pin m uid pin) uid s (ok tt) (some (new_account m pin))
  setup_pin_short-Acts pin small fits (e, t) =
      Acts-of_results m c (setup_pin m uid pin) uid s _ (some (new_account m pin)) _
        (setup_pin_ends m c uid range s (c.nv s) refl pin (omega arith) fits e (inl t))
        (ground arith, ground arith, record { within = omega arith; small = small })
        (Untouched-put m c uid (c.nv s) _ _ range)

  setup_pin_long-Acts :
      (pin : Pin)
      → max_index_auth < length (as_bytes pin)
      → length (as_bytes pin) ≤ max_auth
      → Stores m c (c.nv s) uid none
      → Acts m c
          (setup_pin m uid pin)
          uid
          s
          (err (from_tss (tss2_error (c.errors.refused (as_bytes pin)))))
          none
  setup_pin_long-Acts pin long fits (e, t) =
      Acts-of_results m c (setup_pin m uid pin) uid s _ none (c.nv s)
        (setup_pin_long m c uid range s (c.nv s) refl pin long fits e) (e, t)
        (λ w r ne. (refl, refl))

  -- On a reliable TPM, for a user whose uid is at most PIN_VERSION_UID_MAX, without indices, and a
  -- limit below 2 ^ 31: with a PIN of at most 32 bytes, `setup_pin` succeeds and leaves the
  -- account with that PIN, no failures, the policy's limit and the current tag; with a PIN of 33
  -- to 64 bytes it answers with the TPM's refusal and leaves the user without indices. No other
  -- user's indices change.
  pub setup_pin-Acts :
      (pin : Pin)
      → m.policy.max_attempts < 2 ^ 31
      → length (as_bytes pin) ≤ max_auth
      → Stores m c (c.nv s) uid none
      → Acts m c (setup_pin m uid pin) uid s (set_result m c pin) (set_account m pin)
  setup_pin-Acts pin small fits k = elim (Bool-cases (is_long pin)) [
    | inl long ↦
        rw long
          (setup_pin_long-Acts pin (ltb→lt max_index_auth (length (as_bytes pin)) long) fits k)
    | inr short ↦ rw short (setup_pin_short-Acts pin small (ground (arith, short)) k)
  ]

  -- On a reliable TPM, for a user that has an account, `setup_pin` answers `AlreadyProvisioned`
  -- and nothing changes.
  pub setup_pin_taken-Acts :
      (pin : Pin) (a : Account)
      → Stores m c (c.nv s) uid (some a)
      → Acts m c (setup_pin m uid pin) uid s (err (already_provisioned uid)) (some a)
  setup_pin_taken-Acts pin a (e, t, f) =
      Acts-of_results m c (setup_pin m uid pin) uid s _ (some a) (c.nv s)
        (setup_pin_taken m c uid range s (c.nv s) refl pin a.pin _ (counter_of a)
          (record { count_word = omega arith; limit_word = omega arith }) e)
        (e, t, f) (λ w r ne. (refl, refl))

  -- On a reliable TPM, for a user that has an account, `delete_pin_admin` succeeds and removes
  -- both indices, whatever the failures were; no other user's indices change.
  pub delete_pin_admin-Acts :
      (a : Account)
      → Stores m c (c.nv s) uid (some a)
      → Acts m c (delete_pin_admin m uid) uid s (ok tt) none
  delete_pin_admin-Acts a (e, t, f) =
      Acts-of_results m c (delete_pin_admin m uid) uid s _ none _
        (delete_pin_admin_ends m c uid range s (c.nv s) refl _ e) (ground arith, ground arith)
        (Untouched-put m c uid (c.nv s) _ _ range)

  -- On a reliable TPM, for a user without indices, `delete_pin_admin` answers `NotProvisioned` and
  -- nothing changes.
  pub delete_pin_admin_absent-Acts :
      Stores m c (c.nv s) uid none
      → Acts m c (delete_pin_admin m uid) uid s (err (not_provisioned uid)) none
  delete_pin_admin_absent-Acts (e, t) =
      Acts-of_results m c (delete_pin_admin m uid) uid s _ none (c.nv s)
        (delete_pin_admin_missing m c uid range s (c.nv s) refl e) (e, t) (λ w r ne. (refl, refl))
