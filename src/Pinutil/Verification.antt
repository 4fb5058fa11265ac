-- ===== src/Pinutil/Verification.antt =====
-- `pinutil -m test` on accounts.
use pinpam.Core.Manager.Users.Effects.{get_pin_slot_ends}
use pinpam.Core.Util.{can_attempt_pin, get_uid_from_username, Caller}
use pinpam.Core.Manager.Slots.Reads.{IsWords, data_of}
use pinpam.Base.Text.{Text}
use pinpam.Core.PinData.{prompt_tuple, from_pin_data, locked, AttemptInfo}
use pinpam.Core.Manager.Users.{get_pin_slot, verify_pin}
use pinpam.Core.Manager.Accounts.{IsFit, counter_of, Untouched, Stores}
use pinpam.Core.Tpm.Laws.{max_auth}
use pinpam.Core.Pin.{new, as_bytes, Pin}
use pinpam.Core.Manager.Accounts.Verify.{verify_pin-Acts, Says}
use pinpam.Core.Consts.{pin_version_uid_max}
use pinpam.Core.Manager.Connected.{with_tcti_ends, IsConnected}
use pinpam.Core.Manager.{with_tcti, PinManager}
use pinpam.Base.{
  arith, ◌^◌, ◌<◌, length, List, resume, ◌≢◌, ◌≤◌, ◌≡◌, Outcome, ℕ, refl, true, false, some, inr,
  ok, err, panic, ◌∷◌, ◌>>=◌, ◌>>◌,
}
use pinpam.Core.Error.{PinError, VerificationResult, incorrect_pin}
use pinpam.Core.Account.{guess, Account, Answer, accepted, rejected, refused}
use pinpam.Pinutil.{
  with_info, get_attempt_info, new_manager, as_allowed, read_line, on_tpm, Line, Desk, checked,
  prompt_pin, new_pin, confirm,
}
use pinpam.Pinutil.Use.{test_pin, test_with, test_for}

-- The result of the command that stands for an answer.
abbrev pub Reports : Answer → Outcome PinError (Unit {0}) → Type 0
Reports accepted q = q ≡ ok tt
Reports (rejected last) q = q ≡ err (incorrect_pin last)
Reports refused q = q ≢ ok tt

module _ (m : PinManager) where
  -- What the command makes of the manager's answer; it touches nothing more.
  checked-Reports :
      (a : Account) (answer : Answer) (r : Outcome PinError VerificationResult) (d : Desk m)
      → Says a answer r
      → Reports answer (resume (checked m) r d).0 × ((resume (checked m) r d).1 ≡ d)
  unfolding checked
  checked-Reports a accepted r d e = rw e (refl, refl)
  checked-Reports a (rejected last) r d e = rw e (refl, refl)
  checked-Reports a refused (ok (VerificationResult.success slot)) d n = absurd (n slot refl)
  checked-Reports a refused (ok (VerificationResult.invalid last)) d n = (λ e. cc, refl)
  checked-Reports a refused (ok VerificationResult.locked_out) d n = (λ e. cc, refl)
  checked-Reports a refused (err e) d n = (λ e. cc, refl)
  checked-Reports a refused panic d n = (λ e. cc, refl)

  -- A new PIN, read from one line.
  pub entered :
      (pin : Pin) (rest : List Line) (text : Text) (s : m.tpm.State)
      → new text m.policy ≡ ok pin
      → new_pin m true (s, inr text ∷ rest) ≡ (ok pin, (s, rest))
  unfolding new_pin confirm prompt_pin read_line ◌>>=◌ ◌>>◌
  entered pin rest text s e = rw e refl

-- From the state `s` the command has ended like one guess at the account, and has read the input up
-- to `rest`.
abbrev pub Guesses :
    (m : PinManager) (c : IsConnected m)
    → ℕ
    → m.tpm.State
    → Account
    → Pin
    → List Line
    → Outcome PinError (Unit {0}) × Desk m
    → Type 0
Guesses m c uid s a pin rest q =
    Reports (guess a (as_bytes pin)).0 q.0
    × Stores m c (c.nv q.1.0) uid (some (guess a (as_bytes pin)).1)
    × Untouched m c uid (c.nv s) (c.nv q.1.0)
    × (q.1.1 ≡ rest)

module _ (m : PinManager) (c : IsConnected m) (uid : ℕ) (range : uid ≤ pin_version_uid_max)
    (s : m.tpm.State) (a : Account) (pin : Pin) (rest : List (Line)) where
  open m use {tpm}

  verified :
      (s' : tpm.State)
      → length (as_bytes pin) ≤ max_auth
      → Stores m c (c.nv s) uid (some a)
      → c.nv s' ≡ c.nv s
      → Guesses m c uid s a pin rest ((on_tpm m (verify_pin m uid pin) >>= checked m) (s', rest))
  unfolding ◌>>=◌ on_tpm
  verified s' fits k h =
      let v = verify_pin-Acts m c uid range s' pin a fits (rw h k) in
      let q =
        checked-Reports m a (guess a (as_bytes pin)).0 v.0 ((verify_pin m uid pin s').1, rest)
          v.1 in
      rw (v.2.0, q.1) (q.0, v.2.1, rw (← h) v.2.2, refl)

  abbrev pub info : AttemptInfo
  info = from_pin_data (data_of (counter_of a))

  pub open_account : a.failures < a.limit → a.limit < 2 ^ 31 → locked info ≡ false
  unfolding locked from_pin_data
  open_account left small = ground arith

  pub prompted :
      (text : Text) (s' : tpm.State)
      → new text m.policy ≡ ok pin
      → prompt_pin m (some (prompt_tuple info)) true (s', inr text ∷ rest) ≡ (ok pin, (s', rest))
  unfolding prompt_pin ◌>>=◌ read_line
  prompted text s' e = rw e refl

  tested :
      (caller : Caller) (text : Text) (s' : tpm.State)
      → new text m.policy ≡ ok pin
      → length (as_bytes pin) ≤ max_auth
      → Stores m c (c.nv s) uid (some a)
      → c.nv s' ≡ c.nv s
      → a.failures < a.limit
      → Guesses m c uid s a pin rest (test_with m caller true uid info (s', inr text ∷ rest))
  unfolding test_with ◌>>◌ ◌>>=◌
  tested caller text s' e fits k h left =
      rw (open_account left k.2.small, prompted text s' e) (verified s' fits k h)

  pub words : IsFit a → IsWords (counter_of a)
  words f = record {
    count_word = omega (arith, f.within, f.small);
    limit_word = omega (arith, f.small);
  }

  looked_up :
      (caller : Caller) (text : Text)
      → new text m.policy ≡ ok pin
      → length (as_bytes pin) ≤ max_auth
      → Stores m c (c.nv s) uid (some a)
      → a.failures < a.limit
      → Guesses m c uid s a pin rest (test_for m caller true uid (s, inr text ∷ rest))
  unfolding test_for new_manager get_attempt_info on_tpm with_info ◌>>◌ ◌>>=◌
  looked_up caller text e fits k left =
      let p = with_tcti_ends m c s (c.nv s) refl in
      let s₁ = (with_tcti m s).1 in
      let q =
        get_pin_slot_ends m c uid range s₁ (c.nv s) p.1 a.pin _ (counter_of a) (words k.2) k.0 in
      rw (p.0, q.0) (tested caller text (get_pin_slot m uid s₁).1 e fits k q.1 left)

  -- On a reliable TPM, `pinutil -m test`, run by one who may try the user's PIN and given a line
  -- that the policy accepts as a PIN of at most 64 bytes, answers and changes a user's account
  -- with attempts left as `guess` does, leaves the other users' indices alone and reads one line.
  pub test_pin-Guesses :
      (caller : Caller) (username : Text)
      → get_uid_from_username caller username ≡ ok uid
      → can_attempt_pin caller uid ≡ true
      → (text : Text) → new text m.policy ≡ ok pin
      → length (as_bytes pin) ≤ max_auth
      → Stores m c (c.nv s) uid (some a)
      → a.failures < a.limit
      → Guesses m c uid s a pin rest (test_pin m caller username true (s, inr text ∷ rest))
  unfolding test_pin as_allowed ◌>>=◌
  test_pin-Guesses caller username found may text e fits k left =
      rw (found, may) (looked_up caller text e fits k left)
