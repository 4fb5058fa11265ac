-- ===== src/Core/Manager/Accounts/Delete.antt =====
-- Removal of a PIN by its owner, on accounts.
use pinpam.Core.Manager.Users.Effects.{delete_pin_admin_ends}
use pinpam.Core.Tpm.Chain.{follow, chain}
use pinpam.Core.Manager.Slots.Verifies.{NotSuccess}
use pinpam.Core.PinData.{PinData}
use pinpam.Core.Tpm.Laws.{max_auth}
use pinpam.Core.Manager.Users.{delete_if_verified, verify_pin, delete_pin_with_auth}
use pinpam.Core.Pin.{as_bytes, Pin}
use pinpam.Core.Consts.{pin_version_uid_max}
use pinpam.Core.Error.{VerificationResult, DeleteResult, PinError}
use pinpam.Core.Manager.Connected.{IsConnected}
use pinpam.Core.Manager.{PinManager}
use pinpam.Core.Account.{guess, rejected, Account, Answer}
use pinpam.Core.Account.{Answer, accepted, rejected, refused}
use pinpam.Base.{
  panic, arith, err, ◌∙◌, refl, resume, ◌>>=◌, some, length, ◌≢◌, ok, none, ◌≤◌, Option, Outcome, ℕ,
  ◌≡◌,
}
use pinpam.Core.Manager.Accounts.{Untouched-put, Acts-of_results, Untouched, Stores, Acts}
use pinpam.Core.Manager.Accounts.Verify.{verify_pin-Acts, Says}

-- The result of the manager that stands for an answer to the PIN given.
abbrev pub Reports : Answer → Outcome PinError DeleteResult → Type 0
Reports accepted r = r ≡ ok DeleteResult.success
Reports (rejected last) r = r ≡ ok (DeleteResult.invalid last)
Reports refused r = r ≢ ok DeleteResult.success

-- The account that is left.
abbrev pub remaining : Answer × Account → Option Account
remaining (accepted, a) = none
remaining (rejected last, a) = some a
remaining (refused, a) = some a

module _ (m : PinManager) (c : IsConnected m) (uid : ℕ) (range : uid ≤ pin_version_uid_max)
    (s : m.tpm.State) (pin : Pin) where
  open m use {tpm}

  -- From the answer of the verification to that of the method.
  passes_on :
      (r : Outcome PinError VerificationResult) (q : Outcome PinError DeleteResult)
      → (verify_pin m uid pin s).0 ≡ r
      → ((s' : tpm.State) → resume (delete_if_verified m uid) r s' ≡ (q, s'))
      → delete_pin_with_auth m uid pin s ≡ (q, (verify_pin m uid pin s).1)
  unfolding delete_pin_with_auth ◌>>=◌
  passes_on r q e f = rw e (f (verify_pin m uid pin s).1)

  removed :
      (a : Account) {slot : PinData}
      → (verify_pin m uid pin s).0 ≡ ok (VerificationResult.success slot)
      → Stores m c (c.nv (verify_pin m uid pin s).1) uid (some a)
      → Untouched m c uid (c.nv s) (c.nv (verify_pin m uid pin s).1)
      → Acts m c (delete_pin_with_auth m uid pin) uid s (ok DeleteResult.success) none
  unfolding delete_pin_with_auth delete_if_verified
  removed a e (k, t, f) u =
      Acts-of_results m c (delete_pin_with_auth m uid pin) uid s _ none _
        (chain c.nv _ _ s (e, refl)
          λ s₁ h₁.
            follow c.nv _ _ s₁
              (delete_pin_admin_ends m c uid range s₁ (c.nv (verify_pin m uid pin s).1) h₁ _ k)
              λ s₂ h₂. (refl, h₂))
        (ground arith, ground arith)
        (λ w r ne.
          let p = Untouched-put m c uid (c.nv (verify_pin m uid pin s).1) none none range w r ne in
          let q = u w r ne in (p.0 ∙ q.0, p.1 ∙ q.1))

  kept :
      (b : Account) (r : Outcome PinError VerificationResult) (q : Outcome PinError DeleteResult)
      → (verify_pin m uid pin s).0 ≡ r
      → ((s' : tpm.State) → resume (delete_if_verified m uid) r s' ≡ (q, s'))
      → Stores m c (c.nv (verify_pin m uid pin s).1) uid (some b)
      → Untouched m c uid (c.nv s) (c.nv (verify_pin m uid pin s).1)
      → Acts m c (delete_pin_with_auth m uid pin) uid s q (some b)
  kept b r q e f k u = rw (passes_on r q e f) (refl, k, u)

  -- What is passed on where the PIN was refused.
  refusal :
      (r : Outcome PinError VerificationResult)
      → NotSuccess r
      → (q : Outcome PinError DeleteResult) × (q ≢ ok DeleteResult.success)
        × ((s' : tpm.State) → resume (delete_if_verified m uid) r s' ≡ (q, s'))
  unfolding delete_if_verified
  refusal (ok (VerificationResult.success slot)) n = absurd (n slot refl)
  refusal (ok (VerificationResult.invalid last)) n =
      (ok (DeleteResult.invalid last), λ p. cc, λ s'. refl)
  refusal (ok VerificationResult.locked_out) n = (ok DeleteResult.locked_out, λ p. cc, λ s'. refl)
  refusal (err e) n = (err e, λ p. cc, λ s'. refl)
  refusal panic n = (panic, λ p. cc, λ s'. refl)

  concludes :
      (a : Account) (answer : Answer) (b : Account) (r : Outcome PinError VerificationResult)
      → Says a answer r
      → Acts m c (verify_pin m uid pin) uid s r (some b)
      → (q : Outcome PinError DeleteResult) × Reports answer q
        × Acts m c (delete_pin_with_auth m uid pin) uid s q (remaining (answer, b))
  unfolding delete_if_verified
  concludes a accepted b r e (p, k, u) = (_, refl, removed b (p ∙ e) k u)
  concludes a (rejected last) b r e (p, k, u) =
      (_, refl, kept b r (ok (DeleteResult.invalid last)) p (λ s'. rw e refl) k u)
  concludes a refused b r e (p, k, u) = let q = refusal r e in (q.0, q.1, kept b r q.0 p q.2 k u)

-- On a reliable TPM, for a user with an account in the current format and a PIN of at most 64
-- bytes, `delete_pin_with_auth` removes the account exactly when `guess` accepts the PIN, and
-- otherwise counts it and answers as `guess` does; no other user's indices change.
pub delete_pin_with_auth-Acts :
    (m : PinManager) (c : IsConnected m) (uid : ℕ)
    → uid ≤ pin_version_uid_max
    → (s : m.tpm.State) (pin : Pin) (a : Account) → length (as_bytes pin) ≤ max_auth
    → Stores m c (c.nv s) uid (some a)
    → (r : Outcome PinError DeleteResult) × Reports (guess a (as_bytes pin)).0 r
      × Acts m c (delete_pin_with_auth m uid pin) uid s r (remaining (guess a (as_bytes pin)))
delete_pin_with_auth-Acts m c uid range s pin a fits stored =
    let v = verify_pin-Acts m c uid range s pin a fits stored in
    concludes m c uid range s pin a (guess a (as_bytes pin)).0 (guess a (as_bytes pin)).1 v.0 v.1
      v.2
