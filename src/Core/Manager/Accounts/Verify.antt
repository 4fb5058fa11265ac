-- ===== src/Core/Manager/Accounts/Verify.antt =====
-- Verification of a PIN in the current format, on accounts.
use pinpam.Core.Manager.Tags.Effects.{read_pin_version_tag_some}
use pinpam.Core.Tpm.Chain.{chain, follow}
use pinpam.Core.Manager.Slots.{verify_pin_exact}
use pinpam.Core.Manager.Users.Effects.{slot-ne-tag, current_tag}
use pinpam.Core.Index.Disjoint.{slot_index, tag_index}
use pinpam.Core.Tpm.Laws.{put-at_ne, put-at, put, write_once, pin_slot, max_auth, Store}
use pinpam.Core.Manager.Slots.Verifies.{
  verdict_locked, locked_answer, locked_answer-NotSuccess, verdict_wrong, verdict_right, NotSuccess,
}
use pinpam.Core.Manager.Slots.Reads.{IsWords, data_of}
use pinpam.Core.Pin.{as_bytes, Pin}
use pinpam.Core.Consts.{pin_version_current, pin_version_uid_max}
use native.Mathlib.Decide.{dec_lt}
use pinpam.Base.{
  ◌∙◌, list_eq_iff, list_eq_sound, list_eq, Bool-cases, length, ℕ, ◌+◌, ◌≤◌, ◌<◌, some, ok, ◌≡◌,
  ◌≢◌, inl, inr, refl, arith, leb, Outcome,
}
use pinpam.Core.Account.{
  guess_refused, guess_wrong, guess_right, Account, Answer, accepted, rejected, refused, guess,
}
use pinpam.Core.Error.{PinError, VerificationResult}
use pinpam.Core.Manager.{PinManager}
use pinpam.Core.Manager.Connected.{clear_sessions_ends, IsConnected, Results, Holds}
use pinpam.Core.Manager.Accounts.{IsFit, counter_of, Stores, Acts, Acts-of_results, Untouched-slot}
use pinpam.Core.Manager.Users.{verify_pin}

-- The result of the manager that stands for an answer.
abbrev pub Says : Account → Answer → Outcome PinError VerificationResult → Type 0
Says a accepted r =
    r ≡ ok (VerificationResult.success (data_of (record { count = 0; limit = a.limit })))
Says a (rejected last) r = r ≡ ok (VerificationResult.invalid last)
Says a refused r = NotSuccess r

module _ (m : PinManager) (c : IsConnected m) (uid : ℕ) (range : uid ≤ pin_version_uid_max)
    (s : m.tpm.State) where
  -- With a current tag the PIN is checked as it was entered.
  verify_pin_tagged :
      (pin : Pin) {r : Outcome PinError VerificationResult} {u : Store m.tpm.Digest}
      → c.nv s (tag_index uid) ≡ current_tag
      → ((s' : m.tpm.State)
          → Holds m c s' (c.nv s)
          → Results m c (verify_pin_exact m uid (as_bytes pin)) s' r u)
      → Results m c (verify_pin m uid pin) s r u
  unfolding verify_pin
  verify_pin_tagged pin t next =
      follow c.nv _ _ s (clear_sessions_ends m c s (c.nv s) refl) λ s₁ h₁.
        chain c.nv _ _ s₁
          (read_pin_version_tag_some m c uid pin_version_current s₁ (c.nv s) range h₁ t) next

  module _ (pin : Pin) (a : Account) (fits : length (as_bytes pin) ≤ max_auth)
      (e : c.nv s (slot_index uid)
        ≡ some (pin_slot a.pin (write_once c.digests) (some (counter_of a))))
      (t : c.nv s (tag_index uid) ≡ current_tag) (f : IsFit a) where
    abbrev Refines : Answer → Account → Type 0
    Refines answer b =
        (r : Outcome PinError VerificationResult) × Says a answer r
        × Acts m c (verify_pin m uid pin) uid s r (some b)

    words : IsWords (counter_of a)
    words = record {
      count_word = omega (arith, f.within, f.small);
      limit_word = omega (arith, f.small);
    }

    -- The account after a change of its failures.
    stored :
        (n : ℕ)
        → n ≤ a.limit
        → Stores m c
            (put (c.nv s) (slot_index uid) (
              some (
                pin_slot a.pin
                  (write_once c.digests)
                  (some (record { count = n; limit = a.limit })))))
            uid
            (some (record a { failures = n }))
    stored n le = (
      put-at (c.nv s) (slot_index uid) _,
      put-at_ne (c.nv s) (slot_index uid) (tag_index uid) _ (slot-ne-tag uid range) ∙ t,
      record { within = le; small = f.small },
    )

    accepts :
        a.failures < a.limit → as_bytes pin ≡ a.pin → Refines accepted (record a { failures = 0 })
    accepts left right = (
      _,
      refl,
      Acts-of_results m c (verify_pin m uid pin) uid s _ (some (record a { failures = 0 })) _
          (verify_pin_tagged pin t λ s' h.
            verdict_right m c uid (as_bytes pin) range fits a.pin _ (counter_of a) words (c.nv s) e
              s' h left f.small right)
          (stored 0 (omega arith)) (Untouched-slot m c uid (c.nv s) _ range),
    )

    rejects :
        a.failures < a.limit
        → as_bytes pin ≢ a.pin
        → Refines (rejected (leb a.limit (a.failures + 1))) (record a { failures = a.failures + 1 })
    rejects left wrong = (
      _,
      refl,
      Acts-of_results m c (verify_pin m uid pin) uid s _
          (some (record a { failures = a.failures + 1 })) _
          (verify_pin_tagged pin t λ s' h.
            verdict_wrong m c uid (as_bytes pin) range fits a.pin _ (counter_of a) words (c.nv s) e
              s' h left f.small wrong)
          (stored (a.failures + 1) (omega arith)) (Untouched-slot m c uid (c.nv s) _ range),
    )

    refuses : a.limit ≤ a.failures → Refines refused a
    refuses full = (
      locked_answer uid (counter_of a) c.errors.unavailable,
      locked_answer-NotSuccess uid (counter_of a) c.errors.unavailable,
      Acts-of_results m c (verify_pin m uid pin) uid s _ (some a) (c.nv s)
          (verify_pin_tagged pin t λ s' h.
            verdict_locked m c uid (as_bytes pin) range fits a.pin _ (counter_of a) words (c.nv s) e
              s' h full)
          (e, t, f) (λ w r ne. (refl, refl)),
    )

  -- On a reliable TPM, for a user whose two indices hold an account with the current tag,
  -- `verify_pin` answers and changes the account as `guess` does, for every PIN of at most 64
  -- bytes, and leaves every other user's indices alone.
  pub verify_pin-Acts :
      (pin : Pin) (a : Account)
      → length (as_bytes pin) ≤ max_auth
      → Stores m c (c.nv s) uid (some a)
      → (r : Outcome PinError VerificationResult) × Says a (guess a (as_bytes pin)).0 r
        × Acts m c (verify_pin m uid pin) uid s r (some (guess a (as_bytes pin)).1)
  verify_pin-Acts pin a fits (e, t, f) = elim (dec_lt a.failures a.limit) [
    | yes left ↦ elim (Bool-cases (list_eq (as_bytes pin) a.pin)) [
      | inl same ↦
          let right = list_eq_sound (as_bytes pin) a.pin same in
          rw (guess_right a (as_bytes pin) left right) (accepts pin a fits e t f left right)
      | inr other ↦
          let wrong : as_bytes pin ≢ a.pin = λ q. cc ((list_eq_iff (as_bytes pin) a.pin).1 q) in
          rw (guess_wrong a (as_bytes pin) left wrong) (rejects pin a fits e t f left wrong)
    ]
    | no full ↦
        rw (guess_refused a (as_bytes pin) (omega arith)) (refuses pin a fits e t f (omega arith))
  ]
