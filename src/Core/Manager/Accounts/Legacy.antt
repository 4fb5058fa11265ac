-- ===== src/Core/Manager/Accounts/Legacy.antt =====
-- The first verification of a PIN that was stored without its leading zeros and without a tag.
use pinpam.Core.Manager.Accounts.Setup.{is_long}
use pinpam.Core.Manager.Slots.Verifies.{verdict_right}
use pinpam.Core.PinData.{PinData}
use pinpam.Core.Tpm.Chain.{caught, chain, follow}
use pinpam.Core.Manager.Slots.Reads.{data_of}
use pinpam.Core.Manager.Accounts.{Untouched-slot, Acts-of_results, Acts}
use pinpam.Core.Index.Disjoint.{tag_index, slot_index}
use pinpam.Core.Consts.{pin_version_uid_max}
use pinpam.Core.Manager.Connected.{
  clear_sessions_ends, restart_context_ends, Results, Holds, IsConnected,
}
use pinpam.Core.Tpm.Laws.{put-at, put-at_ne, put, write_once, pin_slot, Store, max_auth, Counter}
use pinpam.Core.Manager.{PinManager}
use pinpam.Core.Pin.{as_bytes, Pin}
use pinpam.Base.{
  pure, on_result, ◌∙◌, Bool-cases, ◌^◌, ◌<◌, length, ◌≤◌, ℕ, ◌≡◌, refl, ok, some, none, inl, inr,
  arith,
}
use pinpam.Core.Error.{PinError, VerificationResult}
use pinpam.Core.Manager.Users.{after_legacy, verify_version, verify_pin}
use pinpam.Core.Manager.Tags.Effects.{read_pin_version_tag_none}
use pinpam.Core.Manager.Connected.{Holds}
use pinpam.Core.Manager.Accounts.Migration.{
  old_bytes, is_same, migrated, moved, move_result, migrate_ends, moved-Stores, moved-Untouched,
}

module _ (m : PinManager) (c : IsConnected m) (uid : ℕ) (range : uid ≤ pin_version_uid_max)
    (s : m.tpm.State) (pin : Pin) (k : Counter) where
  open m use {tpm}

  abbrev reset : Counter
  reset = record k { count = 0 }

  -- The storage after the TPM has taken the PIN.
  abbrev taken : Store tpm.Digest
  taken =
      put (c.nv s) (slot_index uid)
        (some (pin_slot (old_bytes pin) (write_once c.digests) (some reset)))

  taken_slot :
      taken (slot_index uid) ≡ some (pin_slot (old_bytes pin) (write_once c.digests) (some reset))
  taken_slot = put-at (c.nv s) (slot_index uid) _

  taken_tag : c.nv s (tag_index uid) ≡ none → taken (tag_index uid) ≡ none
  taken_tag t = put-at_ne (c.nv s) (slot_index uid) (tag_index uid) _ (omega arith) ∙ t

  -- A migration that fails is not the end of the verification.
  goes_on :
      (s' : tpm.State) (u : Store tpm.Digest)
      → Holds m c s' u
      → Results m c
          (on_result {F = PinError} {B = Unit {0}} pure (λ failed. pure tt) (move_result m c pin))
          s'
          (ok tt)
          u
  goes_on s' u h = elim (Bool-cases (is_same pin)) [
    | inl same ↦ rw same (refl, h)
    | inr other ↦ elim (Bool-cases (is_long pin)) [
      | inl long ↦ rw (other, long) (refl, h)
      | inr short ↦ rw (other, short) (refl, h)
    ]
  ]

  after_legacy_ends :
      (s' : tpm.State) (slot : PinData)
      → length (as_bytes pin) ≤ max_auth
      → m.policy.max_attempts < 2 ^ 31
      → c.nv s (tag_index uid) ≡ none
      → Holds m c s' taken
      → Results m c
          (after_legacy m uid pin (VerificationResult.success slot))
          s'
          (ok (VerificationResult.success slot))
          (moved m c uid pin taken)
  unfolding after_legacy
  after_legacy_ends s' slot fits small t h =
      follow c.nv _ _ s' (restart_context_ends m c s' _ h) λ s₁ h₁.
        follow c.nv _ _ s₁
          (caught c.nv _ _ s₁
            (migrate_ends m c uid range pin fits small reset taken taken_slot (taken_tag t) s₁ h₁)
            λ s₂ h₂. goes_on s₂ _ h₂)
          λ s₃ h₃. follow c.nv _ _ s₃ (restart_context_ends m c s₃ _ h₃) λ s₄ h₄. (refl, h₄)

  verify_ends :
      length (as_bytes pin) ≤ max_auth
      → length (old_bytes pin) ≤ max_auth
      → m.policy.max_attempts < 2 ^ 31
      → k.count < k.limit
      → k.limit < 2 ^ 31
      → c.nv s (slot_index uid) ≡ some (pin_slot (old_bytes pin) (write_once c.digests) (some k))
      → c.nv s (tag_index uid) ≡ none
      → Results m c
          (verify_pin m uid pin)
          s
          (ok (VerificationResult.success (data_of reset)))
          (moved m c uid pin taken)
  unfolding verify_pin verify_version
  verify_ends fits fits_old small left low e t =
      follow c.nv _ _ s (clear_sessions_ends m c s (c.nv s) refl) λ s₁ h₁.
        chain c.nv _ _ s₁ (read_pin_version_tag_none m c uid s₁ (c.nv s) range h₁ t) λ s₂ h₂.
          chain c.nv _ _ s₂
            (verdict_right m c uid (old_bytes pin) range fits_old (old_bytes pin) _ k
              (record { count_word = omega arith; limit_word = omega arith }) (c.nv s) e s₂ h₂ left
              low refl)
            λ s₃ h₃. after_legacy_ends s₃ _ fits small t h₃

  -- On a reliable TPM, for a user whose uid is at most PIN_VERSION_UID_MAX, with limits below 2 ^
  -- 31, attempts left and no version tag, for a slot that holds the entered PIN in the old format,
  -- of at most 64 bytes in either: `verify_pin` succeeds. If the PIN was stored as entered, it
  -- leaves an account with it, no failures, the old limit and the current tag. Else, with a PIN of
  -- at most 32 bytes as entered, it leaves an account with the PIN as entered, no failures, the
  -- policy's limit and the current tag, and with a longer one it leaves the user without indices.
  -- No other user's indices change.
  pub verify_pin_legacy-Acts :
      length (as_bytes pin) ≤ max_auth
      → length (old_bytes pin) ≤ max_auth
      → m.policy.max_attempts < 2 ^ 31
      → k.count < k.limit
      → k.limit < 2 ^ 31
      → c.nv s (slot_index uid) ≡ some (pin_slot (old_bytes pin) (write_once c.digests) (some k))
      → c.nv s (tag_index uid) ≡ none
      → Acts m c
          (verify_pin m uid pin)
          uid
          s
          (ok (VerificationResult.success (data_of (record k { count = 0 }))))
          (migrated m pin k)
  verify_pin_legacy-Acts fits fits_old small left low e t =
      Acts-of_results m c (verify_pin m uid pin) uid s _ (migrated m pin k) _
        (verify_ends fits fits_old small left low e t)
        (moved-Stores m c uid range pin fits small reset taken taken_slot (taken_tag t) refl low)
        (λ w r ne.
          let p =
            moved-Untouched m c uid range pin fits small reset taken taken_slot (taken_tag t) w r
              ne in
          let q = Untouched-slot m c uid (c.nv s) _ range w r ne in (p.0 ∙ q.0, p.1 ∙ q.1))
