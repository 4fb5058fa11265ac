-- ===== src/Core/Manager/Accounts/Absent.antt =====
-- A PIN tried for a user who has none.
use pinpam.Core.Tpm.{no_session}
use pinpam.Core.Manager.Commands.{find_ends}
use pinpam.Core.Manager.Tags.Effects.{read_pin_version_tag_none}
use pinpam.Core.Tpm.Chain.{converted, follow, chain, stop}
use pinpam.Core.Index.Disjoint.{tag_index, slot_index}
use pinpam.Core.Manager.Accounts.{Acts-of_results, Acts, Stores}
use pinpam.Core.Tpm.Laws.{Store}
use pinpam.Core.Pin.{Pin}
use pinpam.Core.Consts.{pin_version_uid_max}
use pinpam.Core.Manager.Connected.{clear_sessions_ends, nv_index_ends, Results, Holds, IsConnected}
use pinpam.Core.Manager.{PinManager}
use pinpam.Base.{err, ◌≡◌, none, List, ◌≤◌, ℕ, some, refl}
use pinpam.Core.Error.{handle, tss2_error, PinError, from_tss}
use pinpam.Core.Manager.Users.{verify_pin, verify_version, delete_pin_with_auth}
use pinpam.Core.Manager.Slots.{verify_pin_exact}

-- The error of a lookup of an index that is not there.
abbrev pub no_index : PinError
no_index = from_tss (tss2_error (some handle))

module _ (m : PinManager) (c : IsConnected m) (uid : ℕ) (range : uid ≤ pin_version_uid_max) where
  exact_absent :
      (guess : List ℕ) (s : m.tpm.State) (v : Store m.tpm.Digest)
      → Holds m c s v
      → v (slot_index uid) ≡ none
      → Results m c (verify_pin_exact m uid guess) s (err no_index) v
  unfolding verify_pin_exact
  exact_absent guess s v h e = chain c.nv _ _ s (nv_index_ends m c uid s v range h) λ s₁ h₁.
      stop c.nv _ _ s₁
        (converted c.nv _ _ s₁ (find_ends m c (slot_index uid) none s₁ v h₁ e no_session))

  verify_absent :
      (pin : Pin) (s : m.tpm.State) (v : Store m.tpm.Digest)
      → Holds m c s v
      → v (slot_index uid) ≡ none
      → v (tag_index uid) ≡ none
      → Results m c (verify_pin m uid pin) s (err no_index) v
  unfolding verify_pin verify_version
  verify_absent pin s v h e t = follow c.nv _ _ s (clear_sessions_ends m c s v h) λ s₁ h₁.
      chain c.nv _ _ s₁ (read_pin_version_tag_none m c uid s₁ v range h₁ t)
        λ s₂ h₂. stop c.nv _ _ s₂ (exact_absent _ s₂ v h₂ e)

  -- On a reliable TPM, for a user without indices, `verify_pin` answers with the `TpmError` of the
  -- lookup of the slot, and nothing changes.
  pub verify_pin_absent-Acts :
      (pin : Pin) (s : m.tpm.State)
      → Stores m c (c.nv s) uid none
      → Acts m c (verify_pin m uid pin) uid s (err no_index) none
  verify_pin_absent-Acts pin s (e, t) =
      Acts-of_results m c (verify_pin m uid pin) uid s _ none (c.nv s)
        (verify_absent pin s (c.nv s) refl e t) (e, t) (λ w r ne. (refl, refl))

  pub delete_pin_with_auth_absent-Acts :
      (pin : Pin) (s : m.tpm.State)
      → Stores m c (c.nv s) uid none
      → Acts m c (delete_pin_with_auth m uid pin) uid s (err no_index) none
  unfolding delete_pin_with_auth
  delete_pin_with_auth_absent-Acts pin s (e, t) =
      Acts-of_results m c (delete_pin_with_auth m uid pin) uid s _ none (c.nv s)
        (stop c.nv _ _ s (verify_absent pin s (c.nv s) refl e t)) (e, t) (λ w r ne. (refl, refl))
