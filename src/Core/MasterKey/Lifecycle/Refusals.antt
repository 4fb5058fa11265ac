-- ===== src/Core/MasterKey/Lifecycle/Refusals.antt =====
-- Who may manage the master key, on any platform.
use pinpam.Base.{arith, false, ◌==◌, ◌≡◌, ◌≢◌, ◌>>◌, refl, err}
use pinpam.Base.Text.{Text}
use pinpam.Core.Error.{permission_denied}
use pinpam.Core.Policy.{PinPolicy}
use pinpam.Core.Util.{Caller}
use pinpam.Core.MasterKey.{Platform}
use pinpam.Core.MasterKey.Lifecycle.{init, import_to_tpm, clear_from_tpm, clear_from_disk}

module _ (p : Platform) (policy : PinPolicy) (caller : Caller) where
  -- On any platform, for a caller whose real uid is not 0, `init`, `import_to_tpm`,
  -- `clear_from_tpm` and `clear_from_disk` answer `PermissionDenied` and leave the state as it
  -- was.
  pub managers_denied :
      (phrase : Text) (s : p.State)
      → caller.uid ≢ 0
      → (init p policy caller s ≡ (err permission_denied, s))
        × (import_to_tpm p policy caller phrase s ≡ (err permission_denied, s))
        × (clear_from_tpm p policy caller s ≡ (err permission_denied, s))
        × (clear_from_disk p policy caller s ≡ (err permission_denied, s))
  unfolding init import_to_tpm clear_from_tpm clear_from_disk ◌>>◌
  managers_denied phrase s h =
      let no : (caller.uid == 0) ≡ false = ground (arith, h) in rw no (refl, refl, refl, refl)
