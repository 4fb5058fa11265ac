-- ===== src/Pinutil/Rights.antt =====
-- Who may run which command.
use pinpam.Pinutil.Use.{delete_for, test_for, delete_pin, test_pin}
use pinpam.Base.Text.{Text}
use pinpam.Core.Util.{can_manage_pin, can_attempt_pin, get_uid_from_username, Caller}
use pinpam.Core.Manager.{PinManager}
use pinpam.Base.{◌&&◌, refl, ◌==◌, ◌==◌, not, arith, ◌≢◌, ◌≡◌, ℕ, Bool, false, ok, err, ◌>>=◌}
use pinpam.Core.Error.{permission_denied}
use pinpam.Pinutil.{change_for, set_up, Machine, Desk, change_pin, run_setup, Act, as_allowed}

module _ (m : PinManager) (caller : Caller) (username : Text) (uid : ℕ)
    (found : get_uid_from_username caller username ≡ ok uid) where
  stopped :
      {A : Type 0} (may : ℕ → Bool) (next : ℕ → Act m A) (s : Desk m)
      → may uid ≡ false
      → as_allowed m caller may username next s ≡ (err permission_denied, s)
  unfolding as_allowed ◌>>=◌
  stopped may next s h = rw (found, h) refl

  -- A caller that is neither root nor the user gets `PermissionDenied` from the commands that set,
  -- change and remove the user's PIN, and neither the TPM nor the input is touched.
  pub manage_denied :
      (machine : Machine) (s : Desk m)
      → caller.uid ≢ 0
      → caller.uid ≢ uid
      → (run_setup m caller username machine s ≡ (err permission_denied, s))
        × (change_pin m caller username machine s ≡ (err permission_denied, s))
        × (delete_pin m caller username machine s ≡ (err permission_denied, s))
  unfolding run_setup change_pin delete_pin can_manage_pin
  manage_denied machine s a b = (
    stopped (can_manage_pin caller) (set_up m caller machine) s (ground arith),
    stopped (can_manage_pin caller) (change_for m caller machine) s (ground arith),
    stopped (λ uid. not (not (caller.uid == 0) && not (caller.uid == uid)))
        (delete_for m caller machine) s (ground arith),
  )

  -- A caller that is not the user and whose effective uid is not 0 gets `PermissionDenied` from
  -- `test`, and neither the TPM nor the input is touched.
  pub test_denied :
      (machine : Machine) (s : Desk m)
      → caller.euid ≢ 0
      → caller.uid ≢ uid
      → test_pin m caller username machine s ≡ (err permission_denied, s)
  unfolding test_pin can_attempt_pin
  test_denied machine s a b =
      stopped (can_attempt_pin caller) (test_for m caller machine) s (ground arith)
