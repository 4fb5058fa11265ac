-- ===== src/Pam/Authenticate/Locked.antt =====
-- An authentication for an account without attempts left, with pinutil as the helper
-- (pinpam-pam/src/lib.rs, pinutil/src/main.rs).
use pinpam.Login.{run_of_status, on_status, replay, with_helper}
use pinpam.Login.Helper.{info_of-spent, on_status_ends}
use pinpam.Pam.Authenticate.Effects.{prompts, tests}
use pinpam.Core.Consts.{pin_version_uid_max}
use pinpam.Base.{Option, Outcome, ◌<◌, ◌≤◌, ℕ, some, ok, ◌≡◌, catch, refl, ◌>>=◌, ◌>>◌}
use pinpam.Base.Text.{Text}
use pinpam.Core.Util.{Caller, get_uid_from_username}
use pinpam.Core.Account.{Account}
use pinpam.Core.Manager.{PinManager}
use pinpam.Core.Manager.Connected.{IsConnected}
use pinpam.Core.Manager.Accounts.{Stores}
use pinpam.Pam.Env.{Env, Trace, PamReturnCode, maxtries}
use pinpam.Pam.Io.{tell}
use pinpam.Pam.Args.{ModuleArgs}
use pinpam.Pam.Status.{PinStatus, run_pinutil_status, status_of_run, status_of}
use pinpam.Pam.Authenticate.{authenticate_user, on_uid, on_status as on_status_of, say}

module _ (m : PinManager) (c : IsConnected m) (uid : ℕ) (range : uid ≤ pin_version_uid_max)
    (helper : Caller) (username : Text) (found : get_uid_from_username helper username ≡ ok uid)
    (base : Env) (s : m.tpm.State) (a : Account) where
  -- The code says that there are no attempts left, nothing was prompted for or tested, and the
  -- account is as it was.
  abbrev pub EndsLocked : Trace → Outcome PamReturnCode PamReturnCode × Trace → Type 0
  EndsLocked t q =
      (q.0 ≡ ok maxtries)
      × (prompts q.1 ≡ prompts t)
      × (tests q.1 ≡ tests t)
      × Stores m c (c.nv (replay m helper s q.1)) uid (some a)

  -- The status that the helper reports, as the module sees it.
  reported :
      (s' : m.tpm.State)
      → a.limit ≤ a.failures
      → 0 < a.limit
      → Stores m c (c.nv s') uid (some a)
      → status_of_run (run_of_status (on_status m helper username s').0) ≡ PinStatus.locked_out
  unfolding status_of_run status_of run_of_status
  reported s' spent positive k =
      rw
        (
          (on_status_ends m c uid range helper username found s' a k).0,
          info_of-spent a spent positive k.2.small k.2.within,
        )
        refl

  -- The PAM module with pinutil as its helper, on a reliable TPM, for a user whom the module and
  -- the helper know, with an account in the current format, a positive limit and no attempts left:
  -- `authenticate_user` ends with `MAXTRIES`, whatever the module's arguments and the PIN that was
  -- passed on, without a prompt or a test of a PIN, and the account is as it was.
  pub authenticate_user_locked :
      (args : ModuleArgs) (authtok : Option Text) (t : Trace) (known : ℕ)
      → get_uid_from_username base.caller username ≡ ok known
      → a.limit ≤ a.failures
      → 0 < a.limit
      → Stores m c (c.nv (replay m helper s t)) uid (some a)
      → EndsLocked t (authenticate_user (with_helper m helper base s) username args authtok t)
  unfolding authenticate_user on_uid on_status_of say tell catch run_pinutil_status ◌>>=◌ ◌>>◌
      replay
  authenticate_user_locked args authtok t known e spent positive k =
      rw (e, reported (replay m helper s t) spent positive k)
        (
          refl,
          refl,
          refl,
          rw (on_status_ends m c uid range helper username found (replay m helper s t) a k).1 k,
        )
