-- ===== src/MasterKeyPam/WithPinutil.antt =====
-- The stamping module with pinutil as its helper, on a platform that has the master key
-- (pinpam-master-key-pam/src/lib.rs, pinutil/src/main.rs).
use pinpam.Base.{
  ◌≤◌, length, err, panic, some, ℕ, ◌==◌, ◌≢◌, [], List, if◌then◌else◌, ap, false, ◌∷◌, Bool-cases,
  true, inl, inr, catch, ◌≡◌, refl, ok, ◌>>=◌,
}
use pinpam.Base.Text.{Text, as_bytes}
use pinpam.Core.Policy.{PinPolicy}
use pinpam.Core.Util.{Caller}
use pinpam.Core.MasterKey.{Platform}
use pinpam.Core.MasterKey.Laws.{IsPrepared, hmac_key}
use pinpam.Core.MasterKey.Objects.Provisioned.{key_handle}
use pinpam.Core.MasterKey.Lifecycle.Effects.{token_of, derive_ends}
use pinpam.Pam.Env.{PamReturnCode, text}
use pinpam.Pam.Io.{is_success, Item}
use pinpam.Pinutil.MasterKeys.{
  nothing, silent, token, handle_result, key_made, ending, key_status, on_platform, command, json,
  line, Ending, attempts, Stdout, main, get_user_token,
}
use pinpam.Pinutil.MasterKeys.Consent.{main_denied}
use pinpam.MasterKeyPam.{
  named, unreadable, set_authtok, derived, Env, Trace, TokenRun, answered, failed, ignore,
  get_pam_user, has_nul, pam_sm_authenticate, token_of_run,
}
use pinpam.MasterKeyPam.Stamp.{stamp-none, stamp_set, answer}

-- The run of the helper, as the module sees its end: the JSON of a `Result` reads back as it was.
run_of_stdout : Stdout → TokenRun
run_of_stdout silent = unreadable
run_of_stdout (line s) = unreadable
run_of_stdout (json panic) = unreadable
run_of_stdout (json (err e)) = answered (inl e)
run_of_stdout (json (ok nothing)) = unreadable
run_of_stdout (json (ok (key_status st))) = unreadable
run_of_stdout (json (ok (key_made res))) = unreadable
run_of_stdout (json (ok (token t))) = answered (inr t)
run_of_stdout (json (ok (attempts info))) = unreadable

unfoldable pub run_of_ending : Ending → TokenRun
unfolding run_of_stdout
run_of_ending e = if e.code == 0 then run_of_stdout e.stdout else failed

-- libpam with a user, and pinutil as the helper.
abbrev pub with_pinutil :
    (p : Platform) → PinPolicy → Caller → p.State → Text → (Trace → Text → PamReturnCode) → Env
with_pinutil p policy caller s user on_set = record {
  user = record { status = PamReturnCode.success; value = text user };
  on_token = λ t name. run_of_ending (main p policy caller true (get_user_token name) (s, [])).0;
  on_set = on_set;
}

module _ (p : Platform) (policy : PinPolicy) (caller : Caller) (s : p.State) (user : Text)
    (on_set : Trace → Text → PamReturnCode) (t : Trace) where
  abbrev env : Env
  env = with_pinutil p policy caller s user on_set

  pub stamp_denied :
      caller.uid ≢ 0 → pam_sm_authenticate env t ≡ (ok ignore, derived user failed ∷ t)
  unfolding pam_sm_authenticate get_pam_user named pinpam.Pam.Io.is_success catch token_of_run
      run_of_ending
  stamp_denied h =
      stamp-none env t user failed
        (ap (λ q. run_of_ending q.0)
          (main_denied p policy caller true (get_user_token user) (s, []) h))
        refl

  module _ (c : IsPrepared p policy) (key : List ℕ) where
    token_run :
        caller.uid ≡ 0
        → (c.vault s).objects key_handle ≡ some (hmac_key key)
        → length (as_bytes user) ≤ 1024
        → env.on_token t user ≡ answered (inr (token_of p policy c key user))
    unfolding main command on_platform ending handle_result run_of_ending run_of_stdout ◌>>=◌
    token_run root e fits =
        rw (root, (derive_ends p policy c key user s (c.vault s) refl e fits).0) refl

    -- With pinutil run by root as the helper, on a dependable platform whose TPM has the key, for
    -- a user that libpam names, with a name of at most 1024 bytes and a token without NUL: the
    -- module runs the helper once, sets PAM_AUTHTOK once, to the hex of the key's HMAC of the
    -- name, and answers `IGNORE`.
    pub stamp_token :
        caller.uid ≡ 0
        → (c.vault s).objects key_handle ≡ some (hmac_key key)
        → length (as_bytes user) ≤ 1024
        → has_nul (token_of p policy c key user) ≡ false
        → pam_sm_authenticate env t ≡ (
          ok ignore,
          set_authtok
                (token_of p policy c key user)
                (answer env t user (token_of p policy c key user))
              ∷ derived user (answered (inr (token_of p policy c key user)))
              ∷ t,
        )
    unfolding pam_sm_authenticate get_pam_user named is_success catch
    stamp_token root e fits h =
        stamp_set env t user (token_of p policy c key user) (token_run root e fits) h (Bool-cases _)
