-- ===== src/Pam/Entries.antt =====
-- pinpam-pam/src/lib.rs: the entry points that answer with a constant, and the log that every entry
-- point sets up first.
use pinpam.Base.{◌||◌, ap, ◌≡◌, ◌∙◌, ◌&&◌, ◌||◌, Bool, true, false, List, [], ◌∷◌, refl}
use pinpam.Base.Text.{codes}
use pinpam.Core.PamLog.{Env, State, init_syslog_logger, is_unset, suppress_tss_logs}
use pinpam.Core.PamLog.Once.{
  Call, Counts, any_init, any_suppress, bit, call_init, call_suppress, fresh, run, run-Counts,
}
use pinpam.Pam.Env.{PamReturnCode, auth_err}

module _ (env : Env) where
  -- `init_logging`
  unfoldable pub init_logging : State → State
  init_logging = init_syslog_logger env (codes "pinpam")

  -- `pam_sm_acct_mgmt`
  unfoldable pub pam_sm_acct_mgmt : State → PamReturnCode × State
  unfolding init_logging
  pam_sm_acct_mgmt s = (PamReturnCode.success, init_logging s)

  -- `pam_sm_open_session`
  unfoldable pub pam_sm_open_session : State → PamReturnCode × State
  unfolding init_logging
  pam_sm_open_session s = (PamReturnCode.success, init_logging s)

  -- `pam_sm_close_session`
  unfoldable pub pam_sm_close_session : State → PamReturnCode × State
  unfolding init_logging
  pam_sm_close_session s = (PamReturnCode.success, init_logging s)

  -- `pam_sm_chauthtok`
  unfoldable pub pam_sm_chauthtok : State → PamReturnCode × State
  unfolding init_logging
  pam_sm_chauthtok s = (auth_err, init_logging s)

  -- `pam_sm_setcred`
  unfoldable pub pam_sm_setcred : State → PamReturnCode × State
  unfolding init_logging
  pam_sm_setcred s = (PamReturnCode.success, init_logging s)

  -- The first two calls of `pam_sm_authenticate`.
  unfoldable pub prepare : State → State
  unfolding init_logging
  prepare s = suppress_tss_logs env (init_logging s)

-- The entry points.
pub data EntryPoint : Type 0 where
  authenticate acct_mgmt open_session close_session chauthtok set_cred : EntryPoint

-- What a call of an entry point does to the log.
unfoldable pub enter : Env → EntryPoint → State → State
unfolding prepare pam_sm_acct_mgmt pam_sm_open_session pam_sm_close_session pam_sm_chauthtok
    pam_sm_setcred
enter env authenticate s = prepare env s
enter env acct_mgmt s = (pam_sm_acct_mgmt env s).1
enter env open_session s = (pam_sm_open_session env s).1
enter env close_session s = (pam_sm_close_session env s).1
enter env chauthtok s = (pam_sm_chauthtok env s).1
enter env set_cred s = (pam_sm_setcred env s).1

-- The calls of libpam, in order.
unfoldable pub enter_all : Env → List EntryPoint → State → State
enter_all env [] s = s
enter_all env (e ∷ es) s = enter_all env es (enter env e s)

abbrev pub is_authenticate : EntryPoint → Bool
is_authenticate authenticate = true
is_authenticate e = false

abbrev pub any_authenticate : List EntryPoint → Bool
any_authenticate [] = false
any_authenticate (e ∷ es) = is_authenticate e || any_authenticate es

abbrev log_calls : EntryPoint → List Call → List Call
log_calls authenticate calls = call_init (codes "pinpam") ∷ call_suppress ∷ calls
log_calls e calls = call_init (codes "pinpam") ∷ calls

abbrev all_log_calls : List EntryPoint → List Call
all_log_calls [] = []
all_log_calls (e ∷ es) = log_calls e (all_log_calls es)

module _ (env : Env) where
  enter-run :
      (e : EntryPoint) (calls : List Call) (s : State)
      → run env calls (enter env e s) ≡ run env (log_calls e calls) s
  unfolding enter run prepare pam_sm_acct_mgmt pam_sm_open_session pam_sm_close_session
      pam_sm_chauthtok pam_sm_setcred init_logging
  enter-run authenticate calls s = refl
  enter-run acct_mgmt calls s = refl
  enter-run open_session calls s = refl
  enter-run close_session calls s = refl
  enter-run chauthtok calls s = refl
  enter-run set_cred calls s = refl

  enter_all-run :
      (es : List EntryPoint) (s : State) → enter_all env es s ≡ run env (all_log_calls es) s
  unfolding enter_all run
  enter_all-run [] s = refl
  enter_all-run (e ∷ es) s = enter_all-run es (enter env e s) ∙ enter-run e (all_log_calls es) s

any_init-log_calls : (e : EntryPoint) (calls : List Call) → any_init (log_calls e calls) ≡ true
any_init-log_calls authenticate calls = refl
any_init-log_calls acct_mgmt calls = refl
any_init-log_calls open_session calls = refl
any_init-log_calls close_session calls = refl
any_init-log_calls chauthtok calls = refl
any_init-log_calls set_cred calls = refl

any_suppress-log_calls :
    (e : EntryPoint) (calls : List Call)
    → any_suppress (log_calls e calls) ≡ is_authenticate e || any_suppress calls
any_suppress-log_calls authenticate calls = refl
any_suppress-log_calls acct_mgmt calls = refl
any_suppress-log_calls open_session calls = refl
any_suppress-log_calls close_session calls = refl
any_suppress-log_calls chauthtok calls = refl
any_suppress-log_calls set_cred calls = refl

any_suppress-all_log_calls :
    (es : List EntryPoint) → any_suppress (all_log_calls es) ≡ any_authenticate es
any_suppress-all_log_calls [] = refl
any_suppress-all_log_calls (e ∷ es) =
    any_suppress-log_calls e (all_log_calls es)
    ∙ ap (λ b. is_authenticate e || b) (any_suppress-all_log_calls es)

module _ (env : Env) where
  -- However often and in whatever order libpam calls the entry points, at least once: either
  -- syslog's logger is taken once or env_logger is asked once to take its place, and never both;
  -- the maximal level is set as often as syslog's logger is taken; and TSS2_LOG is set once if
  -- there was a call of `pam_sm_authenticate` and RUST_LOG is unset, and else never.
  pub enter_all-Counts :
      (e : EntryPoint) (es : List EntryPoint)
      → Counts
          (enter_all env (e ∷ es) fresh).trace
          1
          (bit (any_authenticate (e ∷ es) && is_unset env.rust_log))
  enter_all-Counts e es =
      let c = run-Counts env (all_log_calls (e ∷ es)) in
      rw (enter_all-run env (e ∷ es) fresh) (
        c.0 ∙ ap bit (any_init-log_calls e (all_log_calls es)),
        c.1,
        c.2 ∙ ap (λ b. bit (b && is_unset env.rust_log)) (any_suppress-all_log_calls (e ∷ es)),
      )
