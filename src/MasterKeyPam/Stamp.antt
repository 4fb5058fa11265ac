-- ===== src/MasterKeyPam/Stamp.antt =====
-- What the stamping module does to an authentication, with any helper
-- (pinpam-master-key-pam/src/lib.rs).
use pinpam.Base.{
  err, panic, ◌≢◌, none, Outcome, ap, false, ◌∷◌, Bool-cases, true, inl, ◌⊎◌, inr, catch, ◌≡◌, refl,
  ok, ◌>>=◌,
}
use pinpam.Base.Text.{Text}
use pinpam.Pam.Env.{not_utf8, null, PamReturnCode, CString, text}
use pinpam.Pam.Io.{is_success, Item}
use pinpam.MasterKeyPam.{
  named, unreadable, not_run, set_authtok, derived, Env, Trace, TokenRun, answered, failed, ignore,
  get_pam_user, has_nul, pam_sm_authenticate, stamp, build_user_token_cstring,
  derive_user_token_via_pinutil, set_pam_authtok, derived_string, token_of_run,
}

-- What an authentication adds to the trace: nothing, a run of the helper, or also the token that the
-- helper answered with, for the user that libpam named.
abbrev pub IsStamped : Env → Trace → Trace → Type 0
IsStamped env t u =
    (u ≡ t)
    ⊎ ((user : Text) × (run : TokenRun) × (u ≡ derived user run ∷ t))
    ⊎ ((user : Text) × (tok : Text) × (rc : PamReturnCode) × (get_pam_user env.user ≡ ok user)
        × (has_nul tok ≡ false)
        × (u ≡ set_authtok tok rc ∷ derived user (answered (inr tok)) ∷ t))

module _ (env : Env) (t : Trace) where
  -- The helper gave no token.
  pub stamp-none :
      (user : Text) (run : TokenRun)
      → env.on_token t user ≡ run
      → token_of_run run ≡ none
      → stamp env user t ≡ (ok ignore, derived user run ∷ t)
  unfolding stamp build_user_token_cstring derive_user_token_via_pinutil catch ◌>>=◌ derived_string
  stamp-none user run e n = rw (e, n) refl

  -- A token that is no C string.
  stamp_nul :
      (user tok : Text)
      → env.on_token t user ≡ answered (inr tok)
      → has_nul tok ≡ true
      → stamp env user t ≡ (ok ignore, derived user (answered (inr tok)) ∷ t)
  unfolding stamp build_user_token_cstring derive_user_token_via_pinutil catch ◌>>=◌ derived_string
      token_of_run
  stamp_nul user tok e n = rw (e, n) refl

  -- What libpam answers when the token is set.
  abbrev pub answer : Text → Text → PamReturnCode
  answer user tok = env.on_set (derived user (answered (inr tok)) ∷ t) tok

  pub stamp_set :
      (user tok : Text)
      → env.on_token t user ≡ answered (inr tok)
      → has_nul tok ≡ false
      → (is_success (answer user tok) ≡ true) ⊎ (is_success (answer user tok) ≡ false)
      → stamp env user t
        ≡ (ok ignore, set_authtok tok (answer user tok) ∷ derived user (answered (inr tok)) ∷ t)
  unfolding stamp build_user_token_cstring derive_user_token_via_pinutil catch ◌>>=◌ derived_string
      token_of_run set_pam_authtok
  stamp_set user tok e n (inl h) = rw (e, n, h) refl
  stamp_set user tok e n (inr h) = rw (e, n, h) refl

  ended :
      (user : Text) (run : TokenRun)
      → stamp env user t ≡ (ok ignore, derived user run ∷ t)
      → ((stamp env user t).0 ≡ ok ignore) × IsStamped env t (stamp env user t).1
  ended user run e = (ap (λ q. q.0) e, inr (inl (user, run, ap (λ q. q.1) e)))

  after_token :
      (user tok : Text)
      → get_pam_user env.user ≡ ok user
      → env.on_token t user ≡ answered (inr tok)
      → (has_nul tok ≡ true) ⊎ (has_nul tok ≡ false)
      → ((stamp env user t).0 ≡ ok ignore) × IsStamped env t (stamp env user t).1
  after_token user tok n e (inl h) = ended user (answered (inr tok)) (stamp_nul user tok e h)
  after_token user tok n e (inr h) =
      let q = stamp_set user tok e h (Bool-cases (is_success (answer user tok))) in
      (ap (λ q. q.0) q, inr (inr (user, tok, answer user tok, n, h, ap (λ q. q.1) q)))

  stamped :
      (user : Text) (run : TokenRun)
      → get_pam_user env.user ≡ ok user
      → env.on_token t user ≡ run
      → ((stamp env user t).0 ≡ ok ignore) × IsStamped env t (stamp env user t).1
  unfolding token_of_run
  stamped user not_run n e = ended user not_run (stamp-none user not_run e refl)
  stamped user failed n e = ended user failed (stamp-none user failed e refl)
  stamped user unreadable n e = ended user unreadable (stamp-none user unreadable e refl)
  stamped user (answered (inl x)) n e =
      ended user (answered (inl x)) (stamp-none user (answered (inl x)) e refl)
  stamped user (answered (inr tok)) n e = after_token user tok n e (Bool-cases (has_nul tok))

  named_stamps :
      (user : Text) → get_pam_user env.user ≡ ok user → pam_sm_authenticate env t ≡ stamp env user t
  unfolding pam_sm_authenticate catch
  named_stamps user e = rw e refl

  for_user :
      (r : Outcome PamReturnCode Text)
      → get_pam_user env.user ≡ r
      → r ≢ panic
      → ((pam_sm_authenticate env t).0 ≡ ok ignore) × IsStamped env t (pam_sm_authenticate env t).1
  unfolding pam_sm_authenticate catch
  for_user (ok user) e n = rw (named_stamps user e) (stamped user (env.on_token t user) e refl)
  for_user (err rc) e n = rw e (refl, inl refl)
  for_user panic e n = absurd (n refl)

  named-NotPanic : (value : CString) → named value ≢ panic
  unfolding named
  named-NotPanic null = λ e. cc
  named-NotPanic not_utf8 = λ e. cc
  named-NotPanic (text s) = λ e. cc

  user-NotPanic :
      (item : Item)
      → (is_success item.status ≡ true) ⊎ (is_success item.status ≡ false)
      → get_pam_user item ≢ panic
  unfolding get_pam_user
  user-NotPanic item (inl h) = rw h (named-NotPanic item.value)
  user-NotPanic item (inr h) = rw h (λ e. cc)

  -- With any helper and any libpam, the stamping module answers `IGNORE`, runs the helper at most
  -- once, and sets PAM_AUTHTOK at most once, and then to a token without NUL that the helper
  -- answered with, for the user that libpam named.
  pub pam_sm_authenticate-IsStamped :
      ((pam_sm_authenticate env t).0 ≡ ok ignore) × IsStamped env t (pam_sm_authenticate env t).1
  pam_sm_authenticate-IsStamped =
      for_user (get_pam_user env.user) refl
        (user-NotPanic env.user (Bool-cases (is_success env.user.status)))
