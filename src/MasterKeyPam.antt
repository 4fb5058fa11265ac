-- ===== src/MasterKeyPam.antt =====
-- pinpam-master-key-pam/src/lib.rs: the module that stamps PAM_AUTHTOK with a user's token. The state
-- is what happened, the last first.
pub mod Stamp
pub mod WithPinutil
use pinpam.Base.{
  [], ◌||◌, ◌==◌, inr, pure, some, inl, ◌∷◌, none, false, err, ok, on_result, catch, List, ◌⊎◌,
  Option, Outcome, Bool, St, if◌then◌else◌, lift, refl, ◌>>=◌, ◌>>◌,
}
use pinpam.Base.Text.{Text}
use pinpam.Core.Error.{PinError}
use pinpam.Pam.Env.{
  PamReturnCode, CString, null, not_utf8, text, other_code, auth_err, user_unknown,
}
use pinpam.Pam.Io.{Item, is_success}

-- `PamReturnCode::IGNORE` and `PamReturnCode::SYSTEM_ERR`
abbrev pub ignore : PamReturnCode
ignore = other_code 25

abbrev pub system_err : PamReturnCode
system_err = other_code 4

-- A run of `pinutil -m master-key get-user-token`: it was not started, it ended with a failure, or
-- it wrote something, which serde_json could or could not read.
pub data TokenRun : Type 0 where
  not_run failed unreadable : TokenRun
  answered : PinError ⊎ Text → TokenRun

pub data Event : Type 0 where
  derived : Text → TokenRun → Event
  -- `pam_set_item` with PAM_AUTHTOK, and what it answered
  set_authtok : Text → PamReturnCode → Event

abbrev pub Trace : Type 0
Trace = List Event

-- libpam and the helper: each answers as it likes, by what happened before.
pub record Env : Type 0 where
  pub user : Item
  pub on_token : Trace → Text → TokenRun
  pub on_set : Trace → Text → PamReturnCode

abbrev pub Run : Type 0 → Type 0
Run A = St Trace PamReturnCode A

-- `derive_user_token_via_pinutil`, from the run of the process: `none` for any of its errors, which
-- are texts.
unfoldable pub token_of_run : TokenRun → Option Text
token_of_run not_run = none
token_of_run failed = none
token_of_run unreadable = none
token_of_run (answered (inl e)) = none
token_of_run (answered (inr token)) = some token

named : CString → Outcome PamReturnCode Text
named null = err user_unknown
named not_utf8 = err system_err
named (text s) = ok s

-- `get_pam_user`
unfoldable pub get_pam_user : Item → Outcome PamReturnCode Text
unfolding named is_success
get_pam_user item = if is_success item.status then named item.value else err item.status

abbrev pub has_nul : Text → Bool
has_nul [] = false
has_nul (c ∷ s) = c == 0 || has_nul s

-- `CString::new`
abbrev pub c_string : Text → Outcome PamReturnCode Text
c_string s = if has_nul s then err auth_err else ok s

module _ (env : Env) where
  -- `derive_user_token_via_pinutil`
  unfoldable pub derive_user_token_via_pinutil : Text → Run (Option Text)
  unfolding token_of_run
  derive_user_token_via_pinutil user t =
      (ok (token_of_run (env.on_token t user)), derived user (env.on_token t user) ∷ t)

  derived_string : Option Text → Outcome PamReturnCode Text
  derived_string none = err auth_err
  derived_string (some token) = c_string token

  -- `build_user_token_cstring`
  unfoldable pub build_user_token_cstring : Text → Run Text
  unfolding derived_string
  build_user_token_cstring user = do
    token ← derive_user_token_via_pinutil user
    lift (derived_string token)

  -- `set_pam_authtok`
  unfoldable pub set_pam_authtok : Text → Run (Unit {0})
  unfolding is_success
  set_pam_authtok authtok t = (
    if is_success (env.on_set t authtok) then ok tt else err (env.on_set t authtok),
    set_authtok authtok (env.on_set t authtok) ∷ t,
  )

  -- `pam_sm_authenticate`, for a user.
  unfoldable pub stamp : Text → Run PamReturnCode
  stamp user = catch (build_user_token_cstring user) (
      on_result
        (λ c_token.
          catch (set_pam_authtok c_token) (on_result (λ done. pure ignore) (λ rc. pure ignore)))
        (λ rc. pure ignore))

  -- `pam_sm_authenticate`
  unfoldable pub pam_sm_authenticate : Run PamReturnCode
  unfolding stamp
  pam_sm_authenticate = catch (lift (get_pam_user env.user)) (on_result stamp (λ rc. pure ignore))

-- `pam_sm_setcred`
unfoldable pub pam_sm_setcred : PamReturnCode
pam_sm_setcred = ignore
