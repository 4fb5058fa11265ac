-- ===== src/Login/Recovery.antt =====
-- What root sets, the user can log in with: pinutil and then the PAM module, on one TPM
-- (pinutil/src/main.rs, pinpam-pam/src/lib.rs).
use pinpam.Base.{
  le→ltb, ◌^◌, ◌<◌, ◌≤◌, ◌≡◌, Option, none, some, ok, inr, ◌∷◌, [], length, ℕ, true, false, refl,
  arith, List,
}
use pinpam.Base.Text.{Text, trim}
use pinpam.Core.Account.{Account, guess_right}
use pinpam.Core.Consts.{pin_version_uid_max}
use pinpam.Core.Manager.{PinManager}
use pinpam.Core.Manager.Accounts.{Stores}
use pinpam.Core.Manager.Accounts.Setup.{new_account}
use pinpam.Core.Manager.Connected.{IsConnected}
use pinpam.Core.Pin.{Pin, as_bytes, as_str, new}
use pinpam.Core.Tpm.Laws.{max_index_auth}
use pinpam.Core.Util.{Caller, can_attempt_pin, can_manage_pin, get_uid_from_username}
use pinpam.Login.{replay, with_helper}
use pinpam.Login.Helper.{has_newline}
use pinpam.Pam.Args.{ModuleArgs, wants_first_pass}
use pinpam.Pam.Authenticate.{authenticate_user}
use pinpam.Pam.Authenticate.Entered.{Answers, authenticate_user-Guesses}
use pinpam.Pam.Env.{Env, PamReturnCode}
use pinpam.Pinutil.{Act, Line, change_pin, run_setup}
use pinpam.Pinutil.Enrolment.{run_setup-Enrols}
use pinpam.Pinutil.Reset.{change_pin-Resets}

-- The command by which a PIN is set, for a user without one and for a user with one.
abbrev pub provide : (m : PinManager) → Caller → Option Account → Text → Act m (Unit {0})
provide m caller none username = run_setup m caller username true
provide m caller (some a) username = change_pin m caller username true

module _ (m : PinManager) (c : IsConnected m) (uid : ℕ) (range : uid ≤ pin_version_uid_max)
    (pin : Pin) (short : length (as_bytes pin) ≤ max_index_auth)
    (positive : 0 < m.policy.max_attempts) (small : m.policy.max_attempts < 2 ^ 31) where
  provided :
      (root : Caller) (username text : Text) (rest : List Line) (s : m.tpm.State)
      (account : Option Account)
      → root.uid ≡ 0
      → get_uid_from_username root username ≡ ok uid
      → new text m.policy ≡ ok pin
      → Stores m c (c.nv s) uid account
      → Stores m c
          (c.nv (provide m root account username (s, inr text ∷ rest)).1.0)
          uid
          (some (new_account m pin))
  unfolding can_manage_pin
  provided root username text rest s none who found e k =
      rw (le→ltb (length (as_bytes pin)) max_index_auth short) at
        (run_setup-Enrols m c uid range s pin text rest root username none found
          (ground (arith, who)) e small (omega (arith, short)) k).1
  provided root username text rest s (some a) who found e k =
      rw (le→ltb (length (as_bytes pin)) max_index_auth short) at
        (change_pin-Resets m c uid range s a pin rest root username text found who e small
          (omega (arith, short)) k).1

  -- Whom the helper may try, and what the user enters.
  module _ (helper : Caller) (username : Text)
      (found : get_uid_from_username helper username ≡ ok uid)
      (may : can_attempt_pin helper uid ≡ true) (base : Env) (answer : Text)
      (h : Answers base answer) (accepted_pin : new (trim answer) m.policy ≡ ok pin)
      (same : base.policy ≡ m.policy) (n : has_newline (as_str pin) ≡ false) where
    logs_in :
        (s : m.tpm.State) (args : ModuleArgs) (authtok : Option Text) (known : ℕ)
        → wants_first_pass args ≡ false
        → get_uid_from_username base.caller username ≡ ok known
        → Stores m c (c.nv s) uid (some (new_account m pin))
        → (authenticate_user (with_helper m helper base s) username args authtok []).0
          ≡ ok PamReturnCode.success
    unfolding replay
    logs_in s args authtok known w e k =
        (rw (guess_right (new_account m pin) (as_bytes pin) positive refl) at (
          authenticate_user-Guesses m c uid range helper username found may base s
            (new_account m pin) positive pin answer h accepted_pin same args authtok [] known w e n
            (omega (arith, short)) k)).0

    -- On a reliable TPM, with a positive limit below 2 ^ 31: for a user whose uid is at most
    -- PIN_VERSION_UID_MAX, after `pinutil -m setup` by root if there are no indices, or `pinutil
    -- -m change` by root if there is an account in the current format, locked or not, given a line
    -- that the policy accepts as a PIN of at most 32 bytes without a newline: an authentication in
    -- which the user enters that PIN, with no first pass wanted, pinutil as the helper with the
    -- right to test, the same policy and a user whom the module knows, ends with `SUCCESS`.
    pub provide-authenticate_user :
        (root : Caller) (text : Text) (rest : List Line) (s : m.tpm.State)
        (account : Option Account) (args : ModuleArgs) (authtok : Option Text) (known : ℕ)
        → root.uid ≡ 0
        → get_uid_from_username root username ≡ ok uid
        → new text m.policy ≡ ok pin
        → wants_first_pass args ≡ false
        → get_uid_from_username base.caller username ≡ ok known
        → Stores m c (c.nv s) uid account
        → let s' = (provide m root account username (s, inr text ∷ rest)).1.0 in
          (authenticate_user (with_helper m helper base s') username args authtok []).0
          ≡ ok PamReturnCode.success
    provide-authenticate_user root text rest s account args authtok known who named e w known_as k =
        logs_in _ args authtok known w known_as
          (provided root username text rest s account who named e k)
