-- ===== src/Pam/Authenticate/Entered.antt =====
-- An authentication with a PIN that the user enters, with pinutil as the helper
-- (pinpam-pam/src/lib.rs, pinutil/src/main.rs).
use pinpam.Core.Tpm.Laws.{max_auth}
use pinpam.Core.Consts.{pin_version_uid_max}
use pinpam.Core.Error.{PinResult}
use pinpam.Base.{
  ◌^◌, Option, leb, le→ltb, ◌-◌, Outcome, length, arith, ◌<◌, ◌∷◌, ◌≤◌, ℕ, List, some, ok, ◌≡◌, ◌≢◌,
  false, catch, true, refl, ◌>>=◌,
}
use pinpam.Base.Text.{Text, trim}
use pinpam.Core.Pin.{Pin, as_str, as_bytes, new}
use pinpam.Core.Util.{Caller, get_uid_from_username, can_attempt_pin}
use pinpam.Core.Account.{Account, Answer, accepted, rejected, refused, guess}
use pinpam.Core.Manager.{PinManager}
use pinpam.Core.Manager.Connected.{IsConnected}
use pinpam.Core.Manager.Accounts.{Stores}
use pinpam.Pinutil.Verification.{Reports}
use pinpam.Pinutil.Main.{as_value, done}
use pinpam.Pinutil.MasterKeys.{Ending, handle_result}
use pinpam.Login.{pin_line, on_test, on_status, run_of_test, run_of_status, replay, with_helper}
use pinpam.Login.Helper.{new-pin_line, has_newline, info_of-open, on_status_ends, on_test_ends}
use pinpam.Pam.Env.{
  asked_status, tested, prompted, Env, Trace, PamReturnCode, auth_err, maxtries, text, Message,
}
use pinpam.Pam.Io.{prompt_hidden, converse, entered, is_success, tell}
use pinpam.Pam.Args.{ModuleArgs, decide_first_pass, wants_first_pass}
use pinpam.Pam.Status.{
  PinStatus, run_pinutil_status, run_pinutil_test, status_of_run, status_of, outcome_of_run,
  outcome_of, is_sent, is_fine, decoded,
}
use pinpam.Pam.Authenticate.{
  authenticate_user, on_uid, on_status as on_status_of, on_decision, interactive, prompt_for_pin,
  ask, checked, after_prompt, after_test, finalize_outcome, say, prompt_text-some,
}

-- The code for the answer to a guess.
abbrev pub code_of : Answer → PamReturnCode
code_of accepted = PamReturnCode.success
code_of (rejected true) = maxtries
code_of (rejected false) = auth_err
code_of refused = maxtries

module _ (m : PinManager) (helper : Caller) (base : Env) (s : m.tpm.State) where
  abbrev env : Env
  env = with_helper m helper base s

  -- What the helper prints of its answer becomes a code, and nothing more happens to the TPM.
  settled :
      (answer : Answer) (q : PinResult (Unit {0})) (e : Ending) (t : Trace)
      → Reports answer q
      → answer ≢ refused
      → e ≡ handle_result true (as_value done q)
      → ((after_test env (outcome_of_run (run_of_test e)) t).0 ≡ ok (code_of answer))
        × (replay m helper s (after_test env (outcome_of_run (run_of_test e)) t).1
            ≡ replay m helper s t)
  unfolding after_test finalize_outcome say catch tell outcome_of_run outcome_of is_sent is_fine
      decoded run_of_test replay handle_result
  settled accepted q e t r n h = rw (h, r) (refl, refl)
  settled (rejected true) q e t r n h = rw (h, r) (refl, refl)
  settled (rejected false) q e t r n h = rw (h, r) (refl, refl)
  settled refused q e t r n h = absurd (n refl)

pub guess-NotRefused :
    (a : Account) (pin : List ℕ) → a.failures < a.limit → (guess a pin).0 ≢ refused
unfolding guess
guess-NotRefused a pin left e = ground (arith, e)

-- The conversation works, and its answer is this text.
abbrev pub Answers : Env → Text → Type 0
Answers env answer =
    (env.has_conv ≡ true)
    × ((t : Trace) (message : Message)
        → env.conv_fn t message
          ≡ record { status = PamReturnCode.success; response = some (text answer) })

prompt_hidden-Answers :
    (env : Env) (answer : Text) (message : Message) (t : Trace)
    → Answers env answer
    → prompt_hidden env message t ≡ (ok (trim answer), prompted message ∷ t)
unfolding prompt_hidden converse entered is_success
prompt_hidden-Answers env answer message t h = rw (h.0, h.1 t message) refl

-- A user with a known name, a helper that may try the user's PIN, and an account with attempts left.
module _ (m : PinManager) (c : IsConnected m) (uid : ℕ) (range : uid ≤ pin_version_uid_max)
    (helper : Caller) (username : Text) (found : get_uid_from_username helper username ≡ ok uid)
    (may : can_attempt_pin helper uid ≡ true) (base : Env) (s : m.tpm.State) (a : Account)
    (left : a.failures < a.limit) (pin : Pin) where
  -- The authentication ends as the guess does, in its code and in the account that it leaves.
  abbrev pub EndsAs : Outcome PamReturnCode PamReturnCode × Trace → Type 0
  EndsAs q =
      (q.0 ≡ ok (code_of (guess a (as_bytes pin)).0))
      × Stores m c (c.nv (replay m helper s q.1)) uid (some (guess a (as_bytes pin)).1)

  after_prompt_ends :
      (t : Trace)
      → new (pin_line pin) m.policy ≡ ok pin
      → length (as_bytes pin) ≤ max_auth
      → Stores m c (c.nv (replay m helper s t)) uid (some a)
      → EndsAs (after_prompt (env m helper base s) username (ok pin) t)
  unfolding after_prompt run_pinutil_test ◌>>=◌ replay
  after_prompt_ends t e fits k =
      let q =
        on_test_ends m c uid range helper username found (replay m helper s t) a pin may e fits k
          left in
      let run = (on_test m helper username pin (replay m helper s t)).0 in
      let r =
        settled m helper base s (guess a (as_bytes pin)).0 q.0 run
          (tested username pin (run_of_test run) ∷ t) q.1 (guess-NotRefused a (as_bytes pin) left)
          q.2 in
      (r.0, rw r.1 q.3)

  -- A look at the status leaves the account.
  pub kept_account :
      (s' : m.tpm.State)
      → Stores m c (c.nv s') uid (some a)
      → Stores m c (c.nv (on_status m helper username s').1) uid (some a)
  kept_account s' k = rw (on_status_ends m c uid range helper username found s' a k).1 k

  module _ (answer : Text) (h : Answers base answer)
      (accepted_pin : new (trim answer) m.policy ≡ ok pin) (same : base.policy ≡ m.policy) where
    entered_pin :
        (t : Trace) (message : Message)
        → ask (env m helper base s) (some message) t ≡ (ok pin, prompted message ∷ t)
    unfolding ask checked ◌>>=◌
    entered_pin t message =
        rw (prompt_hidden-Answers (env m helper base s) answer message t h, same, accepted_pin) refl

    asked_pin :
        (t : Trace)
        → (message : Message) × (prompt_for_pin (env m helper base s) a.failures a.limit t
            ≡ (ok pin, prompted message ∷ t))
    unfolding prompt_for_pin
    asked_pin t =
        let p = prompt_text-some (a.limit - a.failures) (omega arith) in
        (p.0, rw (le→ltb a.failures a.limit (omega arith), p.1) (entered_pin t p.0))

    pub interactive_ends :
        (t : Trace)
        → has_newline (as_str pin) ≡ false
        → length (as_bytes pin) ≤ max_auth
        → Stores m c (c.nv (replay m helper s t)) uid (some a)
        → EndsAs (interactive (env m helper base s) username a.failures a.limit t)
    unfolding interactive catch replay
    interactive_ends t n fits k =
        let p = asked_pin t in
        let full : leb a.limit a.failures ≡ false = ground arith in
        rw (full, p.1)
          (after_prompt_ends (prompted p.0 ∷ t)
            (new-pin_line (trim answer) m.policy pin accepted_pin n) fits k)

    -- The status that the helper reports, as the module sees it.
    pub reported :
        (t : Trace)
        → a.limit < 2 ^ 31
        → Stores m c (c.nv (replay m helper s t)) uid (some a)
        → status_of_run (run_of_status (on_status m helper username (replay m helper s t)).0)
          ≡ PinStatus.available a.failures a.limit
    unfolding status_of_run status_of run_of_status
    reported t small k =
        let i = info_of-open a left small in
        rw
          (
            (on_status_ends m c uid range helper username found (replay m helper s t) a k).0,
            i.0,
            i.1,
            i.2,
          )
          refl

    -- The PAM module with pinutil as its helper, on a reliable TPM, for a user with an account in
    -- the current format with attempts left, whom the module knows and whose PIN the helper may
    -- try: where no first pass is wanted and each conversation succeeds with an answer that the
    -- policy, the same for both, accepts as a PIN of at most 64 bytes without a newline,
    -- `authenticate_user` ends with the code for what `guess` answers, which is `SUCCESS`,
    -- `AUTH_ERR` or `MAXTRIES`, and leaves the account that `guess` leaves.
    pub authenticate_user-Guesses :
        (args : ModuleArgs) (authtok : Option Text) (t : Trace) (known : ℕ)
        → wants_first_pass args ≡ false
        → get_uid_from_username base.caller username ≡ ok known
        → has_newline (as_str pin) ≡ false
        → length (as_bytes pin) ≤ max_auth
        → Stores m c (c.nv (replay m helper s t)) uid (some a)
        → EndsAs (authenticate_user (env m helper base s) username args authtok t)
    unfolding authenticate_user on_uid on_status_of on_decision decide_first_pass run_pinutil_status
        ◌>>=◌ replay
    authenticate_user-Guesses args authtok t known w e n fits k =
        let after =
          asked_status username
            (run_of_status (on_status m helper username (replay m helper s t)).0)
          ∷ t in
        rw (e, reported t k.2.small k, w)
          (interactive_ends after n fits (kept_account (replay m helper s t) k))
