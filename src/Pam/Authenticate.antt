-- ===== src/Pam/Authenticate.antt =====
-- pinpam-pam/src/lib.rs: the flow of an authentication.
pub mod Effects
pub mod Safety
pub mod Entered
pub mod Locked
pub mod Stacked
pub mod EntryPoint
use pinpam.Pam.Io.{
  new as io_new, prompt_hidden, get_username, argv_to_strings, get_pam_authtok, tell, Entry, Item,
}
use pinpam.Base.{
  arith, ◌≡◌, ◌<◌, refl, ◌>>=◌, ◌>>◌, zero, suc, ◌^◌, ◌-◌, ◌+◌, ◌>>◌, raise, ltb, leb,
  if◌then◌else◌, catch, Outcome, List, pure, Option, ◌⊎◌, ℕ, true, false, none, some, inl, inr, ok,
  err, panic,
}
use pinpam.Base.Text.{Text}
use pinpam.Core.Error.{PinResult, PinError, pin_is_empty}
use pinpam.Core.Pin.{Pin}
use pinpam.Core.Pin
use pinpam.Core.Util.{get_uid_from_username}
use pinpam.Pam.Env.{
  pin_prompt, pin_prompt_remaining, user_unknown, pin_prompt_last, maxtries, pin_not_conf_for_user,
  account_locked, authinfo_unavail, auth_err, pin_auth_unavail, auth_failure, Env, Run,
  PamReturnCode, Message,
}
use pinpam.Pam.Status.{PinStatus, PinutilTestOutcome, run_pinutil_status, run_pinutil_test}
use pinpam.Pam.Args.{ModuleArgs, FirstPassDecision, decide_first_pass, wants_first_pass, from_strs}

abbrev pub crash : {A : Type 0} → Run A
crash t = (panic, t)

-- `u32::saturating_add`
abbrev saturating_add : ℕ → ℕ → ℕ
saturating_add a b = if ltb (a + b) (2 ^ 32) then a + b else 2 ^ 32 - 1

-- The prompt for so many attempts left.
prompt_text : ℕ → Option Message
prompt_text zero = none
prompt_text (suc zero) = some pin_prompt_last
prompt_text (suc (suc zero)) = some (pin_prompt_remaining 2)
prompt_text (suc (suc (suc n))) = some pin_prompt

prompt_text-some : (n : ℕ) → 0 < n → (m : Message) × (prompt_text n ≡ some m)
unfolding prompt_text
prompt_text-some zero h = absurd (omega arith)
prompt_text-some (suc zero) h = (_, refl)
prompt_text-some (suc (suc zero)) h = (_, refl)
prompt_text-some (suc (suc (suc n))) h = (_, refl)

-- What the user is told of a PIN that the policy refuses.
complaint : PinError → Message
complaint pin_is_empty = Message.pin_empty
complaint e = Message.pin_digits

module _ (env : Env) where
  -- `let _ = pam_io.error(message); return code`
  pub say : Message → PamReturnCode → Run PamReturnCode
  say message code = catch (tell env message) (λ result. pure code)

  -- The `match` on `Pin::new` at the end of `prompt_for_pin`.
  checked : PinResult Pin → Run Pin
  unfolding complaint
  checked (ok pin) = pure pin
  checked (err e) = tell env (complaint e) >> raise auth_err
  checked panic = crash

  ask : Option Message → Run Pin
  unfolding checked
  ask none = raise authinfo_unavail
  ask (some prompt) = do pin_text ← prompt_hidden env prompt; checked (Pin.new pin_text env.policy)

  -- `prompt_for_pin`. The subtraction panics, or wraps around, where `used` is above `limit`.
  unfoldable pub prompt_for_pin : ℕ → ℕ → Run Pin
  unfolding ask prompt_text
  prompt_for_pin used limit t =
      if ltb limit used then (panic, t) else ask (prompt_text (limit - used)) t

  -- `finalize_outcome`
  unfoldable pub finalize_outcome : PinutilTestOutcome → Run PamReturnCode
  unfolding say
  finalize_outcome PinutilTestOutcome.success = pure PamReturnCode.success
  finalize_outcome PinutilTestOutcome.invalid_pin = say auth_failure auth_err
  finalize_outcome PinutilTestOutcome.newly_locked_out = say account_locked maxtries
  finalize_outcome PinutilTestOutcome.locked_out = say account_locked maxtries
  finalize_outcome PinutilTestOutcome.not_configured = say pin_not_conf_for_user authinfo_unavail
  finalize_outcome PinutilTestOutcome.unavailable = say pin_auth_unavail authinfo_unavail

  -- The answer of the helper to the PIN that was entered.
  after_test : Option PinutilTestOutcome → Run PamReturnCode
  unfolding say finalize_outcome
  after_test none = say pin_auth_unavail authinfo_unavail
  after_test (some outcome) = finalize_outcome outcome

  -- `authenticate_user`, from the PIN that was entered.
  after_prompt : Text → Outcome PamReturnCode Pin → Run PamReturnCode
  unfolding after_test
  after_prompt username (ok pin) = do
    outcome ← run_pinutil_test env username pin
    after_test outcome
  after_prompt username (err code) = pure code
  after_prompt username panic = crash

  -- `authenticate_user`, from the check of the attempts on.
  pub interactive : Text → ℕ → ℕ → Run PamReturnCode
  unfolding say after_prompt
  interactive username used limit =
      if leb limit used
      then say account_locked maxtries
      else catch (prompt_for_pin used limit) (after_prompt username)

  -- The answer of the helper to the PIN of the module before this one.
  after_first_pass : Text → ModuleArgs → ℕ → ℕ → Option PinutilTestOutcome → Run PamReturnCode
  unfolding say finalize_outcome interactive
  after_first_pass username args used limit none = say pin_auth_unavail authinfo_unavail
  after_first_pass username args used limit (some PinutilTestOutcome.success) =
      pure PamReturnCode.success
  after_first_pass username args used limit (some PinutilTestOutcome.invalid_pin) =
      if args.use_first_pass
      then finalize_outcome PinutilTestOutcome.invalid_pin
      else interactive username (saturating_add used 1) limit
  after_first_pass username args used limit (some outcome) = finalize_outcome outcome

  -- `authenticate_user`, the `match` on `decide_first_pass`.
  on_decision : Text → ModuleArgs → ℕ → ℕ → FirstPassDecision → Run PamReturnCode
  unfolding say after_first_pass interactive
  on_decision username args used limit FirstPassDecision.deny = say auth_failure auth_err
  on_decision username args used limit (FirstPassDecision.try_first_pass pin) = do
    outcome ← run_pinutil_test env username pin
    after_first_pass username args used limit outcome
  on_decision username args used limit FirstPassDecision.prompt_user =
      interactive username used limit

  -- `authenticate_user`, the `match` on the status.
  on_status : Text → ModuleArgs → Option Text → PinStatus → Run PamReturnCode
  unfolding say on_decision
  on_status username args authtok (PinStatus.unavailable e) = say pin_auth_unavail authinfo_unavail
  on_status username args authtok PinStatus.not_provisioned =
      say pin_not_conf_for_user authinfo_unavail
  on_status username args authtok PinStatus.locked_out = say account_locked maxtries
  on_status username args authtok (PinStatus.available used limit) =
      on_decision username args used limit (decide_first_pass args authtok env.policy)

  -- `authenticate_user`, from the lookup of the user.
  on_uid : Text → ModuleArgs → Option Text → PinResult ℕ → Run PamReturnCode
  unfolding say on_status
  on_uid username args authtok (ok uid) = do
    status ← run_pinutil_status env username
    on_status username args authtok status
  on_uid username args authtok (err e) = say auth_failure user_unknown
  on_uid username args authtok panic = crash

  -- `authenticate_user`
  unfoldable pub authenticate_user : Text → ModuleArgs → Option Text → Run PamReturnCode
  unfolding on_uid
  authenticate_user username args authtok =
      on_uid username args authtok (get_uid_from_username env.caller username)

  -- The `match` on `get_pam_authtok`.
  with_authtok : Text → ModuleArgs → Outcome PamReturnCode (Option Text) → Run PamReturnCode
  unfolding authenticate_user
  with_authtok username args (ok authtok) = authenticate_user username args authtok
  with_authtok username args (err code) = pure code
  with_authtok username args panic = crash

  -- The `match` on `get_username`.
  with_username : ModuleArgs → Item → Outcome PamReturnCode Text → Run PamReturnCode
  unfolding say with_authtok
  with_username args authtok (ok username) =
      with_authtok username args
        (if wants_first_pass args then get_pam_authtok authtok else ok none)
  with_username args authtok (err code) = say auth_failure code
  with_username args authtok panic = crash

  -- The `match` on `PamIo::new`.
  with_conversation : Entry → Outcome PamReturnCode (Unit {0}) → Run PamReturnCode
  unfolding with_username
  with_conversation entry (ok io) =
      with_username (from_strs (argv_to_strings entry.argv)) entry.authtok (get_username entry.user)
  with_conversation entry (err code) = pure code
  with_conversation entry panic = crash

  -- `pam_sm_authenticate`, on what libpam answers.
  unfoldable pub pam_sm_authenticate : Entry → Run PamReturnCode
  unfolding with_conversation
  pam_sm_authenticate entry = with_conversation entry (io_new entry.conversation)
