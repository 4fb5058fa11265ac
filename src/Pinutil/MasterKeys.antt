-- ===== src/Pinutil/MasterKeys.antt =====
-- pinutil/src/main.rs: the commands on the master key, with the dispatch of `main` and the end of the
-- process. What is printed is kept where a program reads it: the JSON of machine mode, and the token.
pub mod Consent
pub mod Making
use pinpam.Base.{
  Option, [], inr, ◌==◌, true, panic, ◌∷◌, false, err, raise, ok, inl, St, pure, ℕ, List, Bool,
  list_eq, if◌then◌else◌, not, ◌>>=◌, ◌>>◌, refl,
}
use pinpam.Base.Text.{Text, codes, trim}
use pinpam.Core.Error.{
  PinError, PinResult, Notice, states, term_io_error, permission_denied, cancelled,
  mk_recovery_confirm_mismatch, requires_interactive_confirmation, mk_purpose_import,
  mk_purpose_tpm_clear, mk_purpose_disk_clear,
}
use pinpam.Core.PinData.{AttemptInfo}
use pinpam.Core.Policy.{PinPolicy}
use pinpam.Core.Util.{Caller}
use pinpam.Core.MasterKey.{Platform, Action}
use pinpam.Core.MasterKey.Lifecycle.{
  MasterKeyStatus, MasterKeyInitResult, status, init, import_to_tpm, clear_from_tpm,
  clear_from_disk, derive_user_token,
}
use pinpam.Pinutil.{Line, Machine}
use pinpam.Pinutil.Use.{is_yes}

-- `MasterKeyCommands`
pub data MasterKeyCommand : Type 0 where
  init_key show_status import_key clear_tpm clear_disk : MasterKeyCommand
  get_user_token : Text → MasterKeyCommand

-- The values that the commands on the master key and those on PINs end with.
pub data Value : Type 0 where
  nothing : Value
  key_status : MasterKeyStatus → Value
  key_made : MasterKeyInitResult → Value
  token : Text → Value
  attempts : Option AttemptInfo → Value

pub data Stdout : Type 0 where
  silent : Stdout
  json : PinResult Value → Stdout
  line : Text → Stdout

-- How the process ends; 101 is the code of a panic.
pub record Ending : Type 0 where
  pub code : ℕ
  pub stdout : Stdout

abbrev pub exit_code : PinResult Value → ℕ
exit_code (ok v) = 0
exit_code (err e) = 1
exit_code panic = 101

-- `handle_result`
unfoldable pub handle_result : Machine → PinResult Value → Ending
handle_result machine panic = record { code = 101; stdout = silent }
handle_result machine res = record {
  code = exit_code res;
  stdout = if machine then json res else silent;
}

module _ (p : Platform) where
  -- The platform, with the lines that stand in for the standard input.
  abbrev pub Desk : Type 0
  Desk = p.State × List Line

  abbrev pub Act : Type 0 → Type 0
  Act A = St Desk PinError A

  unfoldable pub on_platform : {A : Type 0} → Action p A → Act A
  on_platform action (s, lines) = ((action s).0, ((action s).1, lines))

  line_of : Line → PinResult Text
  line_of (inl e) = err e
  line_of (inr text) = ok (trim text)

  -- `prompt_line`; at the end of the input the line is empty.
  unfoldable pub prompt_line : Act Text
  unfolding line_of trim
  prompt_line (s, []) = (ok [], (s, []))
  prompt_line (s, next ∷ lines) = (line_of next, (s, lines))

  -- `Err(PinError::TermIoError(..))` unless the test holds.
  abbrev pub unless_refused : Bool → Notice → Act (Unit {0})
  unless_refused true n = pure tt
  unless_refused false n = raise (term_io_error (states n))

  -- `require_interactive`
  abbrev pub require_interactive : Machine → Notice → Act (Unit {0})
  require_interactive machine purpose =
      unless_refused (not machine) (requires_interactive_confirmation purpose)

  -- `prompt_yes_no`
  unfoldable pub prompt_yes_no : Act Bool
  prompt_yes_no = do input ← prompt_line; pure (is_yes input)

  -- `prompt_acknowledgement`
  unfoldable pub prompt_acknowledgement : Text → Act (Unit {0})
  prompt_acknowledgement expected = do
    got ← prompt_line
    unless_refused (list_eq (trim got) expected) cancelled

  module _ (policy : PinPolicy) (caller : Caller) where
    -- `master_key_status`
    unfoldable pub master_key_status : Act MasterKeyStatus
    master_key_status = on_platform (status p policy)

    -- `master_key_init`, the question before.
    proceed : Machine → Act (Unit {0})
    proceed true = pure tt
    proceed false = do agreed ← prompt_yes_no; unless_refused agreed cancelled

    -- `master_key_init`, the repetition of the phrase.
    confirm_phrase : Machine → Text → Act (Unit {0})
    confirm_phrase true phrase = pure tt
    confirm_phrase false phrase = do
      confirm ← prompt_line
      unless_refused (list_eq (trim confirm) (trim phrase)) mk_recovery_confirm_mismatch

    -- `master_key_init`
    unfoldable pub master_key_init : Machine → Act MasterKeyInitResult
    unfolding proceed confirm_phrase
    master_key_init machine = do
      proceed machine
      res ← on_platform (init p policy caller)
      confirm_phrase machine res.recovery_phrase
      pure res

    -- `master_key_import_to_tpm`
    unfoldable pub master_key_import_to_tpm : Machine → Act MasterKeyStatus
    master_key_import_to_tpm machine = do
      require_interactive machine mk_purpose_import
      phrase ← prompt_line
      on_platform (import_to_tpm p policy caller phrase)

    -- `master_key_clear_from_tpm`
    unfoldable pub master_key_clear_from_tpm : Machine → Act (Unit {0})
    unfolding prompt_acknowledgement
    master_key_clear_from_tpm machine = do
      require_interactive machine mk_purpose_tpm_clear
      prompt_acknowledgement (codes "yes")
      on_platform (clear_from_tpm p policy caller)

    -- `master_key_clear_from_disk`
    unfoldable pub master_key_clear_from_disk : Machine → Act (Unit {0})
    unfolding prompt_acknowledgement
    master_key_clear_from_disk machine = do
      require_interactive machine mk_purpose_disk_clear
      prompt_acknowledgement (codes "yes")
      on_platform (clear_from_disk p policy caller)

    -- `master_key_get_user_token`
    abbrev pub master_key_get_user_token : Text → Act Text
    master_key_get_user_token username = on_platform (derive_user_token p policy username)

    -- A command, as a value.
    unfoldable pub command : Machine → MasterKeyCommand → Act Value
    command machine init_key = do res ← master_key_init machine; pure (key_made res)
    command machine show_status = do st ← master_key_status; pure (key_status st)
    command machine import_key = do st ← master_key_import_to_tpm machine; pure (key_status st)
    command machine clear_tpm = master_key_clear_from_tpm machine >> pure nothing
    command machine clear_disk = master_key_clear_from_disk machine >> pure nothing
    command machine (get_user_token username) = do
      t ← master_key_get_user_token username
      pure (token t)

    -- The end of `get-user-token` on a terminal, which prints the token.
    unfoldable pub on_terminal : PinResult Value → Ending
    unfolding handle_result
    on_terminal (ok (token t)) = record { code = 0; stdout = line t }
    on_terminal res = handle_result false res

    -- The end of a command.
    unfoldable pub ending : Machine → MasterKeyCommand → PinResult Value → Ending
    unfolding on_terminal handle_result
    ending false (get_user_token username) res = on_terminal res
    ending machine k res = handle_result machine res

    -- `main`, on a command of the master key, `require_root` first.
    unfoldable pub main : Machine → MasterKeyCommand → Desk → Ending × Desk
    unfolding ending command
    main machine k s =
        if caller.uid == 0
        then (ending machine k (command machine k s).0, (command machine k s).1)
        else (handle_result machine (err permission_denied), s)
