-- ===== src/Pinutil.antt =====
-- pinutil/src/main.rs: the commands on PINs. The state is the TPM's with the lines that stand in for
-- the standard input; what is printed is left out.
pub mod Use
pub mod Rights
pub mod Verification
pub mod Deletion
pub mod Reset
pub mod Enrolment
pub mod Renewal
pub mod MasterKeys
pub mod Main
use pinpam.Core.Manager.Users.{
  delete_pin_with_auth, verify_pin, setup_pin, get_attempt_count, get_pin_slot, delete_pin_admin,
}
use pinpam.Core.PinData.{from_pin_data, prompt_tuple, locked, AttemptInfo}
use pinpam.Core.Util.{get_uid_from_username, can_manage_pin, Caller}
use mathlib.Core.Option
use pinpam.Base.{
  ◌==◌, ◌&&◌, list_eq, not, ltb, lift, if◌then◌else◌, raise, catch, Option, List, Outcome, pure, St,
  ◌⊎◌, ℕ, Bool, true, false, none, some, inl, inr, ok, err, panic, [], ◌∷◌, ◌>>=◌, ◌>>◌,
}
use pinpam.Base.Text.{Text, codes, trim}
use pinpam.Core.Error.{
  pins_dont_match, cannot_delete_pin, pin_is_locked, incorrect_pin, no_pin_set, pin_already_set,
  PinError, VerificationResult, DeleteResult, permission_denied,
}
use pinpam.Core.Manager.{restart_context, clear_sessions, with_tcti, PinManager, Method}
use pinpam.Core.Pin.{Pin, as_str}
use pinpam.Core.Pin

-- A line that was read, or the error of the read.
abbrev pub Line : Type 0
Line = PinError ⊎ Text

-- `true` where the command runs with `-m`.
abbrev pub Machine : Type 0
Machine = Bool

module _ (m : PinManager) where
  open m use {tpm}

  abbrev pub Desk : Type 0
  Desk = tpm.State × List Line

  abbrev pub Act : Type 0 → Type 0
  Act A = St Desk PinError A

  -- A method of the manager.
  unfoldable pub on_tpm : {A : Type 0} → Method m A → Act A
  on_tpm method (s, lines) = ((method s).0, ((method s).1, lines))

  line_of : Line → Outcome PinError Text
  line_of (inl e) = err e
  line_of (inr text) = ok text

  -- `read_line`; at the end of the input the line is empty.
  unfoldable pub read_line : Act Text
  unfolding line_of
  read_line (s, []) = (ok [], (s, []))
  read_line (s, line ∷ lines) = (line_of line, (s, lines))

  -- `limit - used` in the text of a prompt, which panics where it does not wrap around.
  is_wrapped : Option (ℕ × ℕ) → Bool
  is_wrapped none = false
  is_wrapped (some (used, limit)) = ltb limit used

  -- `prompt_pin`
  unfoldable pub prompt_pin : Option (ℕ × ℕ) → Machine → Act Pin
  unfolding is_wrapped
  prompt_pin attempts machine =
      if not machine && is_wrapped attempts
      then (λ s. (panic, s))
      else (do input ← read_line; lift (Pin.new input m.policy))

  -- `new_manager`
  unfoldable pub new_manager : Act (Unit {0})
  new_manager = on_tpm (with_tcti m)

  -- `get_attempt_info`
  unfoldable pub get_attempt_info : ℕ → Act (Option AttemptInfo)
  get_attempt_info uid = do slot ← on_tpm (get_pin_slot m uid); pure (Option.map from_pin_data slot)

  -- The confirmation of a new PIN, on a terminal.
  confirm : Machine → Pin → Act (Unit {0})
  confirm true pin = pure tt
  confirm false pin = do
    again ← prompt_pin none false
    if list_eq (as_str pin) (as_str again) then pure tt else raise pins_dont_match

  -- A new PIN, confirmed.
  pub new_pin : Machine → Act Pin
  unfolding confirm
  new_pin machine = do pin ← prompt_pin none machine; confirm machine pin; pure pin

  unfoldable pub with_info : {A : Type 0} → (AttemptInfo → Act A) → Option AttemptInfo → Act A
  with_info f none = raise no_pin_set
  with_info f (some info) = f info

  -- The answer to a verification.
  unfoldable pub checked : VerificationResult → Act (Unit {0})
  checked (VerificationResult.success slot) = pure tt
  checked (VerificationResult.invalid locked) = raise (incorrect_pin locked)
  checked VerificationResult.locked_out = raise pin_is_locked

  module _ (caller : Caller) where
    -- `get_uid_from_username`, and the check of the caller's rights.
    unfoldable pub as_allowed : {A : Type 0} → (ℕ → Bool) → Text → (ℕ → Act A) → Act A
    as_allowed may username next = do
      uid ← lift (get_uid_from_username caller username)
      if may uid then next uid else raise permission_denied

    -- `setup_pin`, the `match` on the attempt count.
    unless_set : Outcome PinError (Option ℕ) → Act (Unit {0})
    unless_set (ok none) = pure tt
    unless_set (ok (some count)) = raise pin_already_set
    unless_set (err (PinError.not_provisioned uid)) = pure tt
    unless_set (err e) = raise e
    unless_set panic = λ s. (panic, s)

    unfoldable pub set_up : Machine → ℕ → Act (Unit {0})
    unfolding unless_set new_pin
    set_up machine uid = do
      new_manager
      catch (on_tpm (get_attempt_count m uid)) unless_set
      pin ← new_pin machine
      on_tpm (setup_pin m uid pin)

    -- `setup_pin`
    unfoldable pub run_setup : Text → Machine → Act (Unit {0})
    unfolding as_allowed set_up
    run_setup username machine = as_allowed (can_manage_pin caller) username (set_up machine)

    -- `change_pin`, from the answer of the removal.
    after_delete : ℕ → Pin → DeleteResult → Act (Unit {0})
    after_delete uid pin DeleteResult.success = do
      on_tpm (clear_sessions m)
      on_tpm (setup_pin m uid pin)
    after_delete uid pin result = raise (cannot_delete_pin result)

    change_own : Machine → ℕ → AttemptInfo → Act (Unit {0})
    unfolding checked new_pin after_delete
    change_own machine uid info = do
      if locked info then raise pin_is_locked else pure tt
      current ← prompt_pin (some (prompt_tuple info)) machine
      result ← on_tpm (verify_pin m uid current)
      checked result
      on_tpm (restart_context m)
      pin ← new_pin machine
      deleted ← on_tpm (delete_pin_with_auth m uid current)
      after_delete uid pin deleted

    change_as_root : Machine → ℕ → Act (Unit {0})
    unfolding new_pin
    change_as_root machine uid = do
      pin ← new_pin machine
      on_tpm (delete_pin_admin m uid)
      on_tpm (clear_sessions m)
      on_tpm (setup_pin m uid pin)

    change : Machine → ℕ → AttemptInfo → Act (Unit {0})
    unfolding change_own change_as_root
    change machine uid info = do
      on_tpm (restart_context m)
      on_tpm (clear_sessions m)
      if not (caller.uid == 0) then change_own machine uid info else change_as_root machine uid

    unfoldable pub change_for : Machine → ℕ → Act (Unit {0})
    unfolding with_info change
    change_for machine uid = do
      new_manager
      attempt_info ← get_attempt_info uid
      with_info (change machine uid) attempt_info

    -- `change_pin`
    unfoldable pub change_pin : Text → Machine → Act (Unit {0})
    unfolding as_allowed change_for
    change_pin username machine = as_allowed (can_manage_pin caller) username (change_for machine)
