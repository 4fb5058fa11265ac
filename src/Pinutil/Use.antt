-- ===== src/Pinutil/Use.antt =====
-- pinutil/src/main.rs: the commands that use or remove a PIN.
use pinpam.Core.Manager.Users.{verify_pin, delete_pin_with_auth, delete_pin_admin}
use pinpam.Core.PinData.{AttemptInfo, prompt_tuple, locked}
use pinpam.Core.Util.{get_uid_from_username, get_username_from_uid, can_attempt_pin, Caller}
use pinpam.Core.Manager.{PinManager}
use pinpam.Base.{
  ltb, raise, lift, pure, ok_or, if◌then◌else◌, ◌&&◌, not, ◌||◌, Option, ◌==◌, ℕ, Bool, true, false,
  none, some, ok, panic, [], ◌∷◌, ◌>>=◌, ◌>>◌,
}
use pinpam.Base.Text.{Text, trim}
use pinpam.Core.Error.{get_username_for_uid_failed, pin_is_locked, PinResult}
use pinpam.Pinutil.{
  Act, Machine, on_tpm, read_line, prompt_pin, new_manager, get_attempt_info, with_info, checked,
  as_allowed,
}

starts_with_y : Text → Bool
starts_with_y [] = false
starts_with_y (c ∷ s) = c == b'y' || c == b'Y'

-- `input.trim().to_lowercase().starts_with('y')`
unfoldable pub is_yes : Text → Bool
unfolding trim starts_with_y
is_yes input = starts_with_y (trim input)

module _ (m : PinManager) (caller : Caller) where
  -- `test_pin`, where a PIN is set.
  unfoldable pub test_with : Machine → ℕ → AttemptInfo → Act m (Unit {0})
  unfolding locked prompt_tuple
  test_with machine uid info = do
    if locked info then raise pin_is_locked else pure tt
    pin ← prompt_pin m (some (prompt_tuple info)) machine
    result ← on_tpm m (verify_pin m uid pin)
    if machine then checked m result else pure tt

  unfoldable pub test_for : Machine → ℕ → Act m (Unit {0})
  unfolding test_with
  test_for machine uid = do
    new_manager m
    attempt_info ← get_attempt_info m uid
    with_info m (test_with machine uid) attempt_info

  -- `test_pin`
  unfoldable pub test_pin : Text → Machine → Act m (Unit {0})
  unfolding test_for
  test_pin username machine =
      as_allowed m caller (can_attempt_pin caller) username (test_for machine)

  -- `delete_pin`, by root: on a terminal the answer to the question must be yes.
  delete_as_root : Machine → ℕ → Act m (Unit {0})
  delete_as_root true uid = on_tpm m (delete_pin_admin m uid)
  delete_as_root false uid = do
    input ← read_line m
    if is_yes input then on_tpm m (delete_pin_admin m uid) else pure tt

  -- `delete_pin`, by the user: every answer of the manager ends in `Ok(())`.
  unfoldable pub delete_own : Machine → ℕ → AttemptInfo → Act m (Unit {0})
  unfolding prompt_tuple
  delete_own machine uid info = do
    pin ← prompt_pin m (some (prompt_tuple info)) machine
    result ← on_tpm m (delete_pin_with_auth m uid pin)
    pure tt

  unfoldable pub delete_with : Machine → ℕ → AttemptInfo → Act m (Unit {0})
  unfolding locked delete_as_root delete_own
  delete_with machine uid info =
      if not (caller.uid == 0) && locked info
      then raise pin_is_locked
      else if caller.uid == 0
      then delete_as_root machine uid
      else delete_own machine uid info

  unfoldable pub delete_for : Machine → ℕ → Act m (Unit {0})
  unfolding delete_with
  delete_for machine uid = do
    new_manager m
    attempt_info ← get_attempt_info m uid
    with_info m (delete_with machine uid) attempt_info

  -- `delete_pin`. Its own test of the caller is that of `can_manage_pin`, written out.
  unfoldable pub delete_pin : Text → Machine → Act m (Unit {0})
  unfolding delete_for
  delete_pin username machine =
      as_allowed m caller (λ uid. not (not (caller.uid == 0) && not (caller.uid == uid))) username
        (delete_for machine)

  -- What `show_status` prints on a terminal: the subtraction panics where it does not wrap around.
  unfoldable pub printed : Machine → Option AttemptInfo → Act m (Option AttemptInfo)
  printed machine none = pure none
  printed machine (some info) =
      if not machine && ltb info.limit info.used then (λ s. (panic, s)) else pure (some info)

  -- `show_status`
  unfoldable pub show_status : Text → Machine → Act m (Option AttemptInfo)
  unfolding printed
  show_status username machine = do
    uid ← lift (get_uid_from_username caller username)
    new_manager m
    info ← get_attempt_info m uid
    printed machine info

-- `resolve_username`
unfoldable pub resolve_username : Caller → Option Text → PinResult Text
resolve_username caller (some username) = ok username
resolve_username caller none =
    ok_or (get_username_from_uid caller caller.uid) (get_username_for_uid_failed caller.uid)
