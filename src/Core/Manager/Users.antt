-- ===== src/Core/Manager/Users.antt =====
-- pinpam-core/src/pinmanager.rs: the methods that act on a user's PIN.
pub mod Effects
use pinpam.Base.{
  ℕ, Bool, false, Option, none, some, Outcome, pure, raise, catch, on_result, ◌>>=◌, ◌>>◌, ◌==◌,
  list_eq, if◌then◌else◌,
}
use pinpam.Base.Int.{as_u32}
use pinpam.Base.Text
use pinpam.Core.Consts.{pin_version_current}
use pinpam.Core.Error.{
  PinError, TssError, VerificationResult, DeleteResult, from_tss, tpm_error, already_provisioned,
  not_provisioned, unsupported_version, tag_write_failed, tag_write_and_rollback_failed,
}
use pinpam.Core.Pin.{Pin, as_bytes, as_str}
use pinpam.Core.PinData.{PinData}
use pinpam.Core.Util.{normalize_legacy_pin}
use pinpam.Core.Manager.{
  PinManager, Method, clear_sessions, restart_context, nv_index_for_uid, on_missing,
}
use pinpam.Core.Manager.Tags.{read_pin_version_tag, write_pin_version_tag, delete_pin_version_tag}
use pinpam.Core.Manager.Slots.{is_exhausted, read_pin_slot_owner, define_pin_slot, verify_pin_exact}

module _ (m : PinManager) where
  open m use {tpm}

  -- The `match` on the result of the removal in `delete_pin_admin`.
  after_undefine : ℕ → Outcome TssError (Unit {0}) → Method m (Unit {0})
  after_undefine uid =
      on_result pure (on_missing (raise (not_provisioned uid)) (λ e. raise (from_tss e)))

  -- `PinManager::delete_pin_admin`
  unfoldable pub delete_pin_admin : ℕ → Method m (Unit {0})
  unfolding after_undefine
  delete_pin_admin uid = do
    nv_index ← nv_index_for_uid m uid
    catch
        (tpm.execute_with_nullauth_session (Unit {0}) (λ x. do
          nv_index_handle ← tpm.tr_from_tpm_public x nv_index
          tpm.nv_undefine_space x nv_index_handle))
        (λ result. clear_sessions m >> after_undefine uid result)
    catch (delete_pin_version_tag m uid) (on_result pure (λ err. pure tt))

  -- `setup_pin`, where the version tag could not be written.
  roll_back : ℕ → PinError → Method m (Unit {0})
  unfolding delete_pin_admin
  roll_back uid e = do
    restart_context m
    catch (delete_pin_admin uid) (
        on_result (λ _. raise (tpm_error (tag_write_failed e)))
          (λ cleanup_err. raise (tpm_error (tag_write_and_rollback_failed e cleanup_err))))

  -- `setup_pin`, after the check that no slot is there.
  provision : ℕ → ℕ → Pin → Method m (Unit {0})
  unfolding roll_back
  provision uid nv_index pin = do
    define_pin_slot m nv_index (as_bytes pin)
    restart_context m
    catch (write_pin_version_tag m uid pin_version_current) (on_result pure (roll_back uid))

  -- `setup_pin`, the check.
  unless_provisioned : ℕ → Method m (Unit {0}) → Option PinData → Method m (Unit {0})
  unless_provisioned uid next none = next
  unless_provisioned uid next (some slot) = raise (already_provisioned uid)

  -- `PinManager::setup_pin`
  unfoldable pub setup_pin : ℕ → Pin → Method m (Unit {0})
  unfolding unless_provisioned provision
  setup_pin uid pin = do
    nv_index ← nv_index_for_uid m uid
    existing ← read_pin_slot_owner m nv_index
    unless_provisioned uid (provision uid nv_index pin) existing

  -- `PinManager::migrate_legacy_pin_format`
  unfoldable pub migrate_legacy_pin_format : ℕ → Pin → Method m (Unit {0})
  unfolding delete_pin_admin setup_pin
  migrate_legacy_pin_format uid entered_pin =
      if list_eq (normalize_legacy_pin (as_str entered_pin)) (as_str entered_pin)
      then write_pin_version_tag m uid pin_version_current
      else (do
        delete_pin_admin uid
        restart_context m
        setup_pin uid entered_pin
        restart_context m)

  -- `verify_pin`, after the read of a PIN in the old format.
  unfoldable pub after_legacy : ℕ → Pin → VerificationResult → Method m VerificationResult
  unfolding migrate_legacy_pin_format
  after_legacy uid pin (VerificationResult.success slot) = do
    restart_context m
    catch (migrate_legacy_pin_format uid pin) (on_result pure (λ err. pure tt))
    restart_context m
    pure (VerificationResult.success slot)
  after_legacy uid pin result = pure result

  -- `verify_pin`, the `match` on the version tag.
  unfoldable pub verify_version : ℕ → Pin → Option ℕ → Method m VerificationResult
  unfolding after_legacy
  verify_version uid pin (some version) =
      if version == pin_version_current
      then verify_pin_exact m uid (as_bytes pin)
      else raise (tpm_error (unsupported_version version))
  verify_version uid pin none = do
    pin_result ← verify_pin_exact m uid (Text.as_bytes (normalize_legacy_pin (as_str pin)))
    after_legacy uid pin pin_result

  -- `PinManager::verify_pin`
  unfoldable pub verify_pin : ℕ → Pin → Method m VerificationResult
  unfolding verify_version
  verify_pin uid pin = do
    clear_sessions m
    version ← read_pin_version_tag m uid
    verify_version uid pin version

  -- `delete_pin_with_auth`, the `match` on the verification.
  unfoldable pub delete_if_verified : ℕ → VerificationResult → Method m DeleteResult
  unfolding delete_pin_admin
  delete_if_verified uid (VerificationResult.success slot) =
      delete_pin_admin uid >> pure DeleteResult.success
  delete_if_verified uid (VerificationResult.invalid locked) = pure (DeleteResult.invalid locked)
  delete_if_verified uid VerificationResult.locked_out = pure DeleteResult.locked_out

  -- `PinManager::delete_pin_with_auth`
  unfoldable pub delete_pin_with_auth : ℕ → Pin → Method m DeleteResult
  unfolding verify_pin delete_if_verified
  delete_pin_with_auth uid pin = do result ← verify_pin uid pin; delete_if_verified uid result

  -- `PinManager::__test_remove_version_tag`
  unfoldable pub test_remove_version_tag : ℕ → Method m (Unit {0})
  test_remove_version_tag uid = delete_pin_version_tag m uid

  slot_exhausted : Option PinData → Bool
  slot_exhausted none = false
  slot_exhausted (some slot) = is_exhausted slot

  -- `PinManager::is_locked_out`
  unfoldable pub is_locked_out : ℕ → Method m Bool
  unfolding slot_exhausted
  is_locked_out uid = do
    nv_index ← nv_index_for_uid m uid
    slot ← read_pin_slot_owner m nv_index
    pure (slot_exhausted slot)

  count_of : Option PinData → Option ℕ
  count_of none = none
  count_of (some slot) = some (as_u32 slot.pin_count)

  -- `PinManager::get_attempt_count`
  unfoldable pub get_attempt_count : ℕ → Method m (Option ℕ)
  unfolding count_of
  get_attempt_count uid = do
    nv_index ← nv_index_for_uid m uid
    slot ← read_pin_slot_owner m nv_index
    pure (count_of slot)

  -- `PinManager::get_pin_slot`
  unfoldable pub get_pin_slot : ℕ → Method m (Option PinData)
  get_pin_slot uid = do nv_index ← nv_index_for_uid m uid; read_pin_slot_owner m nv_index
