-- ===== src/Core/MasterKey/Lifecycle.antt =====
-- pinpam-core/src/master_key.rs: the functions that the commands call.
pub mod Refusals
pub mod Effects
pub mod Recovery
pub mod Roundtrip
pub mod Rollback
use pinpam.Base.{
  List, length, not, lift, ◌>>=◌, ◌>>◌, on_result, pure, ok, raise, catch, if◌then◌else◌, ◌==◌,
  convert, ℕ, Bool, ◌>>◌, true,
}
use pinpam.Base.Text.{Text, as_bytes}
use pinpam.Core.Consts.{
  master_key_rsa_parent_handle, master_key_hmac_handle, master_key_sealed_file,
}
use pinpam.Core.Error.{
  PinError, errno, states, foreign, notice, io_error, tpm_error, permission_denied, from_tss,
  mk_sealed_file_already_exists, mk_sealed_file_not_present,
  mk_rsa_parent_already_present_refuse_import, mk_hmac_handle_already_present_refuse_import,
  mk_sealed_data_unexpected_length,
}
use pinpam.Core.Policy.{PinPolicy}
use pinpam.Core.Util.{Caller}
use pinpam.Core.MasterKey.{Platform, Action, ignore}
use pinpam.Core.MasterKey.Objects.{
  new_context, tpm_status, provision_tpm_objects, evict_persistent_if_present, handle_for, find,
}
use pinpam.Core.MasterKey.Sealing.{
  ensure, random, seal_key_bytes_to_path, unseal_key_bytes_from_path, ensure_dir_for_path,
  hmac_key_len,
}

-- `MasterKeyStatus`, less the constants in it.
pub record MasterKeyStatus : Type 0 where
  pub sealed_file_present : Bool
  pub rsa_parent_present : Bool
  pub hmac_key_present : Bool

-- `MasterKeyInitResult`
pub record MasterKeyInitResult : Type 0 where
  pub recovery_phrase : Text
  pub status : MasterKeyStatus

module _ (p : Platform) (policy : PinPolicy) where
  abbrev pub sealed_file_exists : Action p Bool
  sealed_file_exists s = (ok (p.exists master_key_sealed_file s), s)

  -- `status`
  unfoldable pub status : Action p MasterKeyStatus
  status = do
    sealed_file_present ← sealed_file_exists
    present ← tpm_status p policy
    pure (record {
      sealed_file_present = sealed_file_present;
      rsa_parent_present = present.0;
      hmac_key_present = present.1;
    })

  -- `derive_user_token`
  unfoldable pub derive_user_token : Text → Action p Text
  derive_user_token username = do
    new_context p policy
    n ← handle_for p master_key_hmac_handle
    object ← find p n
    buffer ← convert from_tss (lift (p.max_buffer (as_bytes username)))
    digest ←
        convert from_tss (p.execute_with_nullauth_session (List ℕ) (λ x. p.hmac x object buffer))
    pure (p.encode_hex digest)

  -- `generate_recovery_phrase`
  abbrev pub generate_recovery_phrase : Action p Text
  generate_recovery_phrase = convert (λ e. io_error (foreign e)) p.generate_mnemonic

  module _ (caller : Caller) where
    -- `ensure_root_real_uid`
    abbrev pub ensure_root_real_uid : Action p (Unit {0})
    ensure_root_real_uid = ensure p (caller.uid == 0) permission_denied

    -- `clear_from_tpm`
    unfoldable pub clear_from_tpm : Action p (Unit {0})
    clear_from_tpm = do
      ensure_root_real_uid
      new_context p policy
      ignore (evict_persistent_if_present p master_key_hmac_handle)
      ignore (evict_persistent_if_present p master_key_rsa_parent_handle)

    -- The errors of the removal in `clear_from_disk`.
    unfoldable pub on_remove_error : ℕ → Action p (Unit {0})
    on_remove_error e = if p.is_not_found e then pure tt else raise (io_error (errno e))

    -- `clear_from_disk`
    unfoldable pub clear_from_disk : Action p (Unit {0})
    unfolding on_remove_error
    clear_from_disk = do
      ensure_root_real_uid
      catch (p.remove_file master_key_sealed_file) (on_result pure on_remove_error)

    -- `init`, where the sealing failed.
    unfoldable pub undo : PinError → Action p (Unit {0})
    unfolding clear_from_tpm
    undo e = ignore clear_from_tpm >> raise e

    -- `init`
    unfoldable pub init : Action p MasterKeyInitResult
    unfolding undo status
    init = do
      ensure_root_real_uid
      present ← sealed_file_exists
      ensure p (not present) (io_error (states mk_sealed_file_already_exists))
      hmac_key ← random p hmac_key_len
      recovery_phrase ← generate_recovery_phrase
      provision_tpm_objects p policy hmac_key
      ignore (ensure_dir_for_path p master_key_sealed_file true)
      catch (seal_key_bytes_to_path p hmac_key recovery_phrase master_key_sealed_file)
          (on_result pure undo)
      final ← status
      pure (record { recovery_phrase = recovery_phrase; status = final })

    -- `import_to_tpm`
    unfoldable pub import_to_tpm : Text → Action p MasterKeyStatus
    unfolding status
    import_to_tpm recovery_phrase = do
      ensure_root_real_uid
      current ← status
      ensure p (not current.rsa_parent_present)
          (tpm_error (notice mk_rsa_parent_already_present_refuse_import))
      ensure p (not current.hmac_key_present)
          (tpm_error (notice mk_hmac_handle_already_present_refuse_import))
      ensure p current.sealed_file_present (io_error (states mk_sealed_file_not_present))
      key_bytes ← unseal_key_bytes_from_path p recovery_phrase master_key_sealed_file
      ensure p (length key_bytes == hmac_key_len)
          (io_error (states mk_sealed_data_unexpected_length))
      provision_tpm_objects p policy key_bytes
      status
