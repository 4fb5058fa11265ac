-- ===== src/Core/Manager/Slots.antt =====
-- pinpam-core/src/pinmanager.rs: the NV index with a user's PIN and its failure counter.
pub mod Reads
pub mod Defines
pub mod Verifies
use pinpam.Base.{
  ℕ, Bool, true, false, Option, none, some, List, ok, panic, St, lift, pure, raise, convert, catch,
  on_result, ok_or, unwrap, ◌>>=◌, ◌>>◌, if◌then◌else◌,
}
use pinpam.Base.Int.{pos, as_c_int, leb_ℤ}
use pinpam.Core.Error.{
  TssError, VerificationResult, from_tss, wrapper_error, tss2_error, wrong_value_from_tpm,
  auth_fail, bad_auth, not_provisioned,
}
use pinpam.Core.PinData.{PinData, pin_data_size, from_bytes, to_bytes, new as new_pin_data}
use pinpam.Core.Tpm.{
  NvAttributes, NvPublic, pin_fail, owner, nv_index as nv_auth, trial, policy, session, Session,
}
use pinpam.Core.Manager.{PinManager, Method, Tss, clear_sessions, nv_index_for_uid, on_missing}

-- The attributes of the PIN slot's index.
abbrev pub slot_attributes : NvAttributes
slot_attributes = record {
  nv_index_type = pin_fail;
  auth_read = true;
  owner_read = true;
  owner_write = false;
  policy_write = true;
  no_da = true;
}

-- `slot.pinCount >= slot.pinLimit`
abbrev pub is_exhausted : PinData → Bool
is_exhausted slot = leb_ℤ slot.pin_limit slot.pin_count

-- `expect` on the session that `start_auth_session` returns.
abbrev pub expect : {S A : Type 0} → Option A → St S TssError A
expect none s = (panic, s)
expect (some a) s = (ok a, s)

module _ (m : PinManager) where
  open m use {tpm}

  -- A slot read as bytes; too short a payload is `WrongValueFromTpm`.
  parse_slot : List ℕ → Tss m PinData
  parse_slot bytes = lift (ok_or (from_bytes bytes) (wrapper_error wrong_value_from_tpm))

  -- `PinManager::read_pin_slot_owner`
  unfoldable pub read_pin_slot_owner : ℕ → Method m (Option PinData)
  unfolding clear_sessions parse_slot
  read_pin_slot_owner nv_index =
      catch
        (tpm.execute_with_nullauth_session PinData
          (λ x. do bytes ← tpm.read_full x owner nv_index; parse_slot bytes))
        (λ result.
          clear_sessions m
          >> on_result (λ slot. pure (some slot)) (on_missing (pure none) (λ e. raise (from_tss e)))
              result)

  -- The policy of the slot, asserted in a trial or a policy session.
  apply_policy : tpm.SessionId → Tss m (Unit {0})
  apply_policy sess = do tpm.policy_command_code_nv_write sess; tpm.policy_nv_written sess false

  -- `define_pin_slot`, the first closure: the public area, with the digest of the policy.
  slot_public : ℕ → Session tpm.SessionId → Tss m (NvPublic tpm.Digest)
  unfolding apply_policy
  slot_public nv_index x = do
    started ← tpm.start_auth_session trial
    trial_session ← expect started
    tpm.tr_sess_set_attributes trial_session
    policy_session ← lift (tpm.policy_session trial_session)
    tpm.tr_sess_set_attributes policy_session
    apply_policy policy_session
    digest ← tpm.policy_get_digest policy_session
    attributes ← lift (tpm.build_attributes slot_attributes)
    lift (tpm.validate_attributes attributes)
    nv_public ← lift (
        tpm.build_public (record {
          nv_index = nv_index;
          attributes = attributes;
          data_area_size = pin_data_size;
          auth_policy = some digest;
        }))
    (λ s. (ok tt, tpm.clear_sessions s))
    tpm.flush_context trial_session
    pure nv_public

  -- `define_pin_slot`, the last closure: the first and only write of the counters.
  write_counters : ℕ → List ℕ → Session tpm.SessionId → Tss m (Unit {0})
  unfolding apply_policy new_pin_data
  write_counters nv_index auth_value x = do
    started ← tpm.start_auth_session policy
    auth_session ← expect started
    tpm.tr_sess_set_attributes auth_session
    policy_session ← lift (tpm.policy_session auth_session)
    tpm.tr_sess_set_attributes policy_session
    apply_policy policy_session
    nv_index_handle ← tpm.tr_from_tpm_public x nv_index
    tpm.execute_with_session (Unit {0}) (session auth_session) (λ y. do
      tpm.tr_set_session_auth auth_session auth_value
      initial ← lift (
          unwrap
            (tpm.max_nv_buffer (to_bytes (new_pin_data (pos 0) (as_c_int m.policy.max_attempts)))))
      tpm.nv_write y (nv_auth nv_index_handle) nv_index_handle initial 0)

  -- `PinManager::define_pin_slot`
  unfoldable pub define_pin_slot : ℕ → List ℕ → Method m (Unit {0})
  unfolding slot_public write_counters
  define_pin_slot nv_index pin_bytes = do
    auth_value ← convert from_tss (lift (tpm.auth_try_from pin_bytes))
    nv_public ←
        convert from_tss (tpm.execute_without_session (NvPublic tpm.Digest) (slot_public nv_index))
    convert from_tss (
        tpm.execute_with_nullauth_session (Unit {0})
          (λ x. tpm.nv_define_space x (some auth_value) nv_public))
    convert from_tss (tpm.execute_without_session (Unit {0}) (write_counters nv_index auth_value))

  -- `verify_pin_exact`, up to `and_then`: the read that the TPM checks the PIN for.
  read_as_user : tpm.Handle → List ℕ → Tss m VerificationResult
  unfolding parse_slot
  read_as_user nv_index_handle pin_bytes = do
    bytes ← tpm.execute_with_nullauth_session (List ℕ) (λ x. do
      auth ← lift (tpm.auth_try_from pin_bytes)
      tpm.tr_set_auth nv_index_handle auth
      tpm.nv_read x (nv_auth nv_index_handle) nv_index_handle pin_data_size 0)
    slot ← parse_slot bytes
    pure (
        if is_exhausted slot
        then VerificationResult.locked_out
        else VerificationResult.success slot)

  -- `is_ok_and(|slot| slot.is_some_and(..))`, on a read that has not failed.
  locked_now : Option PinData → Method m VerificationResult
  locked_now none = pure (VerificationResult.invalid false)
  locked_now (some slot) = pure (VerificationResult.invalid (is_exhausted slot))

  -- The answer to a PIN that the TPM refused: a second read tells whether the slot is now locked.
  refused : ℕ → Method m VerificationResult
  unfolding locked_now read_pin_slot_owner
  refused nv_index =
      catch (read_pin_slot_owner nv_index)
        (on_result locked_now (λ e. pure (VerificationResult.invalid false)))

  -- `verify_pin_exact`, the `match` of `or_else`.
  on_read_error : ℕ → ℕ → TssError → Method m VerificationResult
  unfolding refused
  on_read_error uid nv_index (tss2_error (some auth_fail)) = refused nv_index
  on_read_error uid nv_index (tss2_error (some bad_auth)) = refused nv_index
  on_read_error uid nv_index e =
      on_missing (raise (not_provisioned uid)) (λ e. raise (from_tss e)) e

  -- `PinManager::verify_pin_exact`
  unfoldable pub verify_pin_exact : ℕ → List ℕ → Method m VerificationResult
  unfolding read_as_user on_read_error
  verify_pin_exact uid pin_bytes = do
    nv_index ← nv_index_for_uid m uid
    nv_index_handle ← convert from_tss (tpm.tr_from_tpm_public Session.no_session nv_index)
    catch (read_as_user nv_index_handle pin_bytes) (on_result pure (on_read_error uid nv_index))
