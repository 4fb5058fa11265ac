-- ===== src/Core/Manager.antt =====
-- pinpam-core/src/pinmanager.rs: what the methods of `PinManager` are made of. The context is the
-- state that a method passes on; the other fields of `PinManager` do not change.
pub mod Connected
pub mod Commands
pub mod Tags
pub mod Slots
pub mod Users
pub mod Accounts
pub mod History
use pinpam.Base.{
  ℕ, Bool, Option, none, some, Outcome, ok, err, panic, St, lift, pure, raise, convert, ◌>>=◌,
}
use pinpam.Base.Text.{Text}
use pinpam.Core.Error.{
  PinError, TssError, tss2_error, wrapper_error, handle, nv_uninitialized, from_tss,
}
use pinpam.Core.Index
use pinpam.Core.Policy.{PinPolicy, tcti_spec as policy_tcti_spec}
use pinpam.Core.Tpm.{Tpm}

pub record PinManager : Type 1 where
  pub tpm : Tpm
  pub policy : PinPolicy
  pub tcti_spec : Text

-- A method of the manager, and a computation of tss-esapi.
abbrev pub Method : PinManager → Type 0 → Type 0
Method m A = St m.tpm.State PinError A

abbrev pub Tss : PinManager → Type 0 → Type 0
Tss m A = St m.tpm.State TssError A

-- `PinManager::with_tcti`, as the connection that it opens
unfoldable pub with_tcti : (m : PinManager) → Method m (Unit {0})
with_tcti m = do
  tcti ← convert from_tss (lift (m.tpm.tcti_from_str m.tcti_spec))
  convert from_tss (m.tpm.new_context tcti)

-- `PinManager::new`
unfoldable pub new : Tpm → PinPolicy → PinManager
new tpm policy = record { tpm = tpm; policy = policy; tcti_spec = policy_tcti_spec policy }

module _ (m : PinManager) where
  open m use {tpm}

  -- `PinManager::clear_sessions`
  unfoldable pub clear_sessions : Method m (Unit {0})
  clear_sessions s = (ok tt, tpm.clear_sessions s)

  -- `PinManager::restart_context`
  unfoldable pub restart_context : Method m (Unit {0})
  restart_context = do
    tcti ← convert from_tss (lift (tpm.tcti_from_str m.tcti_spec))
    convert from_tss (tpm.new_context tcti)

  abbrev pub nv_index_for_uid : ℕ → Method m ℕ
  nv_index_for_uid uid = lift (Index.nv_index_for_uid tpm.nv_index_tpm_handle uid)

  abbrev pub version_nv_index_for_uid : ℕ → Method m ℕ
  version_nv_index_for_uid uid = lift (Index.version_nv_index_for_uid tpm.nv_index_tpm_handle uid)

-- `Some(Tss2ResponseCodeKind::Handle) | Some(Tss2ResponseCodeKind::NvUninitialized)`: the index does
-- not exist, or nothing was written to it.
abbrev pub on_missing {ℓ} : {A : Type ℓ} → A → (TssError → A) → TssError → A
on_missing a f (tss2_error (some handle)) = a
on_missing a f (tss2_error (some nv_uninitialized)) = a
on_missing a f (tss2_error k) = f (tss2_error k)
on_missing a f (wrapper_error k) = f (wrapper_error k)
