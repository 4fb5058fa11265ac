-- ===== src/Core/MasterKey/Objects.antt =====
-- pinpam-core/src/master_key.rs: the two persistent objects, the RSA parent and the HMAC key.
pub mod Effects
pub mod Provisioned
use pinpam.Base.{
  if◌then◌else◌, on_result, catch, ◌>>=◌, ◌>>◌, repeat, none, lift, some, raise, convert, pure,
  false, Bool, ℕ, List, true,
}
use pinpam.Core.Consts.{master_key_rsa_parent_handle, master_key_hmac_handle}
use pinpam.Core.Error.{
  handle, tss2_error, tss2_error, PinError, TssError, from_tss, tpm_error, notice,
  mk_hmac_handle_already_exists,
}
use pinpam.Core.Policy.{PinPolicy, tcti_spec}
use pinpam.Core.MasterKey.{
  password, Platform, Action, ignore, ObjectAttributes, KeyedHashTemplate, Authorisation,
}

-- The attributes of an HMAC key that is given its bytes.
abbrev pub hmac_attributes : ObjectAttributes
hmac_attributes = record {
  fixed_tpm = true;
  fixed_parent = true;
  sign_encrypt = true;
  user_with_auth = true;
  sensitive_data_origin = false;
  restricted = false;
  decrypt = false;
}

-- 32 zero bytes
abbrev pub zeros : List ℕ
zeros = repeat 32 0

module _ (p : Platform) where
  -- `PersistentTpmHandle::new(..)?`
  abbrev pub handle_for : ℕ → Action p ℕ
  handle_for number = convert from_tss (lift (p.persistent_tpm_handle number))

  abbrev pub find : ℕ → Action p p.Object
  find n = convert from_tss (p.execute_without_session p.Object (λ x. p.tr_from_tpm_public x n))

  -- The errors of the lookup in `persistent_present`.
  unfoldable pub on_missing_object : TssError → Action p Bool
  on_missing_object (tss2_error (some handle)) = pure false
  on_missing_object e = raise (from_tss e)

  -- `persistent_present`
  unfoldable pub persistent_present : ℕ → Action p Bool
  unfolding on_missing_object
  persistent_present number = do
    n ← handle_for number
    catch (p.execute_without_session p.Object (λ x. p.tr_from_tpm_public x n))
        (on_result (λ object. pure true) on_missing_object)

  -- `create_and_persist_rsa_parent`
  unfoldable pub create_and_persist_rsa_parent : Action p (Unit {0})
  create_and_persist_rsa_parent = do
    public ← convert from_tss (lift p.restricted_decryption_rsa_public)
    primary ←
        convert from_tss (p.execute_with_session p.Object password (λ x. p.create_primary x public))
    persistent ← handle_for master_key_rsa_parent_handle
    object ←
        convert from_tss
          (p.execute_with_session p.Object password (λ x. p.evict_control x primary persistent))
    ignore (p.flush_context primary)
    ignore (p.tr_close object)

  -- `create_and_persist_hmac_key`
  unfoldable pub create_and_persist_hmac_key : List ℕ → Action p (Unit {0})
  create_and_persist_hmac_key hmac_key = do
    parent_handle ← handle_for master_key_rsa_parent_handle
    parent_key ← find parent_handle
    attributes ← convert from_tss (lift (p.build_attributes hmac_attributes))
    unique ← convert from_tss (lift (p.digest_try_from zeros))
    public ←
        convert from_tss
          (lift (p.build_public (record { attributes = attributes; unique = unique })))
    sensitive ← convert from_tss (lift (p.sensitive_data hmac_key))
    created ← convert from_tss (
        p.execute_with_session (p.Private × p.Public) password
          (λ x. p.create x parent_key public sensitive))
    transient ←
        convert from_tss
          (p.execute_with_session p.Object password (λ x. p.load x parent_key created.0 created.1))
    persistent ← handle_for master_key_hmac_handle
    object ←
        convert from_tss
          (p.execute_with_session p.Object password (λ x. p.evict_control x transient persistent))
    ignore (p.flush_context transient)
    ignore (p.tr_close object)

  unless_present : Bool → Action p (Unit {0}) → Action p (Unit {0})
  unless_present true next = pure tt
  unless_present false next = next

  refuse_present : Bool → Action p (Unit {0})
  refuse_present true = raise (tpm_error (notice mk_hmac_handle_already_exists))
  refuse_present false = pure tt

  -- `evict_persistent_if_present`, where the object is there.
  evict : ℕ → Action p (Unit {0})
  evict number = do
    persistent ← handle_for number
    object ← find persistent
    out ←
        convert from_tss
          (p.execute_with_session p.Object password (λ x. p.evict_control x object persistent))
    if p.is_none out then pure tt else ignore (p.tr_close out)

  evict_if : ℕ → Bool → Action p (Unit {0})
  unfolding evict
  evict_if number true = evict number
  evict_if number false = pure tt

  -- `evict_persistent_if_present`
  unfoldable pub evict_persistent_if_present : ℕ → Action p (Unit {0})
  unfolding evict_if
  evict_persistent_if_present number = do
    present ← persistent_present number
    evict_if number present

  module _ (policy : PinPolicy) where
    -- `new_context`
    unfoldable pub new_context : Action p (Unit {0})
    new_context = do
      tcti ← convert from_tss (lift (p.tcti_from_str (tcti_spec policy)))
      convert from_tss (p.new_context tcti)

    -- `tpm_status`
    unfoldable pub tpm_status : Action p (Bool × Bool)
    unfolding new_context persistent_present
    tpm_status = do
      new_context
      rsa ← persistent_present master_key_rsa_parent_handle
      hmac ← persistent_present master_key_hmac_handle
      pure (rsa, hmac)

    -- `provision_tpm_objects`
    unfoldable pub provision_tpm_objects : List ℕ → Action p (Unit {0})
    unfolding unless_present refuse_present
    provision_tpm_objects hmac_key = do
      new_context
      rsa ← persistent_present master_key_rsa_parent_handle
      unless_present rsa create_and_persist_rsa_parent
      hmac ← persistent_present master_key_hmac_handle
      refuse_present hmac
      create_and_persist_hmac_key hmac_key
