-- ===== src/Core/Error.antt =====
-- pinpam-core/src/pinerror.rs. The text of an error is kept as what it is made of.
pub mod Display
use pinpam.Base.{ℕ, Bool, Option, Outcome}
use pinpam.Base.Text.{Text}
use pinpam.Core.PinData.{PinData}

-- `Tss2ResponseCodeKind`, of tss-esapi: the kinds that the code tells apart, and the others.
pub data ResponseKind : Type 0 where
  handle nv_uninitialized auth_fail bad_auth : ResponseKind
  other_kind : ℕ → ResponseKind

-- `WrapperErrorKind`, of tss-esapi.
pub data WrapperErrorKind : Type 0 where
  invalid_param params_missing wrong_value_from_tpm : WrapperErrorKind
  other_wrapper : ℕ → WrapperErrorKind

-- `tss_esapi::Error`. A response code stands for its `kind()`.
pub data TssError : Type 0 where
  wrapper_error : WrapperErrorKind → TssError
  tss2_error : Option ResponseKind → TssError

pub data DeleteResult : Type 0 where
  success : DeleteResult
  invalid : Bool → DeleteResult
  locked_out : DeleteResult

pub data VerificationResult : Type 0 where
  success : PinData → VerificationResult
  invalid : Bool → VerificationResult
  locked_out : VerificationResult

-- The texts of the program itself, by their keys.
pub data Notice : Type 0 where
  mk_sealed_file_already_exists mk_sealed_file_not_present mk_invalid_sealed_file_path : Notice
  mk_rsa_parent_already_present_refuse_import : Notice
  mk_hmac_handle_already_present_refuse_import mk_hmac_handle_already_exists : Notice
  mk_sealed_data_unexpected_length mk_unsupported_sealed_file_version : Notice
  mk_invalid_nonce_length : Notice
  cancelled mk_recovery_confirm_mismatch : Notice
  mk_purpose_import mk_purpose_tpm_clear mk_purpose_disk_clear : Notice
  requires_interactive_confirmation : Notice → Notice

-- What the text of an `IoError` or a `TermIoError` was made of: an error of the system, a text of
-- the program, or an error of another library.
pub data Cause : Type 0 where
  errno : ℕ → Cause
  states : Notice → Cause
  foreign : Text → Cause

mutual
  pub data PinError : Type 0 where
    user_not_found permission_denied pin_already_set no_pin_set pins_dont_match : PinError
    pin_is_locked : PinError
    incorrect_pin : Bool → PinError
    pin_is_empty pin_contains_non_digits : PinError
    get_username_for_uid_failed : ℕ → PinError
    cannot_delete_pin : DeleteResult → PinError
    pin_too_short pin_too_long : ℕ → ℕ → PinError
    already_provisioned uid_overflow not_provisioned : ℕ → PinError
    tpm_error : Message → PinError
    io_error term_io_error : Cause → PinError
    pinutil_output_decode_error : ℕ → PinError

  -- What the text of a `TpmError` says.
  pub data Message : Type 0 where
    of_tss : TssError → Message
    notice : Notice → Message
    unsupported_version invalid_tag_size : ℕ → Message
    tag_write_failed : PinError → Message
    tag_write_and_rollback_failed : PinError → PinError → Message

-- `PinError::from` on a `TssError`.
abbrev pub from_tss : TssError → PinError
from_tss e = tpm_error (of_tss e)

abbrev pub PinResult : Type 0 → Type 0
PinResult A = Outcome PinError A
