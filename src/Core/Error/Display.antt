-- ===== src/Core/Error/Display.antt =====
-- `Display` of the errors of pinpam-core/src/pinerror.rs. `t!` of rust-i18n is a parameter: the text
-- of the current locale for a key, with the values that it names. A value is kept as what its own
-- text is made of.
use pinpam.Base.{ℕ, List, [], ◌∷◌, true, false}
use pinpam.Base.Text.{Text, codes}
use pinpam.Core.Error.{
  Cause, DeleteResult, Message, PinError, already_provisioned, cannot_delete_pin,
  get_username_for_uid_failed, incorrect_pin, io_error, no_pin_set, not_provisioned,
  permission_denied, pin_already_set, pin_contains_non_digits, pin_is_empty, pin_is_locked,
  pin_too_long, pin_too_short, pins_dont_match, pinutil_output_decode_error, term_io_error,
  tpm_error, uid_overflow, user_not_found,
}

-- What `t!` is given for a name.
pub data Value : Type 0 where
  number : ℕ → Value
  text : Text → Value
  message : Message → Value
  cause : Cause → Value
  decoding : ℕ → Value

pub record Named : Type 0 where
  pub name : Text
  pub value : Value

abbrev under : Text → Value → List Named
under name value = record { name = name; value = value } ∷ []

module _ (t : Text → List Named → Text) where
  -- `Display` for `DeleteResult`
  unfoldable pub fmt_delete_result : DeleteResult → Text
  fmt_delete_result DeleteResult.success = t (codes "pin_del_success") []
  fmt_delete_result (DeleteResult.invalid false) = t (codes "pin_del_invalid") []
  fmt_delete_result (DeleteResult.invalid true) = t (codes "pin_del_invalid_locked") []
  fmt_delete_result DeleteResult.locked_out = t (codes "pin_del_locked_out") []

  -- `Display` for `PinError`
  unfoldable pub fmt : PinError → Text
  unfolding fmt_delete_result
  fmt user_not_found = t (codes "user_not_found") []
  fmt permission_denied = t (codes "permission_denied") []
  fmt pin_already_set = t (codes "pin_already_set") []
  fmt no_pin_set = t (codes "no_pin_set") []
  fmt pins_dont_match = t (codes "pins_dont_match") []
  fmt pin_is_locked = t (codes "pin_is_locked") []
  fmt (incorrect_pin false) = t (codes "incorrect_pin") []
  fmt (incorrect_pin true) = t (codes "incorrect_pin_locked") []
  fmt pin_is_empty = t (codes "pin_is_empty") []
  fmt pin_contains_non_digits = t (codes "pin_contains_non_digits") []
  fmt (get_username_for_uid_failed uid) =
      t (codes "get_username_failed") (under (codes "uid") (number uid))
  fmt (cannot_delete_pin e) =
      t (codes "cannot_delete_pin") (under (codes "error") (text (fmt_delete_result e)))
  fmt (pin_too_short length limit) =
      t (codes "pin_too_short") (under (codes "limit") (number limit))
  fmt (pin_too_long length limit) = t (codes "pin_too_long") (under (codes "limit") (number limit))
  fmt (already_provisioned uid) = t (codes "already_provisioned") (under (codes "uid") (number uid))
  fmt (uid_overflow uid) = t (codes "uid_overflow") (under (codes "uid") (number uid))
  fmt (not_provisioned uid) = t (codes "not_provisioned") (under (codes "uid") (number uid))
  fmt (tpm_error m) = t (codes "tpm_error") (under (codes "error") (message m))
  fmt (io_error c) = t (codes "io_error") (under (codes "error") (cause c))
  fmt (term_io_error c) = t (codes "term_io_error") (under (codes "error") (cause c))
  fmt (pinutil_output_decode_error n) =
      t (codes "pinutil_decode_error") (under (codes "error") (decoding n))
