-- ===== src/Core/Policy.antt =====
-- pinpam-core/src/pinpolicy.rs: the policy and its check of a PIN.
pub mod Parse
pub mod Secure
use pinpam.Base.{ℕ, Option, none, some, ok, err, is_empty, ltb, if◌then◌else◌}
use pinpam.Base.Text.{Text, len}
use pinpam.Core.Consts.{default_pinutil_path, default_tcti_spec}
use pinpam.Core.Error.{PinResult, pin_is_empty, pin_too_short, pin_too_long}

pub record PinPolicy : Type 0 where
  pub min_length : ℕ
  pub max_length : Option ℕ
  pub max_attempts : ℕ
  pub pinutil_path : Text
  pub tcti : Option Text

-- `PinPolicy::default`
abbrev pub default : PinPolicy
default = record {
  min_length = 4;
  max_length = some 8;
  max_attempts = 3;
  pinutil_path = default_pinutil_path;
  tcti = none;
}

-- `PinPolicy::new`
unfoldable pub new : ℕ → Option ℕ → ℕ → Text → PinPolicy
new min_length max_length max_attempts pinutil_path = record {
  min_length = min_length;
  max_length = max_length;
  max_attempts = max_attempts;
  pinutil_path = pinutil_path;
  tcti = none;
}

-- `PinPolicy::tcti_spec`
unfoldable pub tcti_spec : PinPolicy → Text
tcti_spec p = elim p.tcti [ none ↦ default_tcti_spec | some spec ↦ spec ]

-- The test of the maximum at the end of `validate`.
unfoldable pub check_max : Option ℕ → ℕ → PinResult (Unit {0})
check_max none length = ok tt
check_max (some max_len) length =
    if ltb max_len length then err (pin_too_long length max_len) else ok tt

-- `PinPolicy::validate`
unfoldable pub validate : PinPolicy → Text → PinResult (Unit {0})
unfolding check_max
validate p pin =
    if is_empty pin
    then err pin_is_empty
    else if ltb (len pin) p.min_length
    then err (pin_too_short (len pin) p.min_length)
    else check_max p.max_length (len pin)
