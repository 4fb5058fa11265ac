-- ===== src/Core/Policy/Parse.antt =====
-- pinpam-core/src/pinpolicy.rs: the settings of a policy file.
pub mod Settled
use pinpam.Base.{
  ◌^◌, [], inr, ◌==◌, and_then, ◌∷◌, false, list_eq, is_empty, inl, not, ok_or, ◌⊎◌, if◌then◌else◌,
  Bool, List, ℕ, Option, none, some, ok, err,
}
use pinpam.Base.Text.{Text, codes}
use pinpam.Base.Split.{split_whitespace, split_once, parse_uint}
use pinpam.Core.Error.{
  from_tss, PinError, PinResult, wrapper_error, invalid_param as invalid_param_kind, params_missing,
}
use pinpam.Core.Policy.{PinPolicy, default}

-- What `fs::Metadata` is asked for.
pub record Metadata : Type 0 where
  pub is_file : Bool
  pub uid : ℕ
  pub mode : ℕ

-- A file that was opened: its metadata and its text, each of which may fail to be read.
pub record OpenFile : Type 0 where
  pub metadata : ℕ ⊎ Metadata
  pub contents : ℕ ⊎ Text

-- The file system, and the loader of tss-esapi that knows which TCTI specs can be parsed.
pub record Host : Type 0 where
  pub metadata : Text → ℕ ⊎ Metadata
  pub open_file : Text → ℕ ⊎ OpenFile
  pub parse_tcti_spec : Text → PinResult (Unit {0})

-- `invalid_param`
abbrev pub invalid_param : PinError
invalid_param = from_tss (wrapper_error invalid_param_kind)

-- `missing_param`
abbrev pub missing_param : PinError
missing_param = from_tss (wrapper_error params_missing)

unfoldable pub is_absolute : Text → Bool
is_absolute [] = false
is_absolute (c ∷ s) = c == b'/'

regular : Text → ℕ ⊎ Metadata → PinResult Text
regular path (inl e) = err invalid_param
regular path (inr metadata) = if metadata.is_file then ok path else err invalid_param

unfoldable pub number : ℕ → Text → PinResult ℕ
number limit value = ok_or (parse_uint limit value) invalid_param

module _ (host : Host) where
  -- `parse_pinutil_path`
  unfoldable pub parse_pinutil_path : Text → PinResult Text
  unfolding is_absolute regular
  parse_pinutil_path value =
      if not (is_absolute value) then err invalid_param else regular value (host.metadata value)

  -- `parse_tcti_setting`
  unfoldable pub parse_tcti_setting : Text → PinResult Text
  parse_tcti_setting value =
      if is_empty value
      then err invalid_param
      else and_then (host.parse_tcti_spec value) (λ _. ok value)

  -- The `match` on the key.
  unfoldable pub set_key : PinPolicy → Text → Text → PinResult PinPolicy
  unfolding number
  set_key policy key value =
      if list_eq key (codes "pin_min_length")
      then and_then (number (2 ^ 64) value) (λ n. ok (record policy { min_length = n }))
      else if list_eq key (codes "pin_max_length")
      then and_then (number (2 ^ 64) value) (λ n. ok (record policy { max_length = some n }))
      else if list_eq key (codes "pin_lockout_max_attempts")
      then and_then (number (2 ^ 32) value) (λ n. ok (record policy { max_attempts = n }))
      else if list_eq key (codes "pinutil_path")
      then and_then (parse_pinutil_path value) (λ path. ok (record policy { pinutil_path = path }))
      else if list_eq key (codes "tcti")
      then and_then (parse_tcti_setting value) (λ spec. ok (record policy { tcti = some spec }))
      else ok policy

  unfoldable pub set_pair : PinPolicy → Option (Text × Text) → PinResult PinPolicy
  unfolding set_key
  set_pair policy none = err missing_param
  set_pair policy (some (key, value)) = set_key policy key value

  -- One turn of the loop of `parse_config`.
  unfoldable pub set_part : PinPolicy → Text → PinResult PinPolicy
  unfolding set_pair
  set_part policy part = set_pair policy (split_once b'=' part)

  -- The loop of `parse_config`.
  unfoldable pub set_parts : PinPolicy → List Text → PinResult PinPolicy
  set_parts policy [] = ok policy
  set_parts policy (part ∷ parts) = and_then (set_part policy part) (λ p. set_parts p parts)

  -- `PinPolicy::parse_config`
  unfoldable pub parse_config : Text → PinResult PinPolicy
  parse_config config = set_parts default (split_whitespace config)
