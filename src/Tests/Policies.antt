-- ===== src/Tests/Policies.antt =====
-- Policy files that are read and that are not.
use pinpam.Base.Split.{parse_uint, split_once, split_whitespace}
use pinpam.Base.{err, ok, inl, ◌↔◌, list_eq, false, true, inr, some, ℕ, if◌then◌else◌, ◌≡◌, refl}
use pinpam.Base.Text.{Text, codes}
use pinpam.Core.Policy.{PinPolicy, default}
use pinpam.Core.Policy.Parse.{
  parse_tcti_setting, parse_pinutil_path, number, set_key, set_pair, set_part, set_parts, Metadata,
  OpenFile, Host, parse_config, invalid_param,
}
use pinpam.Core.Policy.Secure.{load_from_path, load_from_standard_locations, metadata_is_secure}
use pinpam.Core.Policy.Secure.Trust.{IsSource, load_from_path_iff}
use pinpam.Core.Policy.Secure.InForce.{
  policy_file, IsInForce, load_from_standard_locations-IsInForce,
}

abbrev with_mode : ℕ → Metadata
with_mode mode = record { is_file = true; uid = 0; mode = mode }

-- A machine with one policy file, of the mode 0o644, and a helper of the mode 0o755.
abbrev settings : Text
settings = codes "pin_max_length=8\npinutil_path=/sbin/u  tcti=mssim: unknown=7"

abbrev policy_opened : OpenFile
policy_opened = record { metadata = inr (with_mode 0x1a4); contents = inr settings }

abbrev machine : Host
machine = record {
  metadata = λ path. if list_eq path (codes "/sbin/u") then inr (with_mode 0x1ed) else inl 2;
  open_file = λ path. if list_eq path policy_file then inr policy_opened else inl 2;
  parse_tcti_spec = λ spec. if list_eq spec (codes "mssim:") then ok tt else err invalid_param;
}

abbrev expected : PinPolicy
expected = record default {
  max_length = some 8;
  pinutil_path = codes "/sbin/u";
  tcti = some (codes "mssim:");
}

parsed_settings : parse_config machine settings ≡ ok expected
unfolding parse_config set_parts set_part set_pair set_key number split_whitespace split_once
    parse_uint parse_pinutil_path parse_tcti_setting
parsed_settings = refl

abbrev policy_source : IsSource machine policy_file expected
policy_source = record {
  file = policy_opened;
  metadata = with_mode 0x1a4;
  contents = settings;
  opened = refl;
  described = refl;
  regular = refl;
  root_only = (refl, refl, refl, refl, refl, refl);
  loaded = refl;
  parsed = parsed_settings;
}

load_from_path_iff_example :
    (load_from_path machine policy_file ≡ some expected) ↔ IsSource machine policy_file expected
load_from_path_iff_example = load_from_path_iff machine policy_file expected

load_from_standard_locations-IsInForce_example :
    IsInForce machine (load_from_standard_locations machine)
load_from_standard_locations-IsInForce_example = load_from_standard_locations-IsInForce machine

policy_read : load_from_path machine policy_file ≡ some expected
policy_read = (load_from_path_iff machine policy_file expected).1 policy_source

-- A mode of 0o664: the group could have written the file.
writable_refused : metadata_is_secure (with_mode 0x1b4) ≡ false
unfolding metadata_is_secure
writable_refused = refl

no_number : parse_config machine (codes "pin_min_length=four") ≡ err invalid_param
unfolding parse_config set_parts set_part set_pair set_key number split_whitespace split_once
    parse_uint
no_number = refl
