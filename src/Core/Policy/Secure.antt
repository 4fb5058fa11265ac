-- ===== src/Core/Policy/Secure.antt =====
-- pinpam-core/src/pinpolicy.rs: which policy file is read, and what counts when none is.
pub mod Trust
pub mod InForce
use Prim.Native.Nat.{bit_and}
use pinpam.Base.{
  ◌%◌, false, ◌==◌, not, [], if◌then◌else◌, ◌∷◌, ◌⊎◌, Bool, List, to_option, ℕ, Option, none, some,
  ok, err, inl, inr,
}
use pinpam.Base.Text.{Text, codes}
use pinpam.Core.Policy.{PinPolicy, default}
use pinpam.Core.Policy.Parse.{Metadata, OpenFile, Host, parse_config}

-- `metadata_is_secure`, on Unix. The mask 0o777 is a remainder, and 0o133 is 0x5b.
unfoldable pub metadata_is_secure : Metadata → Bool
metadata_is_secure metadata =
    if not (metadata.uid == 0) then false else bit_and (metadata.mode % 512) 0x5b == 0

unfoldable pub read_contents : ℕ ⊎ Text → Option Text
read_contents (inl e) = none
read_contents (inr contents) = some contents

unfoldable pub read_checked : OpenFile → ℕ ⊎ Metadata → Option Text
unfolding read_contents metadata_is_secure
read_checked file (inl e) = none
read_checked file (inr metadata) =
    if not metadata.is_file
    then none
    else if not (metadata_is_secure metadata)
    then none
    else read_contents file.contents

unfoldable pub read_opened : ℕ ⊎ OpenFile → Option Text
unfolding read_checked
read_opened (inl e) = none
read_opened (inr file) = read_checked file file.metadata

module _ (host : Host) where
  -- `read_policy_if_secure`
  unfoldable pub read_policy_if_secure : Text → Option Text
  unfolding read_opened
  read_policy_if_secure path = read_opened (host.open_file path)

  unfoldable pub parse_read : Option Text → Option PinPolicy
  parse_read none = none
  parse_read (some config) = to_option (parse_config host config)

  -- `PinPolicy::load_from_path`
  unfoldable pub load_from_path : Text → Option PinPolicy
  unfolding parse_read
  load_from_path path = parse_read (read_policy_if_secure path)

  unfoldable pub load_first : List Text → PinPolicy
  unfolding load_from_path
  load_first [] = default
  load_first (path ∷ paths) = elim (load_from_path path) [
    | some policy ↦ policy
    | none ↦ load_first paths
  ]

  -- `PinPolicy::load_from_standard_locations`
  unfoldable pub load_from_standard_locations : PinPolicy
  unfolding load_first
  load_from_standard_locations = load_first (codes "/etc/pinpam/policy" ∷ [])
