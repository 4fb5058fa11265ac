-- ===== src/Core/Policy/Secure/InForce.antt =====
-- The policy that the program runs under (pinpam-core/src/pinpolicy.rs).
use pinpam.Base.{inr, inl, some, none, ◌≡◌, ◌⊎◌}
use pinpam.Base.{refl}
use pinpam.Base.Text.{Text, codes}
use pinpam.Core.Policy.{Option, PinPolicy, default}
use pinpam.Core.Policy.Parse.{Host}
use pinpam.Core.Policy.Parse.Settled.{IsSettled, parse_config-IsSettled}
use pinpam.Core.Policy.Secure.{load_from_path, load_first, load_from_standard_locations}
use pinpam.Core.Policy.Secure.Trust.{IsSource, load_from_path_iff}

abbrev pub policy_file : Text
policy_file = codes "/etc/pinpam/policy"

-- A policy that was read and is sound, or the default where there is none to read.
abbrev pub IsInForce : Host → PinPolicy → Type 0
IsInForce host p =
    (IsSource host policy_file p × IsSettled host p)
    ⊎ ((p ≡ default) × ((q : PinPolicy) → ¬ IsSource host policy_file q))

module _ (host : Host) where
  source-IsSettled : (p : PinPolicy) → IsSource host policy_file p → IsSettled host p
  source-IsSettled p h = parse_config-IsSettled host h.contents p h.parsed

  no_source :
      load_from_path host policy_file ≡ none → (q : PinPolicy) → ¬ IsSource host policy_file q
  no_source e q h = cc (e, (load_from_path_iff host policy_file q).1 h)

  first-InForce :
      (o : Option PinPolicy)
      → load_from_path host policy_file ≡ o
      → IsInForce host (elim o [ some policy ↦ policy | none ↦ default ])
  first-InForce (some p) e = inl (
    (load_from_path_iff host policy_file p).0 e,
    source-IsSettled p ((load_from_path_iff host policy_file p).0 e),
  )
  first-InForce none e = inr (refl, no_source e)

  -- The policy that the program runs under is the one of /etc/pinpam/policy, where that is a
  -- regular file of root's without execution bits and without writing by group and others, and
  -- parses; its numbers then fit their types, its helper is the default or an absolute path to a
  -- regular file, and its TCTI can be parsed. Else it is the default, and no policy comes from the
  -- file.
  pub load_from_standard_locations-IsInForce : IsInForce host (load_from_standard_locations host)
  unfolding load_from_standard_locations load_first
  load_from_standard_locations-IsInForce = first-InForce (load_from_path host policy_file) refl
