-- ===== src/Tests/Stamps.antt =====
-- The commands on the master key, and the module that stamps its tokens, on the platform in memory.
use pinpam.Base.{inr, false, ok, ◌≡◌, list_eq_iff, [], true, ◌≢◌, ◌∷◌, refl}
use pinpam.Base.Text.{Text, as_bytes, codes, trim}
use pinpam.Core.Error.{
  requires_interactive_confirmation, mk_purpose_tpm_clear, mk_purpose_disk_clear,
}
use pinpam.Core.Policy.{default}
use pinpam.Core.MasterKey.Objects.Provisioned.{with_key}
use pinpam.Core.MasterKey.Lifecycle.Effects.{token_of}
use pinpam.Pam.Env.{PamReturnCode}
use pinpam.Pinutil.MasterKeys.{init_key, silent, clear_disk, clear_tpm, main}
use pinpam.Pinutil.MasterKeys.Consent.{clear_unconfirmed_refused, refused_end}
use pinpam.MasterKeyPam.{
  derived, set_authtok, Env, Trace, answered, ignore, has_nul, pam_sm_authenticate,
}
use pinpam.MasterKeyPam.Stamp.{IsStamped, pam_sm_authenticate-IsStamped, answer}
use pinpam.MasterKeyPam.WithPinutil.{with_pinutil, stamp_token}
use pinpam.Tests.Vaults.{machine, prepared, ready, Machine}
use pinpam.Pinutil.Use.{is_yes}
use pinpam.Pinutil.MasterKeys.Making.{Makes, main-Makes}
use pinpam.Tests.Keys.{blank-IsFresh}
use pinpam.Tests.Keys.{root, blank, short_name}

no_line : trim (trim (codes "no")) ≢ codes "yes"
unfolding trim
no_line e = cc ((list_eq_iff _ _).1 e)

clear_unconfirmed_refused_example :
    (main machine default root true clear_tpm (blank, []) ≡ (
      refused_end machine default root (requires_interactive_confirmation mk_purpose_tpm_clear),
      (blank, []),
    ))
    × (main machine default root true clear_disk (blank, []) ≡ (
      refused_end machine default root (requires_interactive_confirmation mk_purpose_disk_clear),
      (blank, []),
    ))
    × (main machine default root false clear_tpm (blank, inr (codes "no") ∷ [])
        ≡ (record { code = 1; stdout = silent }, (blank, [])))
    × (main machine default root false clear_disk (blank, inr (codes "no") ∷ [])
        ≡ (record { code = 1; stdout = silent }, (blank, [])))
clear_unconfirmed_refused_example =
    clear_unconfirmed_refused machine default root blank (codes "no") [] refl no_line

-- A machine with a key of three bytes, which the stand-in for a code puts before the name.
abbrev keyed : Machine
keyed = record blank { vault = with_key blank.vault (7 ∷ 8 ∷ 9 ∷ []) }

abbrev accepts : Trace → Text → PamReturnCode
accepts t tok = PamReturnCode.success

abbrev env : Env
env = with_pinutil machine default root keyed (codes "ann") accepts

pam_sm_authenticate-IsStamped_example :
    ((pam_sm_authenticate env []).0 ≡ ok ignore) × IsStamped env [] (pam_sm_authenticate env []).1
pam_sm_authenticate-IsStamped_example = pam_sm_authenticate-IsStamped env []

no_nul : has_nul (token_of machine default prepared (7 ∷ 8 ∷ 9 ∷ []) (codes "ann")) ≡ false
unfolding as_bytes
no_nul = refl

stamp_token_example : pam_sm_authenticate env [] ≡ (
  ok ignore,
  set_authtok (token_of machine default prepared (7 ∷ 8 ∷ 9 ∷ []) (codes "ann")) (
        answer env []
          (codes "ann")
          (token_of machine default prepared (7 ∷ 8 ∷ 9 ∷ []) (codes "ann")))
      ∷ derived
          (codes "ann")
          (answered (inr (token_of machine default prepared (7 ∷ 8 ∷ 9 ∷ []) (codes "ann"))))
      ∷ [],
)
stamp_token_example =
    stamp_token machine default root keyed (codes "ann") accepts [] prepared (7 ∷ 8 ∷ 9 ∷ []) refl
      refl short_name no_nul

agreed : is_yes (trim (codes "y\n")) ≡ true
unfolding is_yes trim
agreed = refl

main-Makes_example :
    Makes machine default ready root refl (codes "no\n") (
      main machine default root false init_key (blank, inr (codes "y\n") ∷ inr (codes "no\n") ∷ []))
main-Makes_example =
    main-Makes machine default ready root refl blank (codes "y\n") (codes "no\n") [] blank-IsFresh
      agreed
