-- ===== src/Pam/Authenticate/Safety.antt =====
-- The whole of an authentication (pinpam-pam/src/lib.rs): its bounds and its success.
use pinpam.Core.Error.{PinResult}
use pinpam.Core.Util.{get_uid_from_username_total, get_uid_from_username}
use pinpam.Pam.Authenticate.{
  on_status, saturating_add, interactive, finalize_outcome, on_uid, on_decision, after_first_pass,
  authenticate_user,
}
use pinpam.Pam.Env.{asked_status, PamReturnCode, Trace, Run, Env}
use pinpam.Base.Text.{Text}
use pinpam.Base.{
  Outcome, ◌∷◌, Bool-cases, arith, ◌≤◌, ◌+◌, panic, ◌>>=◌, ◌≢◌, ◌≡◌, Option, if◌then◌else◌, ℕ, ok,
  err, true, none, some, refl, inl, inr,
}
use pinpam.Pam.Status.{
  run_pinutil_test, status_of_run, run_pinutil_status, PinStatus, PinutilTestOutcome,
}
use pinpam.Pam.Args.{
  decide_first_pass-IsAllowed, wants_first_pass, ModuleArgs, FirstPassDecision, IsAllowed,
}
use pinpam.Pam.Authenticate.Effects.{
  finalize-IsSafe, interactive-IsSafe, pure-IsSafe, test-IsSafe, say-IsSafe, IsSafe, HasPassed,
}

-- How often the arguments let the module prompt, and ask the helper.
abbrev pub most_prompts : ModuleArgs → ℕ
most_prompts args = if args.use_first_pass then 0 else 1

abbrev pub most_tests : ModuleArgs → ℕ
most_tests args = if args.use_first_pass then 1 else if args.try_first_pass then 2 else 1

-- The tests that may follow the first one.
abbrev more_tests : ModuleArgs → ℕ
more_tests args = if args.use_first_pass then 0 else 1

weaken :
    (username : Text) (m : Run PamReturnCode) (t : Trace) (a b a' b' : ℕ)
    → IsSafe username a b m t
    → a ≤ a'
    → b ≤ b'
    → IsSafe username a' b' m t
weaken username m t a b a' b' q p r = (q.0, q.1, omega (arith, q.2, p), omega (arith, q.3, r), q.4)

pub ok_inj :
    (a b : PamReturnCode) (r : Outcome PamReturnCode PamReturnCode) → r ≡ ok a → r ≡ ok b → a ≡ b
ok_inj a b r p q = cc (p, q)

module _ (env : Env) (username : Text) (args : ModuleArgs) where
  rejected-IsSafe :
      (used limit : ℕ) (t : Trace)
      → IsSafe username
          (most_prompts args)
          (more_tests args)
          (if args.use_first_pass
            then finalize_outcome env PinutilTestOutcome.invalid_pin
            else interactive env username used limit)
          t
  rejected-IsSafe used limit t = elim (Bool-cases args.use_first_pass) [
    | inl e ↦ rw e (finalize-IsSafe env username PinutilTestOutcome.invalid_pin 0 0 t (λ q. cc))
    | inr e ↦ rw e (interactive-IsSafe env username used limit t)
  ]

  after_first_pass-IsSafe :
      (used limit : ℕ) (outcome : Option PinutilTestOutcome) (t : Trace)
      → (outcome ≡ some PinutilTestOutcome.success → HasPassed username t)
      → IsSafe username
          (most_prompts args)
          (more_tests args)
          (after_first_pass env username args used limit outcome)
          t
  unfolding after_first_pass
  after_first_pass-IsSafe used limit none t h = say-IsSafe env username _ _ _ _ t (λ e. cc)
  after_first_pass-IsSafe used limit (some PinutilTestOutcome.success) t h =
      pure-IsSafe env username _ _ _ t (λ e. h refl)
  after_first_pass-IsSafe used limit (some PinutilTestOutcome.invalid_pin) t h =
      rejected-IsSafe (saturating_add used 1) limit t
  after_first_pass-IsSafe used limit (some PinutilTestOutcome.newly_locked_out) t h =
      finalize-IsSafe env username PinutilTestOutcome.newly_locked_out _ _ t (λ e. cc)
  after_first_pass-IsSafe used limit (some PinutilTestOutcome.locked_out) t h =
      finalize-IsSafe env username PinutilTestOutcome.locked_out _ _ t (λ e. cc)
  after_first_pass-IsSafe used limit (some PinutilTestOutcome.not_configured) t h =
      finalize-IsSafe env username PinutilTestOutcome.not_configured _ _ t (λ e. cc)
  after_first_pass-IsSafe used limit (some PinutilTestOutcome.unavailable) t h =
      finalize-IsSafe env username PinutilTestOutcome.unavailable _ _ t (λ e. cc)

  enough : wants_first_pass args ≡ true → more_tests args + 1 ≤ most_tests args
  unfolding wants_first_pass
  enough w = ground (arith, w)

  on_decision-IsSafe :
      (used limit : ℕ) (decision : FirstPassDecision) (t : Trace)
      → IsAllowed args decision
      → IsSafe username
          (most_prompts args)
          (most_tests args)
          (on_decision env username args used limit decision)
          t
  unfolding on_decision
  on_decision-IsSafe used limit FirstPassDecision.deny t h =
      say-IsSafe env username _ _ _ _ t (λ e. cc)
  on_decision-IsSafe used limit (FirstPassDecision.try_first_pass pin) t h =
      weaken username
        (run_pinutil_test env username pin >>= after_first_pass env username args used limit) t _ _
        _ _
        (test-IsSafe env username pin (after_first_pass env username args used limit)
          (most_prompts args) (more_tests args) t (after_first_pass-IsSafe used limit))
        (omega arith) (enough h)
  on_decision-IsSafe used limit FirstPassDecision.prompt_user t h =
      weaken username (interactive env username used limit) t 1 1 _ _
        (interactive-IsSafe env username used limit t) (ground (arith, h)) (ground (arith, h))

  on_status-IsSafe :
      (authtok : Option Text) (status : PinStatus) (t : Trace)
      → IsSafe username
          (most_prompts args)
          (most_tests args)
          (on_status env username args authtok status)
          t
  unfolding on_status
  on_status-IsSafe authtok (PinStatus.unavailable e) t = say-IsSafe env username _ _ _ _ t (λ e. cc)
  on_status-IsSafe authtok PinStatus.not_provisioned t = say-IsSafe env username _ _ _ _ t (λ e. cc)
  on_status-IsSafe authtok PinStatus.locked_out t = say-IsSafe env username _ _ _ _ t (λ e. cc)
  on_status-IsSafe authtok (PinStatus.available used limit) t =
      on_decision-IsSafe used limit _ t (decide_first_pass-IsAllowed args authtok env.policy)

  on_uid-IsSafe :
      (authtok : Option Text) (uid : PinResult ℕ) (t : Trace)
      → uid ≢ panic
      → IsSafe username
          (most_prompts args)
          (most_tests args)
          (on_uid env username args authtok uid)
          t
  unfolding on_uid ◌>>=◌ run_pinutil_status
  on_uid-IsSafe authtok (ok uid) t h =
      on_status-IsSafe authtok (status_of_run (env.on_status t username))
        (asked_status username (env.on_status t username) ∷ t)
  on_uid-IsSafe authtok (err e) t h = say-IsSafe env username _ _ _ _ t (λ e. cc)
  on_uid-IsSafe authtok panic t h = absurd (h refl)

  found : get_uid_from_username env.caller username ≢ panic
  found e = elim (get_uid_from_username_total env.caller username) [ inl p ↦ cc (p.1) | inr p ↦ cc ]

  pub authenticate_user-IsSafe :
      (authtok : Option Text) (t : Trace)
      → IsSafe username
          (most_prompts args)
          (most_tests args)
          (authenticate_user env username args authtok)
          t
  unfolding authenticate_user
  authenticate_user-IsSafe authtok t =
      on_uid-IsSafe authtok (get_uid_from_username env.caller username) t found
