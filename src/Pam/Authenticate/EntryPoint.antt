-- ===== src/Pam/Authenticate/EntryPoint.antt =====
-- The entry point that libpam calls (pinpam-pam/src/lib.rs): its bounds and its success.
use pinpam.Base.{
  catch, Option, ◌+◌, ◌≤◌, ◌≡◌, Outcome, if◌then◌else◌, ok, err, panic, none, refl, arith,
  Bool-cases, inl, inr,
}
use pinpam.Base.Text.{Text}
use pinpam.Pam.Args.{ModuleArgs, from_strs, wants_first_pass}
use pinpam.Pam.Authenticate.{
  pam_sm_authenticate, with_authtok, with_username, with_conversation, say,
}
use pinpam.Pam.Authenticate.Effects.{HasPassed, IsSafe, pure-IsSafe, prompts, tests}
use pinpam.Pam.Authenticate.Safety.{authenticate_user-IsSafe, most_prompts, most_tests, ok_inj}
use pinpam.Pam.Env.{Env, PamReturnCode, Run, Trace}
use pinpam.Pam.Io.{
  tell, Entry, IsHonest, Item, argv_to_strings, get_pam_authtok, get_pam_authtok-IsHonest,
  get_username, get_username-IsHonest, new as io_new, new-IsHonest,
}

module _ (env : Env) where
  module _ (username : Text) (args : ModuleArgs) (t : Trace) where
    with_authtok-IsSafe :
        (authtok : Outcome PamReturnCode (Option Text))
        → IsHonest authtok
        → IsSafe username
            (most_prompts args)
            (most_tests args)
            (with_authtok env username args authtok)
            t
    unfolding with_authtok
    with_authtok-IsSafe (ok authtok) h = authenticate_user-IsSafe env username args authtok t
    with_authtok-IsSafe (err code) h = pure-IsSafe env username code _ _ t (λ e. absurd (h e))
    with_authtok-IsSafe panic h = absurd h

    authtok-IsHonest :
        (item : Item) → IsHonest (if wants_first_pass args then get_pam_authtok item else ok none)
    authtok-IsHonest item = elim (Bool-cases (wants_first_pass args)) [
      | inl wanted ↦ rw wanted (get_pam_authtok-IsHonest item)
      | inr unwanted ↦ rw unwanted tt
    ]

  -- As `IsSafe`, with a success only for the user that libpam named.
  abbrev IsGuarded : Outcome PamReturnCode Text → ModuleArgs → Run PamReturnCode → Trace → Type 0
  IsGuarded user args m t =
      (code : PamReturnCode) × ((m t).0 ≡ ok code)
      × (prompts (m t).1 ≤ prompts t + most_prompts args)
      × (tests (m t).1 ≤ tests t + most_tests args)
      × (code ≡ PamReturnCode.success
          → (username : Text) × (user ≡ ok username) × HasPassed username (m t).1)

  module _ (args : ModuleArgs) (t : Trace) where
    with_username-IsGuarded :
        (authtok : Item) (user : Outcome PamReturnCode Text)
        → IsHonest user
        → IsGuarded user args (with_username env args authtok user) t
    unfolding with_username say tell catch
    with_username-IsGuarded authtok (ok username) h =
        let q = with_authtok-IsSafe username args t _ (authtok-IsHonest username args t authtok) in
        (q.0, q.1, q.2, q.3, λ e. (username, refl, q.4 e))
    with_username-IsGuarded authtok (err code) h =
        (code, refl, omega arith, omega arith, λ e. absurd (h e))
    with_username-IsGuarded authtok panic h = absurd h

  module _ (entry : Entry) (t : Trace) where
    with_conversation-IsGuarded :
        (io : Outcome PamReturnCode (Unit {0}))
        → IsHonest io
        → IsGuarded
            (get_username entry.user)
            (from_strs (argv_to_strings entry.argv))
            (with_conversation env entry io)
            t
    unfolding with_conversation
    with_conversation-IsGuarded (ok io) h =
        with_username-IsGuarded (from_strs (argv_to_strings entry.argv)) t entry.authtok _
          (get_username-IsHonest entry.user)
    with_conversation-IsGuarded (err code) h =
        (code, refl, omega arith, omega arith, λ e. absurd (h e))
    with_conversation-IsGuarded panic h = absurd h

    pam_sm_authenticate-IsGuarded :
        IsGuarded
          (get_username entry.user)
          (from_strs (argv_to_strings entry.argv))
          (pam_sm_authenticate env entry)
          t
    unfolding pam_sm_authenticate
    pam_sm_authenticate-IsGuarded =
        with_conversation-IsGuarded (io_new entry.conversation) (new-IsHonest entry.conversation)

    -- A call of the entry point ends with a code and not by a panic, whatever libpam, the helper
    -- and the user database answer; it prompts at most once, under `use_first_pass` not at all,
    -- and has at most one PIN tested, or two under `try_first_pass` alone.
    pub pam_sm_authenticate_bounded :
        (code : PamReturnCode) × ((pam_sm_authenticate env entry t).0 ≡ ok code)
        × (prompts (pam_sm_authenticate env entry t).1
            ≤ prompts t + most_prompts (from_strs (argv_to_strings entry.argv)))
        × (tests (pam_sm_authenticate env entry t).1
            ≤ tests t + most_tests (from_strs (argv_to_strings entry.argv)))
    pam_sm_authenticate_bounded = let q = pam_sm_authenticate-IsGuarded in (q.0, q.1, q.2, q.3)

    -- If a call of the entry point ends with `SUCCESS`, libpam named a user, and the last event of
    -- the call is a test of a PIN for this user that the helper answered with `Ok(())`.
    pub pam_sm_authenticate-success :
        (pam_sm_authenticate env entry t).0 ≡ ok PamReturnCode.success
        → (username : Text) × (get_username entry.user ≡ ok username)
          × HasPassed username (pam_sm_authenticate env entry t).1
    pam_sm_authenticate-success h =
        let q = pam_sm_authenticate-IsGuarded in q.4 (ok_inj _ _ _ q.1 h)
