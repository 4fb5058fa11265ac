-- ===== src/Tests/Login.antt =====
-- The PAM module at a concrete input: a helper that takes no PIN but 1234, and a user that enters it
-- after the module before this one has passed on a wrong one.
use Prim.Native.String.{String}
use pinpam.Pam.Authenticate.EntryPoint.{pam_sm_authenticate_bounded, pam_sm_authenticate-success}
use pinpam.Pam.Io.{Entry, Item, get_username}
use pinpam.Pam.Authenticate.{pam_sm_authenticate}
use pinpam.Base.Text.{Text, codes}
use pinpam.Core.Error.{incorrect_pin, PinError}
use pinpam.Pam.Authenticate.Effects.{tests, prompts, HasPassed}
use pinpam.Core.Util.{Caller}
use pinpam.Pam.Args.{ModuleArgs}
use pinpam.Core.Pin.{Pin}
use pinpam.Pam.Env.{PamReturnCode, status, text, Env}
use pinpam.Base.{
  ◌≤◌, ok, ◌≡◌, list_eq, if◌then◌else◌, false, ◌⊎◌, true, ℕ, refl, some, none, inl, inr, [], ◌∷◌,
}
use pinpam.Core.Policy.{default}

abbrev caller : Caller
caller = record {
  uid = 0;
  euid = 0;
  from_name = λ name. inr (some 1000);
  from_uid = λ uid. inr none;
}

abbrev answer : Pin → PinError ⊎ (Unit {0})
answer pin = if list_eq pin.text (codes "1234") then inr tt else inl (incorrect_pin false)

abbrev env : Env
env = record {
  caller = caller;
  policy = default;
  has_conv = true;
  conv_fn =
      λ t message. record { status = PamReturnCode.success; response = some (text (codes "1234")) };
  on_status = λ t username. status (inr (some (record { used = 0; limit = 3 })));
  on_test = λ t username pin. record {
    spawned = none;
    has_stdin = true;
    written = none;
    flushed = none;
    waited = none;
    result = some (answer pin);
  };
}

abbrev named : String → Item
named s = record { status = PamReturnCode.success; value = text (codes s) }

abbrev entry : Entry
entry = record {
  argv = text (codes "try_first_pass") ∷ [];
  conversation = named "";
  user = named "ann";
  authtok = named "9999";
}

pam_sm_authenticate_bounded_example :
    (code : PamReturnCode) × ((pam_sm_authenticate env entry []).0 ≡ ok code)
    × (prompts (pam_sm_authenticate env entry []).1 ≤ 1)
    × (tests (pam_sm_authenticate env entry []).1 ≤ 2)
unfolding pinpam.Pam.Args.from_strs pinpam.Pam.Io.argv_to_strings
pam_sm_authenticate_bounded_example = pam_sm_authenticate_bounded env entry []

-- The first PIN is refused and the one that is entered is taken.
logs_in : (pam_sm_authenticate env entry []).0 ≡ ok PamReturnCode.success
unfolding pam_sm_authenticate pinpam.Pam.Args.from_strs pinpam.Pam.Io.argv_to_strings
    pinpam.Pam.Io.new pinpam.Pam.Io.get_username pinpam.Pam.Io.get_pam_authtok
    pinpam.Pam.Io.is_success pinpam.Pam.Args.wants_first_pass
    pinpam.Pam.Authenticate.authenticate_user pinpam.Core.Util.get_uid_from_username
    pinpam.Base.◌>>=◌ pinpam.Pam.Status.run_pinutil_status pinpam.Core.PinData.locked
    pinpam.Pam.Args.decide_first_pass pinpam.Core.Pin.new pinpam.Core.Policy.validate
    pinpam.Base.Text.trim pinpam.Base.Text.len pinpam.Pam.Status.run_pinutil_test pinpam.Base.catch
    pinpam.Pam.Authenticate.prompt_for_pin pinpam.Pam.Io.prompt_hidden
logs_in = refl

pam_sm_authenticate-success_example :
    (username : Text) × (get_username entry.user ≡ ok username)
    × HasPassed username (pam_sm_authenticate env entry []).1
pam_sm_authenticate-success_example = pam_sm_authenticate-success env entry [] logs_in
