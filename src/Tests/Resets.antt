-- ===== src/Tests/Resets.antt =====
-- pinutil where a PIN is set, at concrete inputs: root sets a new one for the user 1000, who has no
-- attempts left and then logs in with it; this user takes a new one; and the user 1001 gets a first one.
use pinpam.Core.Tpm.Laws.{max_index_auth}
use pinpam.Pinutil.Reset.{Resets, change_pin-Resets}
use pinpam.Pinutil.{change_pin}
use pinpam.Core.Util.{Caller, get_uid_from_username}
use pinpam.Core.Pin.{new}
use pinpam.Base.Text.{codes}
use pinpam.Base.{◌≤◌, length, ◌≡◌, arith, ok, true, some, none, inr, refl, [], ◌∷◌}
use pinpam.Tests.Users.{manager, connected, pin_0000, short_0000}
use pinpam.Core.Account.{guess}
use pinpam.Core.Pin.{as_bytes}
use pinpam.Core.Util.{can_manage_pin}
use pinpam.Login.{with_helper}
use pinpam.Login.Recovery.{provide, provide-authenticate_user}
use pinpam.Pam.Authenticate.{authenticate_user}
use pinpam.Pam.Env.{PamReturnCode}
use pinpam.Pinutil.{run_setup}
use pinpam.Pinutil.Enrolment.{Enrols, run_setup-Enrols}
use pinpam.Pinutil.Renewal.{Renews, change_pin-Renews}
use pinpam.Tests.Users.{account, before, before-Stores, before-free, pin_1234, short}
use pinpam.Tests.Entered.{
  spent, after, stored_after, helper, env, no_args, allowed, answers, typed, one_line,
}
use pinpam.Tests.Entered

abbrev root : Caller
root = record { uid = 0; euid = 0; from_name = λ name. inr (some 1000); from_uid = λ uid. inr none }

named : get_uid_from_username root (codes "ann") ≡ ok 1000
unfolding get_uid_from_username
named = refl

accepted : new (codes "0000\n") manager.policy ≡ ok pin_0000
unfolding new pinpam.Core.Policy.validate pinpam.Base.Text.trim pinpam.Base.Text.len
accepted = refl

change_pin-Resets_example :
    Resets manager connected 1000
      (omega arith)
      after
      spent
      pin_0000
      []
      (change_pin manager root (codes "ann") true (after, inr (codes "0000\n") ∷ []))
change_pin-Resets_example =
    change_pin-Resets manager connected 1000 (omega arith) after spent pin_0000 [] root
      (codes "ann") (codes "0000\n") named refl accepted (omega arith) short_0000 stored_after

few_0000 : length (as_bytes pin_0000) ≤ max_index_auth
unfolding as_bytes pinpam.Base.Text.as_bytes
few_0000 = omega arith

provide-authenticate_user_example :
    (authenticate_user
      (with_helper manager helper env
        (provide manager root (some spent) (codes "ann") (after, inr (codes "0000\n") ∷ [])).1.0)
      (codes "ann")
      no_args
      none
      []).0
    ≡ ok PamReturnCode.success
unfolding pinpam.Pam.Args.wants_first_pass
provide-authenticate_user_example =
    provide-authenticate_user manager connected 1000 (omega arith) pin_0000 few_0000 (omega arith)
      (omega arith) helper (codes "ann") Entered.named allowed env (codes "0000") answers typed refl
      one_line root (codes "0000\n") [] after (some spent) no_args none 1000 refl named accepted
      refl Entered.named stored_after

accepted_1234 : new (codes "1234\n") manager.policy ≡ ok pin_1234
unfolding new pinpam.Core.Policy.validate pinpam.Base.Text.trim pinpam.Base.Text.len
accepted_1234 = refl

abbrev ann : Caller
ann = record root { uid = 1000; euid = 1000 }

named_ann : get_uid_from_username ann (codes "ann") ≡ ok 1000
unfolding get_uid_from_username
named_ann = refl

change_pin-Renews_example :
    Renews manager connected 1000
      (omega arith)
      before
      account
      pin_1234
      pin_0000
      (codes "0000\n")
      []
      (guess account (as_bytes pin_1234))
      (change_pin manager ann
        (codes "ann")
        true
        (before, inr (codes "1234\n") ∷ inr (codes "0000\n") ∷ []))
change_pin-Renews_example =
    change_pin-Renews manager connected 1000 (omega arith) before account pin_1234 pin_0000
      (codes "0000\n") [] ann (codes "ann") (codes "1234\n") named_ann refl (omega arith)
      accepted_1234 accepted (omega arith) short short_0000 before-Stores (omega arith)

abbrev bob : Caller
bob = record root { uid = 1001; euid = 1001; from_name = λ name. inr (some 1001) }

named_bob : get_uid_from_username bob (codes "bob") ≡ ok 1001
unfolding get_uid_from_username
named_bob = refl

may_bob : can_manage_pin bob 1001 ≡ true
unfolding can_manage_pin
may_bob = refl

run_setup-Enrols_example :
    Enrols manager connected 1001
      (omega arith)
      before
      pin_0000
      (codes "0000\n")
      []
      none
      (run_setup manager bob (codes "bob") true (before, inr (codes "0000\n") ∷ []))
run_setup-Enrols_example =
    run_setup-Enrols manager connected 1001 (omega arith) before pin_0000 (codes "0000\n") [] bob
      (codes "bob") none named_bob may_bob accepted (omega arith) short_0000 before-free
