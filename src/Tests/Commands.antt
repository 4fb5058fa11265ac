-- ===== src/Tests/Commands.antt =====
-- The commands of pinutil at concrete inputs.
use pinpam.Pinutil.Deletion.{delete_pin_unheard}
use pinpam.Core.Manager.Accounts.{Stores}
use pinpam.Pinutil.Use.{delete_pin, test_pin}
use pinpam.Base.Text.{codes}
use pinpam.Pinutil.{Desk}
use pinpam.Core.Util.{get_uid_from_username, Caller, can_attempt_pin}
use pinpam.Base.{Outcome, true, ◌≡◌, arith, ℕ, refl, some, none, inl, inr, ok, err, [], ◌∷◌}
use pinpam.Core.Error.{PinError}
use pinpam.Tests.Users.{
  wrong_0000, manager, connected, pin_0000, before, account, before-Stores, short_0000,
}
use pinpam.Core.Pin.{new}
use pinpam.Pinutil.Verification.{Guesses, test_pin-Guesses}

-- The helper as PAM runs it, for the user 1000.
abbrev by_login : Caller
by_login = record {
  uid = 1001;
  euid = 0;
  from_name = λ name. inr (some 1000);
  from_uid = λ uid. inr none;
}

found : get_uid_from_username by_login (codes "ann") ≡ ok 1000
unfolding get_uid_from_username
found = refl

may : can_attempt_pin by_login 1000 ≡ true
unfolding can_attempt_pin
may = refl

entered : new (codes "0000\n") manager.policy ≡ ok pin_0000
unfolding new pinpam.Core.Policy.validate pinpam.Base.Text.trim pinpam.Base.Text.len
entered = refl

test_pin-Guesses_example :
    Guesses manager connected 1000 before account pin_0000 []
      (test_pin manager by_login (codes "ann") true (before, inr (codes "0000\n") ∷ []))
test_pin-Guesses_example =
    test_pin-Guesses manager connected 1000 (omega arith) before account pin_0000 [] by_login
      (codes "ann") found may (codes "0000\n") entered short_0000 before-Stores (omega arith)

abbrev by_ann : Caller
by_ann = record by_login { uid = 1000; euid = 1000 }

found_ann : get_uid_from_username by_ann (codes "ann") ≡ ok 1000
unfolding get_uid_from_username
found_ann = refl

abbrev ann_deletes : Outcome PinError (Unit {0}) × Desk manager
ann_deletes = delete_pin manager by_ann (codes "ann") true (before, inr (codes "0000\n") ∷ [])

delete_pin_unheard_example :
    (ann_deletes.0 ≡ ok tt)
    × Stores manager connected
        (connected.nv ann_deletes.1.0)
        1000
        (some (record account { failures = 2 }))
delete_pin_unheard_example =
    delete_pin_unheard manager connected 1000 (omega arith) before account pin_0000 [] by_ann
      (codes "ann") (codes "0000\n") found_ann refl (omega arith) entered short_0000 before-Stores
      (omega arith) wrong_0000
