-- ===== src/Tests/Entered.antt =====
-- The PAM module with pinutil as its helper: the user 1000 enters a wrong PIN, and then has no
-- attempts left.
use pinpam.Pam.Authenticate.Stacked.{EndsAsTwo, authenticate_user_stacked}
use pinpam.Core.Account.{guess}
use pinpam.Core.Pin.{Pin, as_bytes}
use pinpam.Core.Tpm.Laws.{max_auth}
use pinpam.Base.{length, ◌≤◌}
use pinpam.Core.Account.{Account}
use pinpam.Core.Tpm.Laws.{write_once, pin_slot, put}
use pinpam.Core.Index.Disjoint.{slot_index}
use pinpam.Tests.Sim.{digests, SimState}
use pinpam.Pam.Authenticate.Locked.{EndsLocked, authenticate_user_locked}
use pinpam.Pam.Authenticate.Entered.{EndsAs, Answers, authenticate_user-Guesses}
use pinpam.Pam.Authenticate.{authenticate_user}
use pinpam.Login.{with_helper, replay}
use pinpam.Login.Helper.{has_newline}
use pinpam.Core.Manager.Accounts.{Stores}
use pinpam.Core.Pin.{as_str, new}
use pinpam.Core.Util.{Caller, can_attempt_pin, get_uid_from_username}
use pinpam.Core.Policy.{default}
use pinpam.Base.Text.{codes, trim}
use pinpam.Pam.Env.{PamReturnCode, status, text, Env}
use pinpam.Pam.Args.{ModuleArgs}
use pinpam.Base.{◌≡◌, arith, ok, false, true, some, none, inr, refl, []}
use pinpam.Tests.Users.{manager, connected, pin_0000, before, account, before-Stores, short_0000}

-- The helper, as the module of a login runs it.
abbrev pub helper : Caller
helper = record {
  uid = 0;
  euid = 0;
  from_name = λ name. inr (some 1000);
  from_uid = λ uid. inr none;
}

abbrev pub env : Env
env = record {
  caller = helper;
  policy = default;
  has_conv = true;
  conv_fn =
      λ t message. record { status = PamReturnCode.success; response = some (text (codes "0000")) };
  on_status = λ t username. status (inr none);
  on_test = λ t username pin. record {
    spawned = none;
    has_stdin = true;
    written = none;
    flushed = none;
    waited = none;
    result = none;
  };
}

abbrev pub no_args : ModuleArgs
no_args = record { try_first_pass = false; use_first_pass = false }

abbrev first_pass : ModuleArgs
first_pass = record { try_first_pass = true; use_first_pass = false }

pub named : get_uid_from_username helper (codes "ann") ≡ ok 1000
unfolding get_uid_from_username
named = refl

pub allowed : can_attempt_pin helper 1000 ≡ true
unfolding can_attempt_pin
allowed = refl

pub answers : Answers env (codes "0000")
answers = (refl, λ t message. refl)

pub typed : new (trim (codes "0000")) manager.policy ≡ ok pin_0000
unfolding new pinpam.Core.Policy.validate trim pinpam.Base.Text.len
typed = refl

pub one_line : has_newline (as_str pin_0000) ≡ false
unfolding as_str
one_line = refl

stored :
    Stores manager connected (connected.nv (replay manager helper before [])) 1000 (some account)
unfolding replay
stored = before-Stores

authenticate_user-Guesses_example :
    EndsAs manager connected 1000
      (omega arith)
      helper
      (codes "ann")
      named
      allowed
      env
      before
      account
      (omega arith)
      pin_0000
      (authenticate_user (with_helper manager helper env before) (codes "ann") no_args none [])
unfolding pinpam.Pam.Args.wants_first_pass
authenticate_user-Guesses_example =
    authenticate_user-Guesses manager connected 1000 (omega arith) helper (codes "ann") named
      allowed env before account (omega arith) pin_0000 (codes "0000") answers typed refl no_args
      none [] 1000 refl named one_line short_0000 stored

-- The account after two more wrong PINs.
abbrev pub spent : Account
spent = record account { failures = 3 }

abbrev pub after : SimState
after = record before {
  nv =
      put before.nv (slot_index 1000)
        (some (pin_slot spent.pin (write_once digests) (some (record { count = 3; limit = 3 }))));
}

pub stored_after : Stores manager connected (connected.nv after) 1000 (some spent)
stored_after = (refl, refl, record { within = omega arith; small = omega arith })

stored_spent :
    Stores manager connected (connected.nv (replay manager helper after [])) 1000 (some spent)
unfolding replay
stored_spent = stored_after

authenticate_user_locked_example :
    EndsLocked manager connected 1000 (omega arith) helper (codes "ann") named env after spent [] (
      authenticate_user
        (with_helper manager helper env after)
        (codes "ann")
        first_pass
        (some (codes "1234"))
        [])
authenticate_user_locked_example =
    authenticate_user_locked manager connected 1000 (omega arith) helper (codes "ann") named env
      after spent first_pass (some (codes "1234")) [] 1000 named (omega arith) (omega arith)
      stored_spent

abbrev pin_9999 : Pin
pin_9999 = record { text = codes "9999" }

taken : new (codes "9999") manager.policy ≡ ok pin_9999
unfolding new pinpam.Core.Policy.validate trim pinpam.Base.Text.len
taken = refl

one_line_9999 : has_newline (as_str pin_9999) ≡ false
unfolding as_str
one_line_9999 = refl

short_9999 : length (as_bytes pin_9999) ≤ max_auth
unfolding as_bytes pinpam.Base.Text.as_bytes
short_9999 = omega arith

authenticate_user_stacked_example :
    EndsAsTwo manager connected 1000
      (omega arith)
      helper
      (codes "ann")
      named
      allowed
      env
      before
      account
      (omega arith)
      pin_9999
      pin_0000
      false
      (guess account (as_bytes pin_9999))
      (authenticate_user
        (with_helper manager helper env before)
        (codes "ann")
        first_pass
        (some (codes "9999"))
        [])
unfolding pinpam.Pam.Args.wants_first_pass
authenticate_user_stacked_example =
    authenticate_user_stacked manager connected 1000 (omega arith) helper (codes "ann") named
      allowed env before account (omega arith) pin_9999 pin_0000 (codes "0000") answers typed refl
      one_line short_0000 first_pass (codes "9999") [] 1000 refl named taken one_line_9999
      short_9999 stored
