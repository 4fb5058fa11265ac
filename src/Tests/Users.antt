-- ===== src/Tests/Users.antt =====
-- The theorems on accounts, on the TPM in memory: user 1000 has the PIN 1234, user 1001 has none.
use pinpam.Core.Manager.Accounts.Legacy.{verify_pin_legacy-Acts}
use pinpam.Core.Manager.Accounts.Migration.{old_bytes, migrated}
use pinpam.Core.Manager.Slots.Reads.{data_of}
use pinpam.Core.Util.{normalize_legacy_pin}
use pinpam.Core.Manager.Slots.{verify_pin_exact}
use pinpam.Core.Manager.Accounts.Verify.{verify_pin-Acts, Says}
use pinpam.Core.Manager.Accounts.Delete.{delete_pin_with_auth-Acts, remaining, Reports}
use pinpam.Core.Manager.Accounts.Guessing.{verify_pin_exhausted, after}
use pinpam.Core.Error.{
  tss2_error, from_tss, DeleteResult, VerificationResult, PinError, already_provisioned,
}
use pinpam.Core.Manager.Slots.Verifies.{verdict_negative_limit, NotSuccess}
use pinpam.Core.Manager.Users.Effects.{setup_pin_stuck, current_tag}
use pinpam.Core.Manager.Accounts.Setup.{
  setup_pin_taken-Acts, delete_pin_admin-Acts, setup_pin-Acts, new_account,
}
use pinpam.Core.Index.Disjoint.{tag_index, slot_index}
use pinpam.Base.Text.{trim_start_matches, codes}
use pinpam.Core.Consts.{default_tcti_spec}
use pinpam.Core.Manager.Users.{delete_pin_with_auth, verify_pin, delete_pin_admin, setup_pin}
use pinpam.Core.Tpm.Laws.{Counter, max_auth, write_once, pin_slot, put}
use pinpam.Core.Account.{guess, Account}
use pinpam.Tests.Sim.{digests, sim, sim_laws, SimState}
use pinpam.Core.Manager.Accounts.{Acts, Stores}
use pinpam.Core.Pin.{as_str, as_bytes, Pin}
use pinpam.Core.Manager.{PinManager}
use pinpam.Core.Policy.{default}
use pinpam.Base.Text
use pinpam.Base.{◌≡◌, ◌≤◌, Outcome, ◌≢◌, err, length, [], ◌∷◌, [], ok, arith, ℕ, refl, some, none}
use pinpam.Core.Manager.Connected.{Results, IsConnected}

abbrev pub manager : PinManager
manager = record { tpm = sim; policy = default; tcti_spec = default_tcti_spec }

abbrev pub connected : IsConnected manager
connected = record { laws = sim_laws; tcti = default_tcti_spec; parsed = refl }

abbrev pub pin_1234 : Pin
pin_1234 = record { text = codes "1234" }

abbrev pub pin_0000 : Pin
pin_0000 = record { text = codes "0000" }

-- One wrong PIN was entered.
abbrev pub account : Account
account = record { pin = 49 ∷ 50 ∷ 51 ∷ 52 ∷ []; failures = 1; limit = 3 }

abbrev pub before : SimState
before = record {
  nv =
      put
        (put (λ n. none) (slot_index 1000)
          (some
            (pin_slot account.pin (write_once digests) (some (record { count = 1; limit = 3 })))))
        (tag_index 1000) current_tag;
  auth_of = λ n. [];
  policy_of = λ i. [];
}

pub before-Stores : Stores manager connected (connected.nv before) 1000 (some account)
before-Stores = (refl, refl, record { within = omega arith; small = omega arith })

pub before-free : Stores manager connected (connected.nv before) 1001 none
before-free = (refl, refl)

pub short : length (as_bytes pin_1234) ≤ max_auth
unfolding as_bytes pinpam.Base.Text.as_bytes
short = omega arith

pub short_0000 : length (as_bytes pin_0000) ≤ max_auth
unfolding as_bytes pinpam.Base.Text.as_bytes
short_0000 = omega arith

setup_pin-Acts_example :
    Acts manager connected
      (setup_pin manager 1001 pin_1234)
      1001
      before
      (ok tt)
      (some (new_account manager pin_1234))
unfolding as_bytes pinpam.Base.Text.as_bytes
setup_pin-Acts_example =
    setup_pin-Acts manager connected 1001 (omega arith) before pin_1234 (omega arith) short
      before-free

setup_pin_taken-Acts_example :
    Acts manager connected
      (setup_pin manager 1000 pin_0000)
      1000
      before
      (err (already_provisioned 1000))
      (some account)
setup_pin_taken-Acts_example =
    setup_pin_taken-Acts manager connected 1000 (omega arith) before pin_0000 account before-Stores

delete_pin_admin-Acts_example :
    Acts manager connected (delete_pin_admin manager 1000) 1000 before (ok tt) none
delete_pin_admin-Acts_example =
    delete_pin_admin-Acts manager connected 1000 (omega arith) before account before-Stores

verify_pin-Acts_example :
    (r : Outcome PinError VerificationResult) × Says account (guess account (as_bytes pin_0000)).0 r
    × Acts manager connected
        (verify_pin manager 1000 pin_0000)
        1000
        before
        r
        (some (guess account (as_bytes pin_0000)).1)
verify_pin-Acts_example =
    verify_pin-Acts manager connected 1000 (omega arith) before pin_0000 account short_0000
      before-Stores

delete_pin_with_auth-Acts_example :
    (r : Outcome PinError DeleteResult) × Reports (guess account (as_bytes pin_1234)).0 r
    × Acts manager connected
        (delete_pin_with_auth manager 1000 pin_1234)
        1000
        before
        r
        (remaining (guess account (as_bytes pin_1234)))
delete_pin_with_auth-Acts_example =
    delete_pin_with_auth-Acts manager connected 1000 (omega arith) before pin_1234 account short
      before-Stores

pub wrong_0000 : as_bytes pin_0000 ≢ account.pin
unfolding as_bytes pinpam.Base.Text.as_bytes
wrong_0000 e = ground (arith, e)

-- Two more wrong PINs, and then the right one.
verify_pin_exhausted_example :
    NotSuccess
      (verify_pin manager 1000 pin_1234 (after manager 1000 before (pin_0000 ∷ pin_0000 ∷ []))).0
verify_pin_exhausted_example =
    verify_pin_exhausted manager connected 1000 (omega arith) before account
      (pin_0000 ∷ pin_0000 ∷ []) pin_1234 before-Stores (short_0000, (short_0000, tt))
      (wrong_0000, (wrong_0000, tt)) (omega arith) short

-- A limit of 2 ^ 31 + 1, which a `c_int` takes for a negative number.
abbrev large : Counter
large = record { count = 0; limit = 0x8000_0001 }

abbrev negative : SimState
negative = record {
  nv =
      put (λ n. none) (slot_index 1000)
        (some (pin_slot account.pin (write_once digests) (some large)));
  auth_of = λ n. [];
  policy_of = λ i. [];
}

right_1234 : as_bytes pin_1234 ≡ account.pin
unfolding as_bytes pinpam.Base.Text.as_bytes
right_1234 = refl

verdict_negative_limit_example :
    Results manager connected
      (verify_pin_exact manager 1000 (as_bytes pin_1234))
      negative
      (ok VerificationResult.locked_out)
      (put negative.nv
        (slot_index 1000)
        (some (pin_slot account.pin (write_once digests) (some (record large { count = 0 })))))
verdict_negative_limit_example =
    verdict_negative_limit manager connected 1000 (as_bytes pin_1234) (omega arith) short
      account.pin (write_once digests) large
      (record { count_word = omega arith; limit_word = omega arith }) negative.nv refl negative refl
      (omega arith) (omega arith) right_1234

-- A slot that was defined and not written.
abbrev unwritten : SimState
unwritten = record {
  nv = put (λ n. none) (slot_index 1000) (some (pin_slot account.pin (write_once digests) none));
  auth_of = λ n. [];
  policy_of = λ i. [];
}

setup_pin_stuck_example :
    Results manager connected
      (setup_pin manager 1000 pin_0000)
      unwritten
      (err (from_tss (tss2_error (connected.errors.refused (as_bytes pin_0000)))))
      unwritten.nv
setup_pin_stuck_example =
    setup_pin_stuck manager connected 1000 (omega arith) unwritten unwritten.nv refl pin_0000
      account.pin (write_once digests) short_0000 refl

-- A PIN from before the version tag, which was entered as 0012.
abbrev pin_0012 : Pin
pin_0012 = record { text = codes "0012" }

abbrev once : Counter
once = record { count = 1; limit = 3 }

abbrev legacy : SimState
legacy = record {
  nv =
      put (λ n. none) (slot_index 1000)
        (some (pin_slot (49 ∷ 50 ∷ []) (write_once digests) (some once)));
  auth_of = λ n. [];
  policy_of = λ i. [];
}

short_0012 : length (as_bytes pin_0012) ≤ max_auth
unfolding as_bytes pinpam.Base.Text.as_bytes
short_0012 = omega arith

short_12 : length (old_bytes pin_0012) ≤ max_auth
unfolding normalize_legacy_pin as_str pinpam.Base.Text.as_bytes trim_start_matches
short_12 = omega arith

stored_12 :
    legacy.nv (slot_index 1000)
    ≡ some (pin_slot (old_bytes pin_0012) (write_once digests) (some once))
unfolding normalize_legacy_pin as_str pinpam.Base.Text.as_bytes trim_start_matches
stored_12 = refl

verify_pin_legacy-Acts_example :
    Acts manager connected
      (verify_pin manager 1000 pin_0012)
      1000
      legacy
      (ok (VerificationResult.success (data_of (record once { count = 0 }))))
      (migrated manager pin_0012 once)
verify_pin_legacy-Acts_example =
    verify_pin_legacy-Acts manager connected 1000 (omega arith) legacy pin_0012 once short_0012
      short_12 (omega arith) (omega arith) (omega arith) stored_12 refl
