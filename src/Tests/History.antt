-- ===== src/Tests/History.antt =====
-- Runs of commands on the TPM in memory.
use pinpam.Core.Tpm.Laws.{max_auth}
use pinpam.Base.Text.{codes}
use pinpam.Tests.Sim.{SimState}
use pinpam.Core.Manager.Accounts.{Acts}
use pinpam.Base.{
  ◌≤◌, length, false, ◌∙◌, ◌∷◌, true, [], ◌^◌, err, ◌<◌, List, ◌≡◌, arith, All, refl, none,
}
use pinpam.Core.Account.{guess}
use pinpam.Core.Pin.{Pin, as_bytes}
use pinpam.Core.Manager.Users.{verify_pin}
use pinpam.Core.Manager.Accounts.Absent.{no_index, verify_pin_absent-Acts}
use pinpam.Core.Manager.History.{
  remove, verify, set_up, Command, IsProper, obey_all, call, call_all, Represents,
}
use pinpam.Core.Manager.History.Runs.{call-Represents, call_all-Represents}
use pinpam.Core.Manager.History.Reach.{command, unchanged, then_step, IsOrderly, Reach-IsOrderly}
use pinpam.Core.Manager.History.Secrets.{WasSet, verify_pin-WasSet}
use pinpam.Tests.Users.{
  manager, connected, pin_1234, pin_0000, before, before-free, short, short_0000,
}

verify_pin_absent-Acts_example :
    Acts manager connected (verify_pin manager 1001 pin_1234) 1001 before (err no_index) none
verify_pin_absent-Acts_example =
    verify_pin_absent-Acts manager connected 1001 (omega arith) pin_1234 before before-free

abbrev empty_tpm : SimState
empty_tpm = record { nv = λ n. none; auth_of = λ n. []; policy_of = λ i. [] }

empty-Represents : Represents manager connected empty_tpm (λ w. none)
empty-Represents uid range = (refl, refl)

abbrev small_limit : manager.policy.max_attempts < 2 ^ 31
small_limit = omega arith

abbrev pin_33 : Pin
pin_33 = record { text = codes "a PIN that no TPM takes, 33 bytes" }

fits_33 : length (as_bytes pin_33) ≤ max_auth
unfolding as_bytes pinpam.Base.Text.as_bytes
fits_33 = omega arith

-- Two users, a wrong PIN, a right one, a removal with it, and a PIN that is too long for an index.
abbrev day : List Command
day =
    set_up 1000 pin_1234
    ∷ set_up 1001 pin_0000
    ∷ verify 1000 pin_0000
    ∷ verify 1000 pin_1234
    ∷ remove 1000 pin_1234
    ∷ verify 1000 pin_1234
    ∷ set_up 1000 pin_33
    ∷ []

day-IsProper : All IsProper day
day-IsProper = (
  (omega arith, short),
  (
    (omega arith, short_0000),
    (
      (omega arith, short_0000),
      (
        (omega arith, short),
        ((omega arith, short), ((omega arith, short), ((omega arith, fits_33), tt))),
      ),
    ),
  ),
)

call_all-Represents_example :
    ((call_all manager day empty_tpm).0 ≡ (obey_all manager.policy.max_attempts day (λ w. none)).0)
    × Represents manager connected
        (call_all manager day empty_tpm).1
        (obey_all manager.policy.max_attempts day (λ w. none)).1
call_all-Represents_example =
    call_all-Represents manager connected small_limit day empty_tpm (λ w. none) day-IsProper
      empty-Represents

day_granted :
    (call_all manager day empty_tpm).0 ≡ true ∷ true ∷ false ∷ true ∷ true ∷ false ∷ false ∷ []
unfolding guess as_bytes pinpam.Base.Text.as_bytes
day_granted =
    (call_all-Represents manager connected small_limit day empty_tpm (λ w. none) day-IsProper
      empty-Represents).0
    ∙ refl

empty-IsOrderly : IsOrderly manager connected empty_tpm
empty-IsOrderly uid range = (none, (refl, refl))

Reach-IsOrderly_example :
    IsOrderly manager connected (call manager (set_up 1000 pin_1234) empty_tpm).1
Reach-IsOrderly_example =
    Reach-IsOrderly manager connected small_limit empty-IsOrderly
      (then_step unchanged (command (set_up 1000 pin_1234) empty_tpm (omega arith, short)))

abbrev one_set : List Command
one_set = set_up 1000 pin_1234 ∷ []

one_granted : (call manager (verify 1000 pin_1234) (call_all manager one_set empty_tpm).1).0 ≡ true
unfolding guess as_bytes pinpam.Base.Text.as_bytes
one_granted =
    (call-Represents manager connected small_limit (verify 1000 pin_1234)
      (call_all manager one_set empty_tpm).1 _ (omega arith, short)
      (call_all-Represents manager connected small_limit one_set empty_tpm (λ w. none)
        ((omega arith, short), tt) empty-Represents).1).0
    ∙ refl

verify_pin-WasSet_example : WasSet 1000 (as_bytes pin_1234) one_set
verify_pin-WasSet_example =
    verify_pin-WasSet manager connected small_limit one_set 1000 pin_1234 empty_tpm
      ((omega arith, short), tt) (omega arith, short) empty-Represents one_granted
