-- ===== src/Pam/Status.antt =====
-- pinpam-pam/src/lib.rs: what the helper reports, and what the module makes of it.
use pinpam.Core.Pin.{Pin}
use pinpam.Base.Text.{Text}
use pinpam.Pam.Env.{
  tested, asked_status, StatusRun, not_run, failed, unreadable, status, TestRun, IoError,
  broken_pipe, other_io,
}
use pinpam.Core.Error.{
  errno, PinError, pin_is_locked, incorrect_pin, io_error, pinutil_output_decode_error,
}
use pinpam.Base.{
  refl, arith, ◌∷◌, ◌&&◌, if◌then◌else◌, ok, Bool, ◌≡◌, Option, none, some, true, false, inl, inr,
  ℕ, ◌⊎◌,
}
use pinpam.Core.PinData.{AttemptInfo, locked}
use pinpam.Pam.Env.{Env, Run}

pub data PinStatus : Type 0 where
  unavailable : PinError → PinStatus
  locked_out not_provisioned : PinStatus
  available : ℕ → ℕ → PinStatus

pub data PinutilTestOutcome : Type 0 where
  success invalid_pin locked_out newly_locked_out not_configured unavailable : PinutilTestOutcome

-- `PinStatus::from`
unfoldable pub status_of : PinError ⊎ Option AttemptInfo → PinStatus
status_of (inl pin_is_locked) = PinStatus.locked_out
status_of (inl e) = PinStatus.unavailable e
status_of (inr none) = PinStatus.not_provisioned
status_of (inr (some info)) =
    if locked info then PinStatus.locked_out else PinStatus.available info.used info.limit

-- `PinutilTestOutcome::from`
unfoldable pub outcome_of : PinError ⊎ (Unit {0}) → PinutilTestOutcome
outcome_of (inr done) = PinutilTestOutcome.success
outcome_of (inl pin_is_locked) = PinutilTestOutcome.locked_out
outcome_of (inl (incorrect_pin true)) = PinutilTestOutcome.newly_locked_out
outcome_of (inl (incorrect_pin false)) = PinutilTestOutcome.invalid_pin
outcome_of (inl (PinError.not_provisioned uid)) = PinutilTestOutcome.not_configured
outcome_of (inl e) = PinutilTestOutcome.unavailable

-- `run_pinutil_status`, from the run of the process.
unfoldable pub status_of_run : StatusRun → PinStatus
unfolding status_of
status_of_run (not_run e) = PinStatus.unavailable (io_error (errno e))
status_of_run (failed code) = PinStatus.unavailable (io_error (errno code))
status_of_run (unreadable e) = PinStatus.unavailable (pinutil_output_decode_error e)
status_of_run (status info) = status_of info

-- A write to the helper's input: a helper that closed it early is still waited for.
unfoldable pub is_sent : Option IoError → Bool
is_sent none = true
is_sent (some broken_pipe) = true
is_sent (some (other_io e)) = false

unfoldable pub is_fine : Option IoError → Bool
is_fine none = true
is_fine (some e) = false

unfoldable pub decoded : Option (PinError ⊎ (Unit {0})) → Option PinutilTestOutcome
unfolding outcome_of
decoded none = none
decoded (some result) = some (outcome_of result)

-- `run_pinutil_test`, from the run of the process: `none` for any of its errors, which are texts.
unfoldable pub outcome_of_run : TestRun → Option PinutilTestOutcome
unfolding is_sent is_fine decoded
outcome_of_run run =
    if is_fine run.spawned
      && run.has_stdin
      && is_sent run.written
      && is_sent run.flushed
      && is_fine run.waited
    then decoded run.result
    else none

module _ (env : Env) where
  -- `run_pinutil_status`
  unfoldable pub run_pinutil_status : Text → Run PinStatus
  unfolding status_of_run
  run_pinutil_status username t = (
    ok (status_of_run (env.on_status t username)),
    asked_status username (env.on_status t username) ∷ t,
  )

  -- `run_pinutil_test`
  unfoldable pub run_pinutil_test : Text → Pin → Run (Option PinutilTestOutcome)
  unfolding outcome_of_run
  run_pinutil_test username pin t = (
    ok (outcome_of_run (env.on_test t username pin)),
    tested username pin (env.on_test t username pin) ∷ t,
  )

decoded_success :
    (r : Option (PinError ⊎ (Unit {0})))
    → decoded r ≡ some PinutilTestOutcome.success
    → r ≡ some (inr tt)
unfolding decoded outcome_of
decoded_success none e = cc
decoded_success (some (inr done)) e = refl
decoded_success (some (inl e)) h = ground (arith, h)

-- The module takes a test for a success only when the helper ran to its end and answered `Ok(())`.
pub outcome_of_run-success :
    (run : TestRun)
    → outcome_of_run run ≡ some PinutilTestOutcome.success
    → (run.result ≡ some (inr tt)) × (run.spawned ≡ none) × (run.waited ≡ none)
unfolding outcome_of_run is_fine
outcome_of_run-success run e = ground (arith, decoded_success run.result)
