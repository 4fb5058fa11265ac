-- ===== src/Pam/Authenticate/Effects.antt =====
-- What an authentication may do: how often it prompts and asks the helper, and when it succeeds.
use pinpam.Core.Pin.Bounds.{new-total}
use pinpam.Core.Error.{PinResult}
use pinpam.Pam.Io.{prompt_hidden-IsHonest, tell-IsHonest, prompt_hidden, tell, IsHonest}
use pinpam.Pam.Authenticate.{
  interactive, prompt_text-some, complaint, checked, ask, after_prompt, prompt_for_pin, Message,
  say, after_test, finalize_outcome,
}
use pinpam.Core.Pin.{Pin}
use pinpam.Base.Text.{Text}
use native.Mathlib.Decide.{dec_lt}
use pinpam.Core.Pin
use pinpam.Base.{
  le→leb, lt→leb, le→ltb, ◌-◌, resume, panic, raise, ◌<◌, ◌>>◌, ◌≢◌, arith, ap, Option, pure, ◌∷◌,
  catch, ◌≤◌, [], ◌≡◌, ◌>>=◌, ◌+◌, Outcome, ℕ, ok, err, none, some, refl, inr,
}
use pinpam.Pam.Env.{
  maxtries, account_locked, auth_err, TestRun, PamReturnCode, Run, Trace, Env, prompted, told,
  asked_status, tested,
}
use pinpam.Pam.Status.{outcome_of_run-success, outcome_of_run, run_pinutil_test, PinutilTestOutcome}

abbrev pub prompts : Trace → ℕ
prompts [] = 0
prompts (prompted message ∷ t) = 1 + prompts t
prompts (told message ∷ t) = prompts t
prompts (asked_status username run ∷ t) = prompts t
prompts (tested username pin run ∷ t) = prompts t

abbrev pub tests : Trace → ℕ
tests [] = 0
tests (prompted message ∷ t) = tests t
tests (told message ∷ t) = tests t
tests (asked_status username run ∷ t) = tests t
tests (tested username pin run ∷ t) = 1 + tests t

-- The last thing that happened is a test that the helper answered with `Ok(())`.
abbrev pub HasPassed : Text → Trace → Type 0
HasPassed username t =
    (pin : Pin) × (run : TestRun) × (before : Trace) × (t ≡ tested username pin run ∷ before)
    × (run.result ≡ some (inr tt))

-- A run that ends with a code, prompts and tests at most so often, and ends with `SUCCESS` only
-- after a test that passed.
abbrev pub IsSafe : Text → ℕ → ℕ → Run PamReturnCode → Trace → Type 0
IsSafe username asks checks m t =
    (code : PamReturnCode) × ((m t).0 ≡ ok code)
    × (prompts (m t).1 ≤ prompts t + asks)
    × (tests (m t).1 ≤ tests t + checks)
    × (code ≡ PamReturnCode.success → HasPassed username (m t).1)

module _ (env : Env) (username : Text) where
  pub say-IsSafe :
      (message : Message) (code : PamReturnCode) (asks checks : ℕ) (t : Trace)
      → code ≢ PamReturnCode.success
      → IsSafe username asks checks (say env message code) t
  unfolding say catch tell
  say-IsSafe message code asks checks t h =
      (code, refl, omega arith, omega arith, λ e. absurd (h e))

  pub pure-IsSafe :
      (code : PamReturnCode) (asks checks : ℕ) (t : Trace)
      → (code ≡ PamReturnCode.success → HasPassed username t)
      → IsSafe username asks checks (pure code) t
  pure-IsSafe code asks checks t h = (code, refl, omega arith, omega arith, h)

  pub finalize-IsSafe :
      (outcome : PinutilTestOutcome) (asks checks : ℕ) (t : Trace)
      → (outcome ≡ PinutilTestOutcome.success → HasPassed username t)
      → IsSafe username asks checks (finalize_outcome env outcome) t
  unfolding finalize_outcome
  finalize-IsSafe PinutilTestOutcome.success asks checks t h =
      pure-IsSafe _ asks checks t (λ e. h refl)
  finalize-IsSafe PinutilTestOutcome.invalid_pin asks checks t h =
      say-IsSafe _ _ asks checks t (λ e. cc)
  finalize-IsSafe PinutilTestOutcome.newly_locked_out asks checks t h =
      say-IsSafe _ _ asks checks t (λ e. cc)
  finalize-IsSafe PinutilTestOutcome.locked_out asks checks t h =
      say-IsSafe _ _ asks checks t (λ e. cc)
  finalize-IsSafe PinutilTestOutcome.not_configured asks checks t h =
      say-IsSafe _ _ asks checks t (λ e. cc)
  finalize-IsSafe PinutilTestOutcome.unavailable asks checks t h =
      say-IsSafe _ _ asks checks t (λ e. cc)

  -- A test by the helper, and what follows it.
  pub test-IsSafe :
      (pin : Pin) (f : Option PinutilTestOutcome → Run PamReturnCode) (asks checks : ℕ) (t : Trace)
      → ((outcome : Option PinutilTestOutcome) (t' : Trace)
          → (outcome ≡ some PinutilTestOutcome.success → HasPassed username t')
          → IsSafe username asks checks (f outcome) t')
      → IsSafe username asks (checks + 1) (run_pinutil_test env username pin >>= f) t
  unfolding ◌>>=◌ run_pinutil_test
  test-IsSafe pin f asks checks t k =
      let run = env.on_test t username pin in
      let q =
        k (outcome_of_run run) (tested username pin run ∷ t)
          (λ e. (pin, run, t, refl, (outcome_of_run-success run e).0)) in
      (q.0, q.1, q.2, omega (arith, q.3), q.4)

  after_test-IsSafe :
      (outcome : Option PinutilTestOutcome) (asks checks : ℕ) (t : Trace)
      → (outcome ≡ some PinutilTestOutcome.success → HasPassed username t)
      → IsSafe username asks checks (after_test env outcome) t
  unfolding after_test
  after_test-IsSafe none asks checks t h = say-IsSafe _ _ asks checks t (λ e. cc)
  after_test-IsSafe (some outcome) asks checks t h =
      finalize-IsSafe outcome asks checks t (λ e. h (ap some e))

  -- A prompt that may be given: it ends with a PIN or a code that is not `SUCCESS`.
  abbrev Asks : Run Pin → Trace → Type 0
  Asks m t = IsHonest (m t).0 × (prompts (m t).1 ≤ prompts t + 1) × (tests (m t).1 ≤ tests t)

  -- The same, from a state on, with no prompt.
  abbrev Keeps : {A : Type 0} → Outcome PamReturnCode A × Trace → Trace → Type 0
  Keeps q t = IsHonest q.0 × (prompts q.1 ≤ prompts t) × (tests q.1 ≤ tests t)

  raised-Keeps :
      (r : Outcome PamReturnCode (Unit {0})) (t : Trace)
      → IsHonest r
      → Keeps {A = Pin} (resume (λ sent. raise auth_err) r t) t
  raised-Keeps (ok sent) t h = (λ e. cc, omega arith, omega arith)
  raised-Keeps (err code) t h = (h, omega arith, omega arith)
  raised-Keeps panic t h = absurd h

  complain-Keeps :
      (message : Message) (t : Trace) → Keeps {A = Pin} ((tell env message >> raise auth_err) t) t
  unfolding ◌>>◌ tell
  complain-Keeps message t =
      raised-Keeps (tell env message t).0 (told message ∷ t) (tell-IsHonest env message t)

  checked-Keeps : (r : PinResult Pin) (t : Trace) → r ≢ panic → Keeps (checked env r t) t
  unfolding checked
  checked-Keeps (ok pin) t h = (tt, omega arith, omega arith)
  checked-Keeps (err e) t h = complain-Keeps (complaint e) t
  checked-Keeps panic t h = absurd (h refl)

  entered-Keeps :
      (r : Outcome PamReturnCode Text) (t : Trace)
      → IsHonest r
      → Keeps (resume (λ pin_text. checked env (Pin.new pin_text env.policy)) r t) t
  entered-Keeps (ok s) t h = checked-Keeps (Pin.new s env.policy) t (new-total s env.policy)
  entered-Keeps (err code) t h = (h, omega arith, omega arith)
  entered-Keeps panic t h = absurd h

  ask-Asks : (text : Message) (t : Trace) → Asks (ask env (some text)) t
  unfolding ask ◌>>=◌ prompt_hidden
  ask-Asks text t =
      let q =
        entered-Keeps (prompt_hidden env text t).0 (prompted text ∷ t)
          (prompt_hidden-IsHonest env text t) in
      (q.0, omega (arith, q.1), q.2)

  -- With an attempt left the subtraction is exact, and there is a prompt for its result.
  prompt_for_pin-Asks :
      (used limit : ℕ) (t : Trace) → used < limit → Asks (prompt_for_pin env used limit) t
  unfolding prompt_for_pin
  prompt_for_pin-Asks used limit t h =
      let p = prompt_text-some (limit - used) (omega arith) in
      rw (le→ltb used limit (omega arith), p.1) (ask-Asks p.0 t)

  entered-IsSafe :
      (r : Outcome PamReturnCode Pin) (t : Trace)
      → IsHonest r
      → IsSafe username 0 1 (after_prompt env username r) t
  unfolding after_prompt
  entered-IsSafe (ok pin) t h =
      test-IsSafe pin (after_test env) 0 0 t (λ outcome t' k. after_test-IsSafe outcome 0 0 t' k)
  entered-IsSafe (err code) t h = pure-IsSafe code 0 1 t (λ e. absurd (h e))
  entered-IsSafe panic t h = absurd h

  after_prompt-IsSafe :
      (m : Run Pin) (t : Trace)
      → Asks m t
      → IsSafe username 1 1 (catch m (after_prompt env username)) t
  unfolding catch
  after_prompt-IsSafe m t (h, p, q) =
      let r = entered-IsSafe (m t).0 (m t).1 h in
      (r.0, r.1, omega (arith, r.2, p), omega (arith, r.3, q), r.4)

  pub interactive-IsSafe :
      (used limit : ℕ) (t : Trace) → IsSafe username 1 1 (interactive env username used limit) t
  unfolding interactive
  interactive-IsSafe used limit t = elim (dec_lt used limit) [
    | yes left ↦ rw (lt→leb used limit left) (
        after_prompt-IsSafe (prompt_for_pin env used limit) t
          (prompt_for_pin-Asks used limit t left))
    | no over ↦
        rw (le→leb limit used (omega arith)) (say-IsSafe account_locked maxtries 1 1 t (λ e. cc))
  ]
