-- ===== src/Pam/Authenticate/Stacked.antt =====
-- An authentication with the PIN of the module before this one, with pinutil as the helper
-- (pinpam-pam/src/lib.rs, pinutil/src/main.rs).
use pinpam.Pam.Io.{tell}
use pinpam.Pam.Args.{FirstPassDecision, ModuleArgs, decide_first_pass, wants_first_pass}
use pinpam.Core.Tpm.Laws.{max_auth}
use pinpam.Core.Manager.Accounts.{Stores}
use pinpam.Pam.Env.{Env, tested, auth_err, maxtries, Trace, PamReturnCode}
use pinpam.Core.Pin.{as_bytes, as_str, Pin, new}
use pinpam.Base.Text.{trim, Text}
use pinpam.Core.Util.{can_attempt_pin, get_uid_from_username, Caller}
use pinpam.Pinutil.Main.{done, as_value}
use pinpam.Core.Consts.{pin_version_uid_max}
use pinpam.Core.Error.{PinResult}
use pinpam.Core.Policy.{PinPolicy}
use pinpam.Core.Manager.Connected.{IsConnected}
use pinpam.Core.Manager.{PinManager}
use pinpam.Core.Account.{refused, accepted, rejected, Account, guess, Answer}
use pinpam.Pinutil.MasterKeys.{Ending, handle_result}
use pinpam.Base.{
  ◌∷◌, inr, inl, Bool-cases, ◌>>=◌, catch, length, Outcome, Bool, ok, arith, some, ◌<◌, ◌+◌, false,
  ◌≡◌, ◌≤◌, true, ◌≢◌, List, ℕ, refl,
}
use pinpam.Login.{pin_line, run_of_test, on_test, replay, with_helper}
use pinpam.Login.Helper.{on_test_ends, new-pin_line, has_newline}
use pinpam.Pam.Authenticate.Entered.{
  code_of, Answers, kept_account, interactive_ends, reported, guess-NotRefused,
}
use pinpam.Pam.Authenticate.{
  saturating_add, authenticate_user, on_uid, on_status as on_status_of, on_decision,
  after_first_pass, finalize_outcome, say,
}
use pinpam.Pinutil.Verification.{Reports}
use pinpam.Pam.Status.{
  PinutilTestOutcome, newly_locked_out, invalid_pin, outcome_of_run, outcome_of, is_sent, is_fine,
  decoded, run_pinutil_status, run_pinutil_test,
}

-- What the module makes of the helper's answer.
abbrev outcome_for : Answer → PinutilTestOutcome
outcome_for accepted = PinutilTestOutcome.success
outcome_for (rejected true) = newly_locked_out
outcome_for (rejected false) = invalid_pin
outcome_for refused = PinutilTestOutcome.locked_out

heard :
    (answer : Answer) (q : PinResult (Unit {0})) (e : Ending)
    → Reports answer q
    → answer ≢ refused
    → e ≡ handle_result true (as_value done q)
    → outcome_of_run (run_of_test e) ≡ some (outcome_for answer)
unfolding outcome_of_run outcome_of is_sent is_fine decoded run_of_test handle_result
heard accepted q e r n h = rw (h, r) refl
heard (rejected true) q e r n h = rw (h, r) refl
heard (rejected false) q e r n h = rw (h, r) refl
heard refused q e r n h = absurd (n refl)

-- After a rejected guess that was not the last, one more failure is counted and one more guess is left.
open_after :
    (a : Account) (pin : List ℕ) (b : Account)
    → guess a pin ≡ (rejected false, b)
    → (b.failures ≡ a.failures + 1) × (b.limit ≡ a.limit) × (b.failures < b.limit)
unfolding guess
open_after a pin b e = (ground (arith, e), ground (arith, e), ground (arith, e))

taken_first :
    (args : ModuleArgs) (token : Text) (policy : PinPolicy) (pin : Pin)
    → wants_first_pass args ≡ true
    → new token policy ≡ ok pin
    → decide_first_pass args (some token) policy ≡ FirstPassDecision.try_first_pass pin
unfolding decide_first_pass
taken_first args token policy pin w e = rw (w, e) refl

module _ (m : PinManager) (c : IsConnected m) (uid : ℕ) (range : uid ≤ pin_version_uid_max)
    (helper : Caller) (username : Text) (found : get_uid_from_username helper username ≡ ok uid)
    (may : can_attempt_pin helper uid ≡ true) (base : Env) (s : m.tpm.State) (a : Account)
    (left : a.failures < a.limit) (first second : Pin) where
  -- The authentication ends as one guess does, or as two do where the first is not the last that
  -- was left and a prompt is allowed.
  abbrev pub EndsAsTwo :
      Bool → Answer × Account → Outcome PamReturnCode PamReturnCode × Trace → Type 0
  EndsAsTwo only (accepted, b) q =
      (q.0 ≡ ok PamReturnCode.success) × Stores m c (c.nv (replay m helper s q.1)) uid (some b)
  EndsAsTwo only (rejected true, b) q =
      (q.0 ≡ ok maxtries) × Stores m c (c.nv (replay m helper s q.1)) uid (some b)
  EndsAsTwo true (rejected false, b) q =
      (q.0 ≡ ok auth_err) × Stores m c (c.nv (replay m helper s q.1)) uid (some b)
  EndsAsTwo false (rejected false, b) q =
      (q.0 ≡ ok (code_of (guess b (as_bytes second)).0))
      × Stores m c (c.nv (replay m helper s q.1)) uid (some (guess b (as_bytes second)).1)
  EndsAsTwo only (refused, b) q = ⊥

  module _ (answer : Text) (h : Answers base answer)
      (accepted_pin : new (trim answer) m.policy ≡ ok second) (same : base.policy ≡ m.policy)
      (n : has_newline (as_str second) ≡ false) (fits : length (as_bytes second) ≤ max_auth) where
    -- After the helper's answer to the first PIN.
    continued :
        (args : ModuleArgs) (reply : Answer) (b : Account) (t : Trace)
        → guess a (as_bytes first) ≡ (reply, b)
        → reply ≢ refused
        → Stores m c (c.nv (replay m helper s t)) uid (some b)
        → EndsAsTwo args.use_first_pass
            (reply, b)
            (after_first_pass
              (with_helper m helper base s)
              username
              args
              a.failures
              a.limit
              (some (outcome_for reply))
              t)
    unfolding after_first_pass finalize_outcome say catch tell replay
    continued args accepted b t g ne k = (refl, k)
    continued args (rejected true) b t g ne k = (refl, k)
    continued args refused b t g ne k = absurd (ne refl)
    continued args (rejected false) b t g ne k =
        let o = open_after a (as_bytes first) b g in
        elim (Bool-cases args.use_first_pass) [
          | inl only ↦ rw only (refl, k)
          | inr free ↦
              let next : saturating_add a.failures 1 ≡ b.failures =
                ground (arith, o.0, o.1, o.2, k.2.small) in
              rw (free, next, ← o.1)
                (interactive_ends m c uid range helper username found may base s b o.2 second answer
                  h accepted_pin same t n fits k)
        ]

    tried :
        (args : ModuleArgs) (t : Trace)
        → new (pin_line first) m.policy ≡ ok first
        → length (as_bytes first) ≤ max_auth
        → Stores m c (c.nv (replay m helper s t)) uid (some a)
        → EndsAsTwo args.use_first_pass (guess a (as_bytes first)) (
            on_decision
              (with_helper m helper base s)
              username
              args
              a.failures
              a.limit
              (FirstPassDecision.try_first_pass first)
              t)
    unfolding on_decision run_pinutil_test ◌>>=◌ replay
    tried args t e fits_first k =
        let q =
          on_test_ends m c uid range helper username found (replay m helper s t) a first may e
            fits_first k left in
        let run = (on_test m helper username first (replay m helper s t)).0 in
        let ne = guess-NotRefused a (as_bytes first) left in
        rw (heard (guess a (as_bytes first)).0 q.0 run q.1 ne q.2) (
          continued args (guess a (as_bytes first)).0 (guess a (as_bytes first)).1
            (tested username first (run_of_test run) ∷ t) refl ne q.3)

    -- The PAM module with pinutil as its helper, on a reliable TPM, for a user with an account in
    -- the current format with attempts left, whom the module knows and whose PIN the helper may
    -- try: where a first pass is wanted, a PIN was passed on, each conversation succeeds, and the
    -- policy, the same for both, accepts what was passed on and what is entered as PINs of at most
    -- 64 bytes without a newline, `authenticate_user` guesses with the first PIN. It ends with
    -- `SUCCESS` where that is accepted, with `MAXTRIES` where it was the last attempt, and else
    -- with `AUTH_ERR` under `use_first_pass`, and otherwise as a second guess with the PIN entered
    -- does; the account is left as these guesses leave it.
    pub authenticate_user_stacked :
        (args : ModuleArgs) (token : Text) (t : Trace) (known : ℕ)
        → wants_first_pass args ≡ true
        → get_uid_from_username base.caller username ≡ ok known
        → new token m.policy ≡ ok first
        → has_newline (as_str first) ≡ false
        → length (as_bytes first) ≤ max_auth
        → Stores m c (c.nv (replay m helper s t)) uid (some a)
        → EndsAsTwo args.use_first_pass
            (guess a (as_bytes first))
            (authenticate_user (with_helper m helper base s) username args (some token) t)
    unfolding authenticate_user on_uid on_status_of run_pinutil_status ◌>>=◌ replay
    authenticate_user_stacked args token t known w e taken n₀ fits_first k =
        rw
          (
            e,
            reported m c uid range helper username found may base s a left second answer h
                accepted_pin same t k.2.small k,
            taken_first args token base.policy first w (rw same taken),
          )
          (tried args _ (new-pin_line token m.policy first taken n₀) fits_first (
            kept_account m c uid range helper username found may base s a left second
              (replay m helper s t) k))
