-- ===== src/Pinutil/MasterKeys/Making.antt =====
-- `pinutil master-key init` on a terminal (pinutil/src/main.rs).
use pinpam.Core.Error.{mk_recovery_confirm_mismatch, states, term_io_error, PinError, PinResult}
use pinpam.Core.MasterKey.Lifecycle.{init, MasterKeyInitResult}
use pinpam.Pinutil.{Line}
use pinpam.Base.Text.{trim, Text}
use pinpam.Core.Util.{Caller}
use pinpam.Core.Policy.{PinPolicy}
use pinpam.Core.MasterKey.{Platform}
use pinpam.Base.{
  pure, err, resume, Bool, arith, inl, Bool-cases, List, ◌>>◌, ◌>>=◌, ◌≡◌, ok, inr, ◌∷◌, true,
  false, ℕ, refl, if◌then◌else◌, list_eq, ◌==◌,
}
use pinpam.Core.MasterKey.Laws.{IsReady}
use pinpam.Core.MasterKey.Lifecycle.Recovery.{IsInstalled, IsKept, all_present, init_post}
use pinpam.Core.MasterKey.Lifecycle.Effects.{IsFresh}
use pinpam.Pinutil.MasterKeys.{
  Desk, Ending, command, confirm_phrase, ending, handle_result, init_key, line_of, main,
  master_key_init, on_platform, proceed, prompt_line, prompt_yes_no, key_made,
}
use pinpam.Pinutil.Use.{is_yes}

module _ (p : Platform) (policy : PinPolicy) (c : IsReady p policy) (caller : Caller)
    (root : caller.uid ≡ 0) where
  -- The key is in the TPM, and in the file under the phrase, whether the phrase was repeated or
  -- not; the process ends with 0 if it was.
  abbrev pub Makes : Text → Ending × Desk p → Type 0
  Makes confirm q =
      (phrase : Text) × (key : List ℕ) × (q.0.code
        ≡ (if list_eq (trim (trim confirm)) (trim phrase) then 0 else 1))
      × IsInstalled p policy c (c.vault q.1.0) key
      × IsKept p policy c (c.vault q.1.0) phrase key

  -- The outcome after the phrase was repeated or not.
  abbrev repeated : Text → MasterKeyInitResult → PinResult MasterKeyInitResult
  repeated confirm res =
      if list_eq (trim (trim confirm)) (trim res.recovery_phrase)
      then ok res
      else err (term_io_error (states mk_recovery_confirm_mismatch))

  asked :
      (s : p.State) (answer confirm : Text) (rest : List Line) (res : MasterKeyInitResult)
      → is_yes (trim answer) ≡ true
      → (init p policy caller s).0 ≡ ok res
      → master_key_init p policy caller false (s, inr answer ∷ inr confirm ∷ rest)
        ≡ (repeated confirm res, ((init p policy caller s).1, rest))
  unfolding master_key_init proceed prompt_yes_no prompt_line line_of on_platform confirm_phrase
      ◌>>=◌ ◌>>◌
  asked s answer confirm rest res agreed made =
      elim (Bool-cases (list_eq (trim (trim confirm)) (trim res.recovery_phrase))) [
        | inl same ↦ rw (agreed, made, same) refl
        | inr other ↦ rw (agreed, made, other) refl
      ]

  exit_of :
      (b : Bool) (res : MasterKeyInitResult) (e : PinError) (d : Desk p)
      → (handle_result false
          (resume {S = Desk p} (λ res. pure (key_made res)) (if b then ok res else err e) d).0).code
        ≡ (if b then 0 else 1)
  unfolding handle_result
  exit_of true res e d = refl
  exit_of false res e d = refl

  state_of :
      (b : Bool) (res : MasterKeyInitResult) (e : PinError) (d : Desk p)
      → (resume {S = Desk p} (λ res. pure (key_made res)) (if b then ok res else err e) d).1 ≡ d
  state_of true res e d = refl
  state_of false res e d = refl

  -- On a dependable platform, for root, without objects and without a sealed file, `pinutil
  -- master-key init` on a terminal whose first line agrees: makes the key, in the TPM and in the
  -- file under the phrase, whatever the second line is, and ends with 0 where that line is the
  -- phrase once trimmed, else with 1.
  pub main-Makes :
      (s : p.State) (answer confirm : Text) (rest : List Line)
      → IsFresh (c.vault s)
      → is_yes (trim answer) ≡ true
      → Makes confirm (main p policy caller false init_key (s, inr answer ∷ inr confirm ∷ rest))
  unfolding main command ending ◌>>=◌
  main-Makes s answer confirm rest f agreed =
      let (phrase, key, made, installed, kept) = init_post p policy c caller root s f in
      let guard : (caller.uid == 0) ≡ true = ground (arith, root) in
      let q = asked s answer confirm rest _ agreed made in
      let same = list_eq (trim (trim confirm)) (trim phrase) in
      let res : MasterKeyInitResult = record {
        recovery_phrase = phrase;
        status = all_present p policy c;
      } in
      let mismatch = term_io_error (states mk_recovery_confirm_mismatch) in
      let d : Desk p = ((init p policy caller s).1, rest) in
      rw (guard, q)
        (
          phrase,
          key,
          exit_of _ _ _ _,
          rw (state_of same res mismatch d) installed,
          rw (state_of same res mismatch d) kept,
        )
