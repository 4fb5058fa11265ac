-- ===== src/Pinutil/MasterKeys/Consent.antt =====
-- When a command on the master key does nothing (pinutil/src/main.rs).
use pinpam.Base.{
  list_eq_ne, arith, ◌∷◌, inr, ◌==◌, false, err, if◌then◌else◌, true, List, ◌≡◌, ◌≢◌, refl, ◌>>=◌,
  ◌>>◌,
}
use pinpam.Base.Text.{Text, codes, trim}
use pinpam.Core.Error.{
  Notice, permission_denied, term_io_error, states, requires_interactive_confirmation,
  mk_purpose_import, mk_purpose_tpm_clear, mk_purpose_disk_clear,
}
use pinpam.Core.Policy.{PinPolicy}
use pinpam.Core.Util.{Caller}
use pinpam.Core.MasterKey.{Platform}
use pinpam.Pinutil.{line_of, Line, Machine}
use pinpam.Pinutil.MasterKeys.{
  clear_disk, silent, clear_tpm, import_key, json, MasterKeyCommand, Ending, Desk, main, ending,
  command, handle_result, master_key_import_to_tpm, master_key_clear_from_tpm,
  master_key_clear_from_disk, prompt_acknowledgement, prompt_line,
}

module _ (p : Platform) (policy : PinPolicy) (caller : Caller) where
  -- For a caller whose real uid is not 0, every command on the master key ends with the code 1, in
  -- machine mode with `PermissionDenied` as its JSON, and neither the platform nor the input is
  -- touched.
  pub main_denied :
      (machine : Machine) (k : MasterKeyCommand) (s : Desk p)
      → caller.uid ≢ 0
      → main p policy caller machine k s ≡ (
        record { code = 1; stdout = if machine then json (err permission_denied) else silent },
        s,
      )
  unfolding main handle_result
  main_denied machine k s h = let no : (caller.uid == 0) ≡ false = ground (arith, h) in rw no refl

  -- The end of a command that was refused for this reason.
  abbrev pub refused_end : Notice → Ending
  refused_end n = record { code = 1; stdout = json (err (term_io_error (states n))) }

  unattended_refused :
      (s : Desk p)
      → caller.uid ≡ 0
      → (main p policy caller true import_key s
          ≡ (refused_end (requires_interactive_confirmation mk_purpose_import), s))
        × (main p policy caller true clear_tpm s
            ≡ (refused_end (requires_interactive_confirmation mk_purpose_tpm_clear), s))
        × (main p policy caller true clear_disk s
            ≡ (refused_end (requires_interactive_confirmation mk_purpose_disk_clear), s))
  unfolding main handle_result ending command master_key_import_to_tpm master_key_clear_from_tpm
      master_key_clear_from_disk ◌>>=◌ ◌>>◌
  unattended_refused s root = rw root (refl, refl, refl)

  unacknowledged_refused :
      (s : p.State) (text : Text) (lines : List Line)
      → caller.uid ≡ 0
      → trim (trim text) ≢ codes "yes"
      → (main p policy caller false clear_tpm (s, inr text ∷ lines)
          ≡ (record { code = 1; stdout = silent }, (s, lines)))
        × (main p policy caller false clear_disk (s, inr text ∷ lines)
            ≡ (record { code = 1; stdout = silent }, (s, lines)))
  unfolding main handle_result ending command master_key_clear_from_tpm master_key_clear_from_disk
      prompt_acknowledgement prompt_line line_of ◌>>=◌ ◌>>◌
  unacknowledged_refused s text lines root ne =
      rw (root, list_eq_ne (trim (trim text)) (codes "yes") ne) (refl, refl)

  -- For root, the two commands that clear the master key end with the code 1 and leave the
  -- platform alone, in machine mode without reading the input, and on a terminal where the line is
  -- not `yes` once trimmed.
  pub clear_unconfirmed_refused :
      (s : p.State) (text : Text) (lines : List Line)
      → caller.uid ≡ 0
      → trim (trim text) ≢ codes "yes"
      → (main p policy caller true clear_tpm (s, lines)
          ≡ (refused_end (requires_interactive_confirmation mk_purpose_tpm_clear), (s, lines)))
        × (main p policy caller true clear_disk (s, lines)
            ≡ (refused_end (requires_interactive_confirmation mk_purpose_disk_clear), (s, lines)))
        × (main p policy caller false clear_tpm (s, inr text ∷ lines)
            ≡ (record { code = 1; stdout = silent }, (s, lines)))
        × (main p policy caller false clear_disk (s, inr text ∷ lines)
            ≡ (record { code = 1; stdout = silent }, (s, lines)))
  clear_unconfirmed_refused s text lines root ne =
      let u = unattended_refused (s, lines) root in
      let a = unacknowledged_refused s text lines root ne in (u.1, u.2, a.0, a.1)
