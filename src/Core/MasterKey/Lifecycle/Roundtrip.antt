-- ===== src/Core/MasterKey/Lifecycle/Roundtrip.antt =====
-- The master key across its loss and its return (pinpam-core/src/master_key.rs).
use pinpam.Core.Error.{
  mk_sealed_file_already_exists, mk_rsa_parent_already_present_refuse_import, states, notice,
  foreign, io_error, tpm_error, PinError,
}
use pinpam.Base.{◌≤◌, err, ◌≢◌, length, ℕ, some, Outcome, List, ◌≡◌, refl, none, ok}
use pinpam.Base.Text.{Text, as_bytes}
use pinpam.Core.Tpm.Chain.{chain, follow, stop, cease}
use pinpam.Core.Consts.{master_key_sealed_file}
use pinpam.Core.Policy.{PinPolicy}
use pinpam.Core.Util.{Caller}
use pinpam.Core.MasterKey.{Platform}
use pinpam.Core.MasterKey.Laws.{IsReady, Held, Vault}
use pinpam.Core.MasterKey.Objects.Effects.{no_object}
use pinpam.Core.MasterKey.Objects.Provisioned.{rsa, key_handle, without_key}
use pinpam.Core.MasterKey.Sealing.Effects.{unseal_wrong}
use pinpam.Core.MasterKey.Lifecycle.{init, import_to_tpm, clear_from_tpm, derive_user_token}
use pinpam.Core.MasterKey.Lifecycle.Effects.{
  init_taken, status_ends, root_ends, token_of, derive_ends, derive_missing, clear_ends,
}
use pinpam.Core.MasterKey.Lifecycle.Recovery.{IsKept, all_present, init_post, import_ends}
use pinpam.Core.MasterKey.Lifecycle.Effects.{IsFresh}

module _ (p : Platform) (policy : PinPolicy) (c : IsReady p policy) (caller : Caller)
    (root : caller.uid ≡ 0) where
  -- The states after `init`, after `clear_from_tpm`, and after `import_to_tpm`.
  abbrev pub after_init : p.State → p.State
  after_init s = (init p policy caller s).1

  abbrev pub after_clear : p.State → p.State
  after_clear s = (clear_from_tpm p policy caller (after_init s)).1

  abbrev pub after_import : p.State → Text → p.State
  after_import s phrase = (import_to_tpm p policy caller phrase (after_clear s)).1

  abbrev Derives : Text → p.State → Outcome PinError Text → Type 0
  Derives username s r = (derive_user_token p policy username s).0 ≡ r

  kept_on :
      (v : Vault) (phrase : Text) (key : List ℕ)
      → IsKept p policy c v phrase key
      → IsKept p policy c (without_key v) phrase key
  kept_on v phrase key k = record {
    file = k.file;
    in_file = k.in_file;
    seals = k.seals;
    key_length = k.key_length;
  }

  -- On a dependable platform, for root, without objects and without a sealed file: `init` gives a
  -- phrase; after `clear_from_tpm`, `derive_user_token` fails; and after `import_to_tpm` of that
  -- phrase it gives a user, whose name has at most 1024 bytes, the token that it gave after
  -- `init`.
  pub import_to_tpm-init :
      (s : p.State) (username : Text)
      → IsFresh (c.vault s)
      → length (as_bytes username) ≤ 1024
      → (phrase : Text) × (t : Text) × ((init p policy caller s).0
          ≡ ok (record { recovery_phrase = phrase; status = all_present p policy c }))
        × ((derive_user_token p policy username (after_init s)).0 ≡ ok t)
        × ((clear_from_tpm p policy caller (after_init s)).0 ≡ ok tt)
        × ((derive_user_token p policy username (after_clear s)).0 ≡ err no_object)
        × ((import_to_tpm p policy caller phrase (after_clear s)).0 ≡ ok (all_present p policy c))
        × ((derive_user_token p policy username (after_import s phrase)).0 ≡ ok t)
  import_to_tpm-init s username f fits =
      let (phrase, key, made, installed, kept) = init_post p policy c caller root s f in
      let cleared = clear_ends p policy c.prepared caller root (after_init s) _ refl in
      let imported =
        import_ends p policy c caller root phrase key (after_clear s) _ cleared.1 refl refl
          (kept_on (c.vault (after_init s)) phrase key kept) in
      (
        phrase,
        token_of p policy c.prepared key username,
        made,
        (derive_ends p policy c.prepared key username (after_init s) _ refl installed.installed
            fits).0,
        cleared.0,
        (derive_missing p policy c.prepared username (after_clear s) _ cleared.1 refl).0,
        imported.0,
        (derive_ends p policy c.prepared key username (after_import s phrase) _ imported.1 refl
            fits).0,
      )

  -- Nothing happens to the objects and the files.
  abbrev pub IsUnmoved : p.State → p.State → Type 0
  IsUnmoved s s' = c.vault s' ≡ c.vault s

  -- On a dependable platform, for root, without objects and with a sealed file: `import_to_tpm` of
  -- a phrase that is stretched to another key fails with the cipher's error, and the objects and
  -- the files are as they were.
  pub import_to_tpm_wrong :
      (s : p.State) (phrase other : Text) (key : List ℕ)
      (k : IsKept p policy c (c.vault s) phrase key)
      → (c.vault s).objects rsa ≡ none
      → (c.vault s).objects key_handle ≡ none
      → c.stretch (as_bytes other) k.seals.salt ≢ c.stretch (as_bytes phrase) k.seals.salt
      → ((import_to_tpm p policy caller other s).0 ≡ err (io_error (foreign c.aead_error)))
        × IsUnmoved s (import_to_tpm p policy caller other s).1
  unfolding import_to_tpm
  import_to_tpm_wrong s phrase other key k e f ne =
      let v = c.vault s in
      follow c.vault _ _ s (root_ends p policy c.prepared caller root s v refl) λ s₁ h₁.
        chain c.vault _ _ s₁ (status_ends p policy c.prepared s₁ v h₁) λ s₂ h₂.
          follow c.vault _ _ s₂ (rw e (refl, h₂)) λ s₃ h₃.
            follow c.vault _ _ s₃ (rw f (refl, h₃)) λ s₄ h₄.
              follow c.vault _ _ s₄ (rw k.in_file (refl, h₄)) λ s₅ h₅. stop c.vault _ _ s₅ (
                unseal_wrong p policy c.prepared c.saved k.file other phrase key s₅ v k.seals h₅
                  k.in_file ne)

  import_to_tpm_present :
      (s : p.State) (phrase : Text) (x : Held)
      → (c.vault s).objects rsa ≡ some x
      → ((import_to_tpm p policy caller phrase s).0
          ≡ err (tpm_error (notice mk_rsa_parent_already_present_refuse_import)))
        × IsUnmoved s (import_to_tpm p policy caller phrase s).1
  unfolding import_to_tpm
  import_to_tpm_present s phrase x e =
      let v = c.vault s in
      follow c.vault _ _ s (root_ends p policy c.prepared caller root s v refl) λ s₁ h₁.
        chain c.vault _ _ s₁ (status_ends p policy c.prepared s₁ v h₁)
          λ s₂ h₂. cease c.vault _ _ s₂ (rw e (refl, h₂))

  -- On a dependable platform, for root, where the parent is in the TPM and the sealed file is
  -- there: `import_to_tpm` and `init` fail, each with its own error, and the objects and the files
  -- are as they were.
  pub nothing_overwritten :
      (s : p.State) (phrase : Text) (x : Held) (file : List ℕ)
      → (c.vault s).objects rsa ≡ some x
      → (c.vault s).files master_key_sealed_file ≡ some file
      → ((import_to_tpm p policy caller phrase s).0
          ≡ err (tpm_error (notice mk_rsa_parent_already_present_refuse_import)))
        × IsUnmoved s (import_to_tpm p policy caller phrase s).1
        × ((init p policy caller s).0 ≡ err (io_error (states mk_sealed_file_already_exists)))
        × IsUnmoved s (init p policy caller s).1
  nothing_overwritten s phrase x file e f =
      let a = import_to_tpm_present s phrase x e in
      let b = init_taken p policy c.prepared caller root s file f in (a.0, a.1, b.0, b.1)
