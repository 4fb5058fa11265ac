-- ===== src/Core/MasterKey/Lifecycle/Rollback.antt =====
-- `init` where the file of the key cannot be written (pinpam-core/src/master_key.rs).
use pinpam.Core.MasterKey.Objects.{provision_tpm_objects}
use pinpam.Core.MasterKey.Objects.Effects.{ignored, Leaves}
use pinpam.Core.MasterKey.Lifecycle.{init, undo}
use pinpam.Core.Util.{Caller}
use pinpam.Core.MasterKey.Sealing.Effects.{cipher_ends, random_post, library_ends, dir_ends}
use pinpam.Core.Tpm.Chain.{follow, converted, cease, chain}
use pinpam.Core.Consts.{master_key_sealed_file}
use pinpam.Base.Text.{Text}
use pinpam.Core.Error.{mk_sealed_file_already_exists, states, errno, io_error, PinError}
use pinpam.Core.MasterKey.Sealing.{seal_key_bytes_to_path, store}
use pinpam.Base.{
  ap, true, inr, inl, ◌>>◌, ok, pure, on_result, catch, length, ◌⊎◌, arith, ◌∙◌, false, [], ℕ, List,
  none, some, err, Outcome, ◌≡◌,
}
use pinpam.Core.Policy.{PinPolicy}
use pinpam.Core.MasterKey.{Action, SealedMasterKeyFile, Platform}
use pinpam.Core.MasterKey.Lifecycle.Effects.{init_taken, exists_ends, root_ends, clear_ends}
use pinpam.Base.{refl}
use pinpam.Core.MasterKey.Laws.{IsPrepared, IsFull, Vault, put_file, rsa_parent}
use pinpam.Core.MasterKey.Objects.Provisioned.{
  rsa, key_handle, provision_ends, provision_child, without_key,
}
use pinpam.Core.MasterKey.Sealing.Writes.{IsRandom, create_ends}
use pinpam.Core.MasterKey.Post.{Post, then_post, follow_post, some_post, cease_post, failed_post}

module _ (p : Platform) (policy : PinPolicy) (c : IsPrepared p policy)
    (full : IsFull p c.vault c.file_of) where
  abbrev pub no_room : PinError
  no_room = io_error (errno full.no_space)

  -- The objects of `v`, and an empty file.
  abbrev pub IsEmptied : Vault → p.State → Type 0
  IsEmptied v s = c.vault s ≡ put_file v master_key_sealed_file (some [])

  abbrev pub RunsOut : {A : Type 0} → Vault → Outcome PinError A → p.State → Type 0
  RunsOut v r s = (r ≡ err no_room) × IsEmptied v s

  store_fails :
      (sealed : SealedMasterKeyFile) (s : p.State) (v : Vault)
      → c.vault s ≡ v
      → v.files master_key_sealed_file ≡ none
      → Post (store p master_key_sealed_file sealed) s (RunsOut v)
  unfolding store
  store_fails sealed s v h e =
      chain c.vault _ _ s (library_ends p policy c s v h _ (c.to_json_lem sealed)) λ s₁ h₁.
        chain c.vault _ _ s₁ (create_ends p policy c s₁ v h₁ e) λ s₂ h₂. cease c.vault _ _ s₂ (
          converted c.vault _ _ s₂ (
            let q = full.write_all_fails master_key_sealed_file (c.json sealed) s₂ in
            (q.0, q.1 ∙ h₂)))

  seal_fails :
      (phrase : Text) (key : List ℕ) (s : p.State) (v : Vault)
      → c.vault s ≡ v
      → v.files master_key_sealed_file ≡ none
      → Post (seal_key_bytes_to_path p key phrase master_key_sealed_file) s (RunsOut v)
  unfolding seal_key_bytes_to_path
  seal_fails phrase key s v h e =
      follow_post c.vault (RunsOut v) _ _ s (dir_ends p policy c s v h false) λ s₁ h₁.
        some_post c.vault (RunsOut v) _ _ s₁ (IsRandom p policy c v 16)
          (random_post p policy c 16 s₁ v h₁)
          λ salt s₂ k₂.
            some_post c.vault (RunsOut v) _ _ s₂ (IsRandom p policy c v 12)
              (random_post p policy c 12 s₂ v k₂.1)
              λ nonce s₃ k₃.
                then_post c.vault (RunsOut v) _ _ s₃
                  (cipher_ends p policy c s₃ v k₃.1 phrase salt (omega (arith, k₂.0)))
                  λ s₄ h₄.
                    then_post c.vault (RunsOut v) _ _ s₄
                      (library_ends p policy c s₄ v h₄ _ (c.encrypt_lem _ nonce key k₃.0))
                      λ s₅ h₅.
                        then_post c.vault (RunsOut v) _ _ s₅ (refl, h₅)
                          λ s₆ h₆. store_fails _ s₆ v h₆ e

  module _ (caller : Caller) (root : caller.uid ≡ 0) where
    undo_fails :
        (s : p.State) (v : Vault)
        → IsEmptied v s
        → Post (undo p policy caller no_room) s (RunsOut (without_key v))
    unfolding undo
    undo_fails s v h =
        follow c.vault _ _ s (ignored p policy c _ s (clear_ends p policy c caller root s _ h))
          λ s₁ h₁. (refl, h₁)

    -- Sealing and what follows it in `init`, once the key is in the TPM.
    sealed_fails :
        {A : Type 0} (rest : Action p A) (phrase : Text) (key : List ℕ) (s : p.State) (v : Vault)
        → c.vault s ≡ v
        → v.files master_key_sealed_file ≡ none
        → Post
            (catch
                (seal_key_bytes_to_path p key phrase master_key_sealed_file)
                (on_result pure (undo p policy caller))
              >> rest)
            s
            (RunsOut (without_key v))
    sealed_fails rest phrase key s v h e = cease_post (IsEmptied (without_key v)) _ rest s no_room (
        failed_post (RunsOut (without_key v)) (IsEmptied v) _ (undo p policy caller) s no_room
          (seal_fails phrase key s v h e) λ s' h'. undo_fails s' v h')

    -- The parent is there or not; the key is made.
    provided :
        (key : List ℕ) (s : p.State) (v : Vault)
        → length key ≡ 32
        → c.vault s ≡ v
        → (v.objects rsa ≡ none) ⊎ (v.objects rsa ≡ some rsa_parent)
        → v.objects key_handle ≡ none
        → (w : Vault) × (w.files ≡ v.files)
          × Leaves p policy c (provision_tpm_objects p policy key) s (ok tt) w
    provided key s v len h (inl free) f = (_, refl, provision_ends p policy c key s v len h free f)
    provided key s v len h (inr held) f = (_, refl, provision_child p policy c key s v len h held f)

    abbrev pub IsStuck : p.State → Type 0
    IsStuck s =
        ((c.vault s).objects rsa ≡ none)
        × ((c.vault s).objects key_handle ≡ none)
        × ((c.vault s).files master_key_sealed_file ≡ some [])

    abbrev Ended : {A : Type 0} → Outcome PinError A → p.State → Type 0
    Ended r s = (r ≡ err no_room) × IsStuck s

    rolled_back : (v : Vault) (s : p.State) → IsEmptied (without_key v) s → IsStuck s
    rolled_back v s h = (
      ap (λ w. w.objects rsa) h,
      ap (λ w. w.objects key_handle) h,
      ap (λ w. w.files master_key_sealed_file) h,
    )

    init_fails :
        (s : p.State)
        → ((c.vault s).objects rsa ≡ none) ⊎ ((c.vault s).objects rsa ≡ some rsa_parent)
        → (c.vault s).objects key_handle ≡ none
        → (c.vault s).files master_key_sealed_file ≡ none
        → Post (init p policy caller) s Ended
    unfolding init
    init_fails s parent f e =
        let v = c.vault s in
        follow_post c.vault Ended _ _ s (root_ends p policy c caller root s v refl) λ s₁ h₁.
          then_post c.vault Ended _ _ s₁ {a = false} (exists_ends p policy c s₁ v none h₁ e)
            λ s₂ h₂.
              follow_post c.vault Ended _ _ s₂ (refl, h₂)
                λ s₃ h₃.
                  some_post c.vault Ended _ _ s₃ (IsRandom p policy c v 32)
                    (random_post p policy c 32 s₃ v h₃)
                    λ key s₄ k₄.
                      then_post c.vault Ended _ _ s₄
                        (converted c.vault _ _ s₄
                          (let q = c.generate_mnemonic_lem s₄ in (q.0, q.1 ∙ k₄.1)))
                        λ s₅ h₅.
                          let w = provided key s₅ v k₄.0 h₅ parent f in
                          follow_post c.vault Ended _ _ s₅ w.2 λ s₆ h₆.
                            follow_post c.vault Ended _ _ s₆
                              (ignored p policy c _ s₆ (dir_ends p policy c s₆ _ h₆ true))
                              λ s₇ h₇.
                                let q =
                                  sealed_fails _ (c.mnemonic s₄) key s₇ w.0 h₇
                                    (ap (λ u. u master_key_sealed_file) w.1 ∙ e) in
                                (q.0, rolled_back w.0 _ q.1)

    -- On a platform that is dependable but for a full disk, for root, without the HMAC key and the
    -- sealed file, and with the RSA parent or without: `init` fails with the error of the write;
    -- it leaves neither object, not even a parent that was there before, and an empty sealed file;
    -- and a second `init` fails because that file is there.
    pub init_rolled_back :
        (s : p.State)
        → ((c.vault s).objects rsa ≡ none) ⊎ ((c.vault s).objects rsa ≡ some rsa_parent)
        → (c.vault s).objects key_handle ≡ none
        → (c.vault s).files master_key_sealed_file ≡ none
        → let s' = (init p policy caller s).1 in
          ((init p policy caller s).0 ≡ err no_room)
          × IsStuck s'
          × ((init p policy caller s').0 ≡ err (io_error (states mk_sealed_file_already_exists)))
    init_rolled_back s parent f e =
        let q = init_fails s parent f e in
        let s' = (init p policy caller s).1 in
        (q.0, q.1, (init_taken p policy c caller root s' [] q.1.2).0)
