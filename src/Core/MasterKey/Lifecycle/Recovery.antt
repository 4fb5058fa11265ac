-- ===== src/Core/MasterKey/Lifecycle/Recovery.antt =====
-- The key that `init` makes, and its return from the recovery phrase.
use pinpam.Core.Error.{PinError}
use pinpam.Base.{Option, length, some, false, ℕ, List, ◌≡◌, Outcome, true, refl, none, ok, ap, ◌∙◌}
use pinpam.Base.Text.{Text}
use pinpam.Core.Tpm.Chain.{chain, follow, converted}
use pinpam.Core.Consts.{master_key_sealed_file}
use pinpam.Core.Policy.{PinPolicy}
use pinpam.Core.Util.{Caller}
use pinpam.Core.MasterKey.{Platform}
use pinpam.Core.MasterKey.Post.{
  Post, then_post, follow_post, some_post, follow_some_post, kept_post,
}
use pinpam.Core.MasterKey.Laws.{hmac_key, rsa_parent, IsReady, Vault, is_some}
use pinpam.Core.MasterKey.Objects.Effects.{Leaves, ignored}
use pinpam.Core.MasterKey.Objects.Provisioned.{rsa, key_handle, with_key, provision_ends}
use pinpam.Core.MasterKey.Sealing.Effects.{Seals, unseal_ends, random_post, dir_ends}
use pinpam.Core.MasterKey.Sealing.Writes.{IsFilled, seal_post, IsRandom}
use pinpam.Core.MasterKey.Sealing.{seal_key_bytes_to_path}
use pinpam.Core.MasterKey.Lifecycle.{
  MasterKeyStatus, MasterKeyInitResult, init, import_to_tpm, undo,
}
use pinpam.Core.MasterKey.Lifecycle.Effects.{
  exists_ends, IsFresh, status_of, status_ends, root_ends,
}

module _ (p : Platform) (policy : PinPolicy) (c : IsReady p policy) where
  -- The file of the key, sealed under the phrase.
  pub record IsKept (v : Vault) (phrase : Text) (key : List ℕ) : Type 0 where
    pub file : List ℕ
    pub in_file : v.files master_key_sealed_file ≡ some file
    pub seals : Seals p policy c.prepared file phrase key
    pub key_length : length key ≡ 32

  -- Both objects, the second with the key.
  pub record IsInstalled (v : Vault) (key : List ℕ) : Type 0 where
    pub parent : v.objects rsa ≡ some rsa_parent
    pub installed : v.objects key_handle ≡ some (hmac_key key)

  abbrev pub all_present : MasterKeyStatus
  all_present = record {
    sealed_file_present = true;
    rsa_parent_present = true;
    hmac_key_present = true;
  }

  -- What `init` leaves.
  abbrev pub Initialised : Outcome PinError MasterKeyInitResult → p.State → Type 0
  Initialised r s =
      (phrase : Text) × (key : List ℕ) × (r
        ≡ ok (record { recovery_phrase = phrase; status = all_present }))
      × IsInstalled (c.vault s) key
      × IsKept (c.vault s) phrase key

  abbrev status_with : Option (List ℕ) → MasterKeyStatus
  status_with o = record {
    sealed_file_present = is_some o;
    rsa_parent_present = true;
    hmac_key_present = true;
  }

  status_of-filled :
      (v : Vault) (key : List ℕ) (u : Vault) (file : List ℕ)
      → u.objects ≡ (with_key v key).objects
      → u.files master_key_sealed_file ≡ some file
      → status_of p policy c.prepared u ≡ all_present
  status_of-filled v key u file o f = rw (o, f) refl

  concluded :
      (v : Vault) (key : List ℕ) (phrase : Text) (s s' : p.State)
      → length key ≡ 32
      → IsFilled p policy c.prepared (with_key v key) phrase key s
      → c.vault s' ≡ c.vault s
      → Initialised
          (ok (record {
            recovery_phrase = phrase;
            status = status_of p policy c.prepared (c.vault s);
          }))
          s'
  concluded v key phrase s s' len (o, file, f, seals) h = (
    phrase,
    key,
    ap (λ x. ok (record { recovery_phrase = phrase; status = x }))
        (status_of-filled v key (c.vault s) file o f),
    record { parent = rw (h, o) refl; installed = rw (h, o) refl },
    record { file = file; in_file = rw (h, f) refl; seals = seals; key_length = len },
  )

  module _ (caller : Caller) (root : caller.uid ≡ 0) where
    pub init_post : (s : p.State) → IsFresh (c.vault s) → Post (init p policy caller) s Initialised
    unfolding init
    init_post s f =
        let v = c.vault s in
        follow_post c.vault Initialised _ _ s (root_ends p policy c.prepared caller root s v refl)
          λ s₁ h₁.
            then_post c.vault Initialised _ _ s₁ {a = false}
              (exists_ends p policy c.prepared s₁ v none h₁ f.no_file)
              λ s₂ h₂.
                follow_post c.vault Initialised _ _ s₂ (refl, h₂)
                  λ s₃ h₃.
                    some_post c.vault Initialised _ _ s₃ (IsRandom p policy c.prepared v 32)
                      (random_post p policy c.prepared 32 s₃ v h₃)
                      λ key s₄ k₄.
                        then_post c.vault Initialised _ _ s₄
                          (converted c.vault _ _ s₄
                            (let q = c.generate_mnemonic_lem s₄ in (q.0, q.1 ∙ k₄.1)))
                          λ s₅ h₅.
                            follow_post c.vault Initialised _ _ s₅
                              (provision_ends p policy c.prepared key s₅ v k₄.0 h₅ f.no_parent
                                f.no_key)
                              λ s₆ h₆.
                                follow_post c.vault Initialised _ _ s₆
                                  (ignored p policy c.prepared _ s₆
                                    (dir_ends p policy c.prepared s₆ _ h₆ true))
                                  λ s₇ h₇.
                                    follow_some_post Initialised
                                      (IsFilled p policy c.prepared (with_key v key) (c.mnemonic s₄)
                                        key)
                                      _ _ s₇ tt
                                      (kept_post
                                        (IsFilled p policy c.prepared (with_key v key)
                                          (c.mnemonic s₄) key)
                                        (seal_key_bytes_to_path p key (c.mnemonic s₄)
                                          master_key_sealed_file)
                                        (undo p policy caller) s₇ tt
                                        (seal_post p policy c.prepared c.saved (c.mnemonic s₄) key
                                          s₇ _ h₇ f.no_file))
                                      λ s₈ w.
                                        then_post c.vault Initialised _ _ s₈
                                          (status_ends p policy c.prepared s₈ (c.vault s₈) refl)
                                          λ s₉ h₉. concluded v key (c.mnemonic s₄) s₈ s₉ k₄.0 w h₉

    pub import_ends :
        (phrase : Text) (key : List ℕ) (s : p.State) (v : Vault)
        → c.vault s ≡ v
        → v.objects rsa ≡ none
        → v.objects key_handle ≡ none
        → IsKept v phrase key
        → Leaves p policy c.prepared
            (import_to_tpm p policy caller phrase)
            s
            (ok all_present)
            (with_key v key)
    unfolding import_to_tpm
    import_ends phrase key s v h e f k =
        follow c.vault _ _ s (root_ends p policy c.prepared caller root s v h) λ s₁ h₁.
          chain c.vault _ _ s₁ (status_ends p policy c.prepared s₁ v h₁) λ s₂ h₂.
            follow c.vault _ _ s₂ (rw e (refl, h₂)) λ s₃ h₃.
              follow c.vault _ _ s₃ (rw f (refl, h₃)) λ s₄ h₄.
                follow c.vault _ _ s₄ (rw k.in_file (refl, h₄)) λ s₅ h₅.
                  chain c.vault _ _ s₅
                    (unseal_ends p policy c.prepared c.saved k.file phrase key s₅ v h₅ k.in_file
                      k.seals)
                    λ s₆ h₆. follow c.vault _ _ s₆ (rw k.key_length (refl, h₆)) λ s₇ h₇.
                      follow c.vault _ _ s₇
                        (provision_ends p policy c.prepared key s₇ v k.key_length h₇ e f)
                        λ s₈ h₈.
                          rw (← ap (λ o. status_with o) k.in_file)
                            (status_ends p policy c.prepared s₈ (with_key v key) h₈)
