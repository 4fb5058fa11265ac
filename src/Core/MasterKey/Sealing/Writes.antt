-- ===== src/Core/MasterKey/Sealing/Writes.antt =====
-- The file that sealing leaves, on a dependable platform (pinpam-core/src/master_key.rs).
use pinpam.Core.Error.{PinError}
use pinpam.Base.Text.{Text}
use pinpam.Base.{
  false, arith, Outcome, [], ◌∷◌, ◌++◌, some, length, ◌≡◌, List, ℕ, ◌>>◌, refl, none, ok, ap, ◌∙◌,
}
use pinpam.Core.Tpm.Chain.{follow, converted}
use pinpam.Core.Consts.{master_key_sealed_file}
use pinpam.Core.Policy.{PinPolicy}
use pinpam.Core.MasterKey.{Platform, Action, ignore}
use pinpam.Core.MasterKey.Post.{ends_post, Post, then_post, follow_post, some_post}
use pinpam.Core.MasterKey.Laws.{IsPrepared, IsSaved, Vault, put_file}
use pinpam.Core.MasterKey.Objects.Effects.{Leaves, ignored}
use pinpam.Core.MasterKey.Sealing.{store, system, seal_key_bytes_to_path}
use pinpam.Core.MasterKey.Sealing.Effects.{
  sealed_file, Seals, library_ends, cipher_ends, dir_ends, random_post,
}

-- What follows the writes of `store`.
abbrev protect : (p : Platform) → Action p (Unit {0})
protect p =
    ignore (p.set_permissions master_key_sealed_file 0x180)
    >> ignore (p.chown master_key_sealed_file 0 0)

module _ (p : Platform) (policy : PinPolicy) (c : IsPrepared p policy) where
  -- The key is in the file, and the objects are as they were.
  abbrev pub IsFilled : Vault → Text → List ℕ → p.State → Type 0
  IsFilled v phrase key s =
      ((c.vault s).objects ≡ v.objects)
      × (file : List ℕ) × ((c.vault s).files master_key_sealed_file ≡ some file)
      × Seals p policy c file phrase key

  abbrev pub IsWritten : Vault → Text → List ℕ → Outcome PinError (Unit {0}) → p.State → Type 0
  IsWritten v phrase key r s = (r ≡ ok tt) × (IsFilled v phrase key s)

  pub create_ends :
      (s : p.State) (v : Vault)
      → c.vault s ≡ v
      → v.files master_key_sealed_file ≡ none
      → Leaves p policy c
          (system p (p.create_new master_key_sealed_file 0x180))
          s
          (ok (c.file_of master_key_sealed_file))
          (put_file v master_key_sealed_file (some []))
  create_ends s v h e =
      converted c.vault _ (p.create_new master_key_sealed_file 0x180) s
        {r = ok (c.file_of master_key_sealed_file)}
        (rw (← h) (c.create_new_lem master_key_sealed_file 0x180 s (rw h e)))

  protect_ends :
      (s : p.State) (v : Vault) → c.vault s ≡ v → Leaves p policy c (protect p) s (ok tt) v
  protect_ends s v h =
      follow c.vault _ _ s
        (ignored p policy c _ s
          (let q = c.set_permissions_lem master_key_sealed_file 0x180 s in (q.0, q.1 ∙ h)))
        λ s' h'.
          ignored p policy c _ s'
            (let q = c.chown_lem master_key_sealed_file 0 0 s' in (q.0, q.1 ∙ h'))

  abbrev pub IsRandom : Vault → ℕ → List ℕ → p.State → Type 0
  IsRandom v n bytes s = (length bytes ≡ n) × (c.vault s ≡ v)

  module _ (d : IsSaved p c.vault c.file_of) where
    append_ends :
        (old bytes : List ℕ) (s : p.State) (v : Vault)
        → c.vault s ≡ v
        → v.files master_key_sealed_file ≡ some old
        → Leaves p policy c
            (system p (p.write_all (c.file_of master_key_sealed_file) bytes))
            s
            (ok tt)
            (put_file v master_key_sealed_file (some (old ++ bytes)))
    append_ends old bytes s v h e =
        converted c.vault _ (p.write_all (c.file_of master_key_sealed_file) bytes) s {r = ok tt}
          (rw (← h) (d.write_all_lem master_key_sealed_file old bytes s (rw h e)))

    store_post :
        (phrase : Text) (key salt nonce : List ℕ) (s : p.State) (v : Vault) (now : ℕ)
        → c.vault s ≡ v
        → length salt ≡ 16
        → length nonce ≡ 12
        → v.files master_key_sealed_file ≡ none
        → Post
            (store p master_key_sealed_file (sealed_file p policy c phrase key now salt nonce))
            s
            (IsWritten v phrase key)
    unfolding store
    store_post phrase key salt nonce s v now h sl nl e =
        let sealed = sealed_file p policy c phrase key now salt nonce in
        then_post c.vault (IsWritten v phrase key) _ _ s
          (library_ends p policy c s v h _ (c.to_json_lem sealed))
          λ s₁ h₁.
            then_post c.vault (IsWritten v phrase key) _ _ s₁ (create_ends s₁ v h₁ e) λ s₂ h₂.
              follow_post c.vault (IsWritten v phrase key) _ _ s₂
                (append_ends [] (c.json sealed) s₂ _ h₂ refl)
                λ s₃ h₃.
                  follow_post c.vault (IsWritten v phrase key) _ _ s₃
                    (append_ends (c.json sealed) (b'\n' ∷ []) s₃ _ h₃ refl)
                    λ s₄ h₄.
                      ends_post c.vault (IsWritten v phrase key) (protect p) s₄
                        (protect_ends s₄ _ h₄)
                        λ s₅ h₅. (
                          refl,
                          (
                            ap (λ w. w.objects) h₅,
                            c.json sealed ++ (b'\n' ∷ []),
                            ap (λ w. w.files master_key_sealed_file) h₅,
                            record {
                              now = now;
                              salt = salt;
                              nonce = nonce;
                              salt_length = sl;
                              nonce_length = nl;
                              is_sealed = refl;
                            },
                          ),
                        )

    pub seal_post :
        (phrase : Text) (key : List ℕ) (s : p.State) (v : Vault)
        → c.vault s ≡ v
        → v.files master_key_sealed_file ≡ none
        → Post
            (seal_key_bytes_to_path p key phrase master_key_sealed_file)
            s
            (IsWritten v phrase key)
    unfolding seal_key_bytes_to_path
    seal_post phrase key s v h e =
        follow_post c.vault (IsWritten v phrase key) _ _ s (dir_ends p policy c s v h false)
          λ s₁ h₁.
            some_post c.vault (IsWritten v phrase key) _ _ s₁ (IsRandom v 16)
              (random_post p policy c 16 s₁ v h₁)
              λ salt s₂ k₂.
                some_post c.vault (IsWritten v phrase key) _ _ s₂ (IsRandom v 12)
                  (random_post p policy c 12 s₂ v k₂.1)
                  λ nonce s₃ k₃.
                    then_post c.vault (IsWritten v phrase key) _ _ s₃
                      (cipher_ends p policy c s₃ v k₃.1 phrase salt (omega (arith, k₂.0)))
                      λ s₄ h₄.
                        then_post c.vault (IsWritten v phrase key) _ _ s₄
                          (library_ends p policy c s₄ v h₄ _ (c.encrypt_lem _ nonce key k₃.0))
                          λ s₅ h₅.
                            then_post c.vault (IsWritten v phrase key) _ _ s₅ (refl, h₅)
                              λ s₆ h₆. store_post phrase key salt nonce s₆ v _ h₆ k₂.0 k₃.0 e
