-- ===== src/Core/MasterKey/Sealing/Effects.antt =====
-- What sealing and unsealing do on a dependable platform.
use pinpam.Core.Error.{foreign, io_error, PinError}
use pinpam.Base.Text.{Text}
use pinpam.Base.{
  false, true, arith, pure, err, map_err, Outcome, if◌then◌else◌, ◌≢◌, [], ◌∷◌, ◌++◌, some, length,
  Bool, ◌≤◌, ◌≡◌, List, ℕ, ◌>>◌, refl, ok, ap, ◌∙◌,
}
use pinpam.Base.Text.{as_bytes}
use pinpam.Core.Tpm.Chain.{chain, follow, converted}
use pinpam.Core.Consts.{master_key_sealed_file}
use pinpam.Core.Policy.{PinPolicy}
use pinpam.Core.MasterKey.{Platform, ignore, SealedMasterKeyFile}
use pinpam.Core.MasterKey.Post.{Post}
use pinpam.Core.MasterKey.Laws.{IsPrepared, IsSaved, Vault}
use pinpam.Core.MasterKey.Objects.Effects.{Leaves, ignored}
use pinpam.Core.MasterKey.Sealing.{
  random, library, system, cipher_for, derive_aes_key_from_phrase, unseal_key_bytes_from_path,
  unseal, ensure_dir_for_path, ensure_parent,
}

module _ (p : Platform) (policy : PinPolicy) (c : IsPrepared p policy) where
  abbrev pub aes_key : Text → List ℕ → List ℕ
  aes_key phrase salt = c.stretch (as_bytes phrase) salt

  -- The file of a key that is sealed under a phrase.
  abbrev pub sealed_file : Text → List ℕ → ℕ → List ℕ → List ℕ → SealedMasterKeyFile
  sealed_file phrase key now salt nonce = record {
    version = 1;
    created_unix_ms = now;
    salt_b64 = p.encode_b64 salt;
    nonce_b64 = p.encode_b64 nonce;
    ciphertext_b64 = p.encode_b64 (c.closed (aes_key phrase salt) nonce key);
  }

  pub record Seals (file : List ℕ) (phrase : Text) (key : List ℕ) : Type 0 where
    pub now : ℕ
    pub salt : List ℕ
    pub nonce : List ℕ
    pub salt_length : length salt ≡ 16
    pub nonce_length : length nonce ≡ 12
    pub is_sealed : file ≡ c.json (sealed_file phrase key now salt nonce) ++ (b'\n' ∷ [])

  derived :
      (phrase : Text) (salt : List ℕ)
      → 8 ≤ length salt
      → derive_aes_key_from_phrase p phrase salt ≡ ok (aes_key phrase salt)
  unfolding derive_aes_key_from_phrase
  derived phrase salt len = rw c.argon2_params_lem (c.hash_password_lem (as_bytes phrase) salt len)

  module _ (s : p.State) (v : Vault) (h : c.vault s ≡ v) where
    pub library_ends :
        {A : Type 0} (r : Outcome Text A) {a : A}
        → r ≡ ok a
        → Leaves p policy c (library p r) s (ok a) v
    library_ends r e = (ap (map_err (λ x. io_error (foreign x))) e, h)

    pub cipher_ends :
        (phrase : Text) (salt : List ℕ)
        → 8 ≤ length salt
        → Leaves p policy c (cipher_for p phrase salt) s (ok (c.cipher (aes_key phrase salt))) v
    unfolding cipher_for derive_aes_key_from_phrase
    cipher_ends phrase salt len =
        chain c.vault _ _ s (library_ends _ (derived phrase salt len)) λ s' h'. (
          ap (map_err (λ x. io_error (foreign x)))
              (c.cipher_of_lem (aes_key phrase salt) (c.stretch-length (as_bytes phrase) salt)),
          h',
        )

    tightened :
        (tighten : Bool)
        → Leaves p policy c
            (if tighten
              then ignore {F = PinError} (p.set_permissions c.directory 0x1c0)
                >> ignore (p.chown c.directory 0 0)
              else pure tt)
            s
            (ok tt)
            v
    tightened true =
        follow c.vault _ _ s
          (ignored p policy c _ s
            (let q = c.set_permissions_lem c.directory 0x1c0 s in (q.0, q.1 ∙ h)))
          λ s' h'.
            ignored p policy c _ s' (let q = c.chown_lem c.directory 0 0 s' in (q.0, q.1 ∙ h'))
    tightened false = (refl, h)

    created : Leaves p policy c (system p (p.create_dir_all c.directory)) s (ok tt) v
    created = converted c.vault _ _ s (let q = c.create_dir_all_lem c.directory s in (q.0, q.1 ∙ h))

  module _ (s : p.State) (v : Vault) (h : c.vault s ≡ v) where
    pub dir_ends :
        (tighten : Bool)
        → Leaves p policy c
            (ensure_dir_for_path p master_key_sealed_file tighten)
            s
            (ok c.directory)
            v
    unfolding ensure_dir_for_path ensure_parent
    dir_ends tighten = rw c.parent_lem (
        follow c.vault _ _ s (created s v h)
          λ s' h'. follow c.vault _ _ s' (tightened s' v h' tighten) λ s₂ h₂. (refl, h₂))

  pub random_post :
      (n : ℕ) (s : p.State) (v : Vault)
      → c.vault s ≡ v
      → Post
          (random p n)
          s
          (λ r s'. (bytes : List ℕ) × (r ≡ ok bytes) × ((length bytes ≡ n) × (c.vault s' ≡ v)))
  random_post n s v h =
      ((p.fill_bytes n s).0, refl, (c.fill_bytes-length n s, c.fill_bytes-vault n s ∙ h))

  -- A sealed file, opened with any phrase: the cipher of that phrase decrypts what was sealed.
  opens :
      (other phrase : Text) (key : List ℕ) (s : p.State) (v : Vault) (now : ℕ) (salt nonce : List ℕ)
      {r : Outcome PinError (List ℕ)}
      → c.vault s ≡ v
      → length salt ≡ 16
      → length nonce ≡ 12
      → map_err
          (λ x. io_error (foreign x))
          (p.decrypt
            (c.cipher (aes_key other salt))
            nonce
            (c.closed (aes_key phrase salt) nonce key))
        ≡ r
      → Leaves p policy c (unseal p other (sealed_file phrase key now salt nonce)) s r v
  unfolding unseal
  opens other phrase key s v now salt nonce h sl nl d =
      follow c.vault _ _ s (refl, h)
        λ s₁ h₁. chain c.vault _ _ s₁ (library_ends s₁ v h₁ _ (c.decode-encode salt)) λ s₂ h₂.
          chain c.vault _ _ s₂ (library_ends s₂ v h₂ _ (c.decode-encode nonce)) λ s₃ h₃.
            chain c.vault _ _ s₃ (library_ends s₃ v h₃ _ (c.decode-encode _)) λ s₄ h₄.
              follow c.vault _ _ s₄ (rw nl (refl, h₄)) λ s₅ h₅.
                chain c.vault _ _ s₅ (cipher_ends s₅ v h₅ other salt (omega arith)) λ s₆ h₆. (d, h₆)

  parsed_ends :
      (file : List ℕ) (phrase : Text) (key : List ℕ) (s : p.State) (v : Vault)
      (q : Seals file phrase key)
      → c.vault s ≡ v
      → Leaves p policy c
          (library p (p.from_json file))
          s
          (ok (sealed_file phrase key q.now q.salt q.nonce))
          v
  parsed_ends file phrase key s v q h =
      library_ends s v h (p.from_json file)
        (rw q.is_sealed (c.from_json_lem (sealed_file phrase key q.now q.salt q.nonce)))

  module _ (d : IsSaved p c.vault c.file_of) where
    read_ends :
        (file : List ℕ) (s : p.State) (v : Vault)
        → c.vault s ≡ v
        → v.files master_key_sealed_file ≡ some file
        → Leaves p policy c (system p (p.read master_key_sealed_file)) s (ok file) v
    read_ends file s v h e =
        converted c.vault _ _ s
          (let q = d.read_lem master_key_sealed_file file s (rw h e) in (q.0, q.1 ∙ h))

    unseal_as :
        (file : List ℕ) (other phrase : Text) (key : List ℕ) (s : p.State) (v : Vault)
        (q : Seals file phrase key) {r : Outcome PinError (List ℕ)}
        → c.vault s ≡ v
        → v.files master_key_sealed_file ≡ some file
        → map_err
            (λ x. io_error (foreign x))
            (p.decrypt
              (c.cipher (aes_key other q.salt))
              q.nonce
              (c.closed (aes_key phrase q.salt) q.nonce key))
          ≡ r
        → Leaves p policy c (unseal_key_bytes_from_path p other master_key_sealed_file) s r v
    unfolding unseal_key_bytes_from_path
    unseal_as file other phrase key s v q h e d =
        chain c.vault _ _ s (read_ends file s v h e) λ s₁ h₁.
          chain c.vault _ _ s₁ (parsed_ends file phrase key s₁ v q h₁) λ s₂ h₂.
            opens other phrase key s₂ v q.now q.salt q.nonce h₂ q.salt_length q.nonce_length d

    -- The phrase that the key was sealed under.
    pub unseal_ends :
        (file : List ℕ) (phrase : Text) (key : List ℕ) (s : p.State) (v : Vault)
        → c.vault s ≡ v
        → v.files master_key_sealed_file ≡ some file
        → Seals file phrase key
        → Leaves p policy c
            (unseal_key_bytes_from_path p phrase master_key_sealed_file)
            s
            (ok key)
            v
    unseal_ends file phrase key s v h e q =
        unseal_as file phrase phrase key s v q h e
          (ap (map_err (λ x. io_error (foreign x))) (c.decrypt_lem _ _ _))

    -- Another phrase, that is stretched to another key.
    pub unseal_wrong :
        (file : List ℕ) (other phrase : Text) (key : List ℕ) (s : p.State) (v : Vault)
        (q : Seals file phrase key)
        → c.vault s ≡ v
        → v.files master_key_sealed_file ≡ some file
        → c.stretch (as_bytes other) q.salt ≢ c.stretch (as_bytes phrase) q.salt
        → Leaves p policy c
            (unseal_key_bytes_from_path p other master_key_sealed_file)
            s
            (err (io_error (foreign c.aead_error)))
            v
    unseal_wrong file other phrase key s v q h e ne =
        unseal_as file other phrase key s v q h e
          (ap (map_err (λ x. io_error (foreign x))) (c.decrypt_wrong _ _ _ _ ne))
