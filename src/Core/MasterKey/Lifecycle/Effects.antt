-- ===== src/Core/MasterKey/Lifecycle/Effects.antt =====
-- What the functions of the master key do on a dependable platform.
use pinpam.Core.Error.{mk_sealed_file_already_exists, states, io_error, permission_denied}
use pinpam.Base.{
  true, Option, ◌≤◌, length, some, arith, ℕ, ◌==◌, err, ◌≡◌, List, refl, none, ok, ap, ◌∙◌,
}
use pinpam.Base.Text.{Text, as_bytes}
use pinpam.Core.Tpm.Chain.{cease, chain, follow, converted, stop}
use pinpam.Core.Consts.{master_key_sealed_file}
use pinpam.Core.Policy.{PinPolicy}
use pinpam.Core.Util.{Caller}
use pinpam.Core.MasterKey.{Platform}
use pinpam.Core.MasterKey.Laws.{hmac_key, IsPrepared, Vault, is_some}
use pinpam.Core.MasterKey.Objects.Effects.{
  Leaves, ignored, new_context_ends, handle_ends, find_ends, find_missing, no_object,
}
use pinpam.Core.MasterKey.Objects.Provisioned.{
  rsa, key_handle, without_key, evict_ends, tpm_status_ends,
}
use pinpam.Core.MasterKey.Sealing.{ensure}
use pinpam.Core.MasterKey.Lifecycle.{
  init, sealed_file_exists, MasterKeyStatus, status, clear_from_tpm, derive_user_token,
}

-- Neither the objects nor the file.
pub record IsFresh (v : Vault) : Type 0 where
  pub no_parent : v.objects rsa ≡ none
  pub no_key : v.objects key_handle ≡ none
  pub no_file : v.files master_key_sealed_file ≡ none

module _ (p : Platform) (policy : PinPolicy) (c : IsPrepared p policy) where
  abbrev pub status_of : Vault → MasterKeyStatus
  status_of v = record {
    sealed_file_present = is_some (v.files master_key_sealed_file);
    rsa_parent_present = is_some (v.objects rsa);
    hmac_key_present = is_some (v.objects key_handle);
  }

  pub status_ends :
      (s : p.State) (v : Vault)
      → c.vault s ≡ v
      → Leaves p policy c (status p policy) s (ok (status_of v)) v
  unfolding status
  status_ends s v h =
      chain c.vault _ _ s {a = is_some (v.files master_key_sealed_file)}
        (rw (← h) (ap ok (c.exists_lem master_key_sealed_file s), refl))
        λ s₁ h₁. chain c.vault _ _ s₁ (tpm_status_ends p policy c s₁ v h₁) λ s₂ h₂. (refl, h₂)

  pub exists_ends :
      (s : p.State) (v : Vault) (o : Option (List ℕ))
      → c.vault s ≡ v
      → v.files master_key_sealed_file ≡ o
      → Leaves p policy c (sealed_file_exists p policy) s (ok (is_some o)) v
  exists_ends s v o h e = (
    ap ok (
        c.exists_lem master_key_sealed_file s
        ∙ ap (λ w. is_some (w.files master_key_sealed_file)) h
        ∙ ap is_some e),
    h,
  )

  abbrev pub token_of : List ℕ → Text → Text
  token_of key username = p.encode_hex (c.mac key (as_bytes username))

  mac_ends :
      (key : List ℕ) (username : Text) (s : p.State) (v : Vault)
      → c.vault s ≡ v
      → v.objects key_handle ≡ some (hmac_key key)
      → Leaves p policy c
          (p.execute_with_nullauth_session
            (List ℕ)
            (λ x. p.hmac x (c.handle_of key_handle) (as_bytes username)))
          s
          (ok (c.mac key (as_bytes username)))
          v
  mac_ends key username s v h e =
      rw (c.with_nullauth (List ℕ) _ s)
        (let q = c.hmac_lem key (as_bytes username) key_handle s (rw h e) in (q.0, q.1 ∙ h))

  pub derive_ends :
      (key : List ℕ) (username : Text) (s : p.State) (v : Vault)
      → c.vault s ≡ v
      → v.objects key_handle ≡ some (hmac_key key)
      → length (as_bytes username) ≤ 1024
      → Leaves p policy c (derive_user_token p policy username) s (ok (token_of key username)) v
  unfolding derive_user_token
  derive_ends key username s v h e fits =
      follow c.vault _ _ s (new_context_ends p policy c s v h) λ s₁ h₁.
        chain c.vault _ _ s₁ (handle_ends p policy c s₁ v h₁ key_handle (omega arith, omega arith))
          λ s₂ h₂.
            chain c.vault _ _ s₂ (find_ends p policy c s₂ v h₂ key_handle (hmac_key key) e) λ s₃ h₃.
              chain c.vault _ _ s₃ (converted c.vault _ _ s₃ (c.buffer_fits _ fits, h₃)) λ s₄ h₄.
                chain c.vault _ _ s₄
                  (converted c.vault _ _ s₄ {r = ok (c.mac key (as_bytes username))}
                    (mac_ends key username s₄ v h₄ e))
                  λ s₅ h₅. (refl, h₅)

  pub derive_missing :
      (username : Text) (s : p.State) (v : Vault)
      → c.vault s ≡ v
      → v.objects key_handle ≡ none
      → Leaves p policy c (derive_user_token p policy username) s (err no_object) v
  unfolding derive_user_token
  derive_missing username s v h e =
      follow c.vault _ _ s (new_context_ends p policy c s v h) λ s₁ h₁.
        chain c.vault _ _ s₁ (handle_ends p policy c s₁ v h₁ key_handle (omega arith, omega arith))
          λ s₂ h₂. stop c.vault _ _ s₂ (find_missing p policy c s₂ v h₂ key_handle e)

  module _ (caller : Caller) (root : caller.uid ≡ 0) where
    pub root_ends :
        (s : p.State) (v : Vault)
        → c.vault s ≡ v
        → Leaves p policy c (ensure p (caller.uid == 0) permission_denied) s (ok tt) v
    root_ends s v h = rw root (refl, h)

    pub clear_ends :
        (s : p.State) (v : Vault)
        → c.vault s ≡ v
        → Leaves p policy c (clear_from_tpm p policy caller) s (ok tt) (without_key v)
    unfolding clear_from_tpm
    clear_ends s v h = follow c.vault _ _ s (root_ends s v h) λ s₁ h₁.
        follow c.vault _ _ s₁ (new_context_ends p policy c s₁ v h₁) λ s₂ h₂.
          follow c.vault _ _ s₂
            (ignored p policy c _ s₂
              (evict_ends p policy c key_handle s₂ v _ h₂ (omega arith, omega arith) refl))
            λ s₃ h₃.
              ignored p policy c _ s₃
                (evict_ends p policy c rsa s₃ _ _ h₃ (omega arith, omega arith) refl)

    -- Where the sealed file is there, nothing is made.
    pub init_taken :
        (s : p.State) (file : List ℕ)
        → (c.vault s).files master_key_sealed_file ≡ some file
        → ((init p policy caller s).0 ≡ err (io_error (states mk_sealed_file_already_exists)))
          × (c.vault (init p policy caller s).1 ≡ c.vault s)
    unfolding init
    init_taken s file e =
        let v = c.vault s in
        follow c.vault _ _ s (root_ends s v refl) λ s₁ h₁.
          chain c.vault _ _ s₁ {a = true} (exists_ends s₁ v (some file) h₁ e)
            λ s₂ h₂. cease c.vault _ _ s₂ (refl, h₂)
