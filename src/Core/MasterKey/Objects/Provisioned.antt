-- ===== src/Core/MasterKey/Objects/Provisioned.antt =====
-- The creation and the removal of the two objects, on a dependable platform.
use mathlib.Core.Path.{fun_ext}
use pinpam.Base.{sym, Option, arith, some, length, ◌≡◌, List, ℕ, refl, none, ok, ap, ◌∙◌}
use pinpam.Core.Tpm.Chain.{chain, follow, converted, chain_with}
use pinpam.Core.Consts.{master_key_rsa_parent_handle, master_key_hmac_handle}
use pinpam.Core.Policy.{PinPolicy}
use pinpam.Core.MasterKey.{KeyedHashTemplate, password, Platform}
use pinpam.Core.MasterKey.Laws.{
  hmac_key, rsa_parent, IsPrepared, Held, Vault, put_object, is_some, IsPersistent,
}
use pinpam.Core.MasterKey.Objects.{
  zeros, refuse_present, evict, hmac_attributes, unless_present, evict_if,
  create_and_persist_rsa_parent, create_and_persist_hmac_key, provision_tpm_objects,
  evict_persistent_if_present, tpm_status,
}
use pinpam.Core.MasterKey.Objects.Effects.{
  under_password_state, Leaves, new_context_ends, handle_ends, find_ends, present_ends,
  under_password, persisted,
}

abbrev pub rsa : ℕ
rsa = master_key_rsa_parent_handle

abbrev pub key_handle : ℕ
key_handle = master_key_hmac_handle

-- The two objects, with these bytes in the key.
abbrev pub with_key : Vault → List ℕ → Vault
with_key v key = put_object (put_object v rsa (some rsa_parent)) key_handle (some (hmac_key key))

abbrev pub without_key : Vault → Vault
without_key v = put_object (put_object v key_handle none) rsa none

put_object_self : (v : Vault) (n : ℕ) → v.objects n ≡ none → put_object v n none ≡ v
put_object_self v n e = ap (λ o. record v { objects = o }) (fun_ext λ k. ground arith)

module _ (p : Platform) (policy : PinPolicy) (c : IsPrepared p policy) where
  parent_ends :
      (s : p.State) (v : Vault)
      → c.vault s ≡ v
      → v.objects rsa ≡ none
      → Leaves p policy c
          (create_and_persist_rsa_parent p)
          s
          (ok tt)
          (put_object v rsa (some rsa_parent))
  unfolding create_and_persist_rsa_parent
  parent_ends s v h e = chain c.vault _ _ s (converted c.vault _ _ s (c.rsa_built, h)) λ s₁ h₁.
      chain_with c.vault _ _ s₁ (λ s'. c.loaded s' (c.primary s₁) ≡ some rsa_parent)
        (under_password p policy c (λ x. p.create_primary x c.rsa_public) s₁
          (let q = c.create_primary_lem s₁ in (q.0, q.1 ∙ h₁)))
        (under_password_state p policy c (λ s'. c.loaded s' (c.primary s₁) ≡ some rsa_parent)
          (λ x. p.create_primary x c.rsa_public) s₁ (c.create_primary_loaded s₁))
        λ s₂ h₂ l.
          persisted p policy c (c.primary s₁) rsa rsa_parent s₂ v h₂ l (omega arith, omega arith) e

  abbrev template : KeyedHashTemplate
  template = record { attributes = hmac_attributes; unique = zeros }

  create_ends :
      (s : p.State) (v : Vault) (key : List ℕ)
      → c.vault s ≡ v
      → v.objects rsa ≡ some rsa_parent
      → Leaves p policy c
          (p.create password (c.handle_of rsa) (c.public_of template) key)
          s
          (ok (c.wrapped key))
          v
  create_ends s v key h e = rw (← h) (c.create_lem template key rsa s refl refl (rw h e))

  load_ends :
      (s : p.State) (v : Vault) (key : List ℕ)
      → c.vault s ≡ v
      → v.objects rsa ≡ some rsa_parent
      → Leaves p policy c
          (p.load password (c.handle_of rsa) (c.wrapped key).0 (c.wrapped key).1)
          s
          (ok (c.transient s))
          v
  load_ends s v key h e = let q = c.load_lem key rsa s (rw h e) in (q.0, q.1 ∙ h)

  key_ends :
      (key : List ℕ) (s : p.State) (v : Vault)
      → length key ≡ 32
      → c.vault s ≡ v
      → v.objects rsa ≡ some rsa_parent
      → v.objects key_handle ≡ none
      → Leaves p policy c
          (create_and_persist_hmac_key p key)
          s
          (ok tt)
          (put_object v key_handle (some (hmac_key key)))
  unfolding create_and_persist_hmac_key
  key_ends key s v len h e f =
      chain c.vault _ _ s (handle_ends p policy c s v h rsa (omega arith, omega arith)) λ s₁ h₁.
        chain c.vault _ _ s₁ (find_ends p policy c s₁ v h₁ rsa rsa_parent e) λ s₂ h₂.
          chain c.vault _ _ s₂ (converted c.vault _ _ s₂ (c.attributes_built _, h₂)) λ s₃ h₃.
            chain c.vault _ _ s₃ (converted c.vault _ _ s₃ (c.digest_fits _ (omega arith), h₃))
              λ s₄ h₄.
                chain c.vault _ _ s₄ (converted c.vault _ _ s₄ (c.public_built _, h₄)) λ s₅ h₅.
                  chain c.vault _ _ s₅
                    (converted c.vault _ _ s₅ (c.sensitive_fits key (omega arith), h₅))
                    λ s₆ h₆.
                      chain c.vault _ _ s₆
                        (under_password p policy c _ s₆ (create_ends s₆ v key h₆ e))
                        λ s₇ h₇.
                          chain_with c.vault _ _ s₇
                            (λ s'. c.loaded s' (c.transient s₇) ≡ some (hmac_key key))
                            (under_password p policy c _ s₇ (load_ends s₇ v key h₇ e))
                            (under_password_state p policy c
                              (λ s'. c.loaded s' (c.transient s₇) ≡ some (hmac_key key)) _ s₇
                              (c.load_loaded key rsa s₇ (rw h₇ e)))
                            λ s₈ h₈ l.
                              persisted p policy c (c.transient s₇) key_handle (hmac_key key) s₈ v
                                h₈ l (omega arith, omega arith) f

  -- Neither object is there: both are made.
  pub provision_ends :
      (key : List ℕ) (s : p.State) (v : Vault)
      → length key ≡ 32
      → c.vault s ≡ v
      → v.objects rsa ≡ none
      → v.objects key_handle ≡ none
      → Leaves p policy c (provision_tpm_objects p policy key) s (ok tt) (with_key v key)
  unfolding provision_tpm_objects unless_present refuse_present
  provision_ends key s v len h e f =
      follow c.vault _ _ s (new_context_ends p policy c s v h) λ s₁ h₁.
        chain c.vault _ _ s₁ (present_ends p policy c s₁ v rsa none h₁ (omega arith, omega arith) e)
          λ s₂ h₂. follow c.vault _ _ s₂ (parent_ends s₂ v h₂ e) λ s₃ h₃.
            chain c.vault _ _ s₃
              (present_ends p policy c s₃ _ key_handle none h₃ (omega arith, omega arith) f)
              λ s₄ h₄. follow c.vault _ _ s₄ (refl, h₄) λ s₅ h₅. key_ends key s₅ _ len h₅ refl f

  -- The parent is there: the key is made.
  pub provision_child :
      (key : List ℕ) (s : p.State) (v : Vault)
      → length key ≡ 32
      → c.vault s ≡ v
      → v.objects rsa ≡ some rsa_parent
      → v.objects key_handle ≡ none
      → Leaves p policy c
          (provision_tpm_objects p policy key)
          s
          (ok tt)
          (put_object v key_handle (some (hmac_key key)))
  unfolding provision_tpm_objects unless_present refuse_present
  provision_child key s v len h e f =
      follow c.vault _ _ s (new_context_ends p policy c s v h) λ s₁ h₁.
        chain c.vault _ _ s₁
          (present_ends p policy c s₁ v rsa (some rsa_parent) h₁ (omega arith, omega arith) e)
          λ s₂ h₂.
            follow c.vault _ _ s₂ (refl, h₂)
              λ s₃ h₃.
                chain c.vault _ _ s₃
                  (present_ends p policy c s₃ v key_handle none h₃ (omega arith, omega arith) f)
                  λ s₄ h₄. follow c.vault _ _ s₄ (refl, h₄) λ s₅ h₅. key_ends key s₅ v len h₅ e f

  remove_ends :
      (n : ℕ) (x : Held) (s : p.State) (v : Vault)
      → c.vault s ≡ v
      → v.objects n ≡ some x
      → Leaves p policy c
          (p.evict_control password (c.handle_of n) n)
          s
          (ok c.nothing)
          (put_object v n none)
  remove_ends n x s v h e = rw (← h) (c.remove_lem n x s (rw h e))

  -- Whatever is there, it is not there afterwards.
  pub evict_ends :
      (n : ℕ) (s : p.State) (v : Vault) (o : Option Held)
      → c.vault s ≡ v
      → IsPersistent n
      → v.objects n ≡ o
      → Leaves p policy c (evict_persistent_if_present p n) s (ok tt) (put_object v n none)
  unfolding evict_persistent_if_present evict_if evict
  evict_ends n s v none h r e =
      chain c.vault _ _ s (present_ends p policy c s v n none h r e)
        λ s₁ h₁. (refl, h₁ ∙ sym (put_object_self v n e))
  evict_ends n s v (some x) h r e =
      chain c.vault _ _ s (present_ends p policy c s v n (some x) h r e) λ s₁ h₁.
        chain c.vault _ _ s₁ (handle_ends p policy c s₁ v h₁ n r) λ s₂ h₂.
          chain c.vault _ _ s₂ (find_ends p policy c s₂ v h₂ n x e) λ s₃ h₃.
            chain c.vault _ _ s₃ (under_password p policy c _ s₃ (remove_ends n x s₃ v h₃ e))
              λ s₄ h₄. rw c.nothing-is_none (refl, h₄)

  pub tpm_status_ends :
      (s : p.State) (v : Vault)
      → c.vault s ≡ v
      → Leaves p policy c
          (tpm_status p policy)
          s
          (ok (is_some (v.objects rsa), is_some (v.objects key_handle)))
          v
  unfolding tpm_status
  tpm_status_ends s v h = follow c.vault _ _ s (new_context_ends p policy c s v h) λ s₁ h₁.
      chain c.vault _ _ s₁ (present_ends p policy c s₁ v rsa _ h₁ (omega arith, omega arith) refl)
        λ s₂ h₂.
          chain c.vault _ _ s₂
            (present_ends p policy c s₂ v key_handle _ h₂ (omega arith, omega arith) refl)
            λ s₃ h₃. (refl, h₃)
