-- ===== src/Core/MasterKey/Objects/Effects.antt =====
-- What the functions on the persistent objects do on a dependable platform.
use pinpam.Core.Error.{handle, tss2_error, TssError, from_tss, PinError}
use pinpam.Base.{
  ◌>>=◌, ◌>>◌, map_err, convert, Outcome, Option, err, some, ◌≡◌, ℕ, St, refl, none, ok, ◌∙◌,
}
use pinpam.Core.Tpm.Chain.{Ends, chain, follow, caught, converted, chain_with}
use pinpam.Core.Policy.{PinPolicy}
use pinpam.Core.MasterKey.{unauthorised, password, Platform, ignore, Authorisation}
use pinpam.Core.MasterKey.Laws.{IsPrepared, Held, Vault, put_object, is_some, locate, IsPersistent}
use pinpam.Core.MasterKey.Objects.{
  new_context, handle_for, find, persistent_present, on_missing_object,
}

-- The error of a lookup of an object that is not there.
abbrev pub no_object : PinError
no_object = from_tss (tss2_error (some handle))

module _ (p : Platform) (policy : PinPolicy) (c : IsPrepared p policy) where
  abbrev pub Leaves : {E A : Type 0} → St p.State E A → p.State → Outcome E A → Vault → Type 0
  Leaves = Ends c.vault

  pub ignored :
      {E F A : Type 0} (m : St p.State E A) (s : p.State) {a : A} {v : Vault}
      → Leaves m s (ok a) v
      → Leaves (ignore {F = F} m) s (ok tt) v
  ignored m s h = caught c.vault m _ s h λ s' h'. (refl, h')

  module _ (s : p.State) (v : Vault) (h : c.vault s ≡ v) where
    pub new_context_ends : Leaves (new_context p policy) s (ok tt) v
    unfolding new_context
    new_context_ends =
        chain c.vault _ _ s (converted c.vault _ _ s (c.parsed, h))
          λ s' h'. converted c.vault _ _ s' (let q = c.new_context_lem c.tcti s' in (q.0, q.1 ∙ h'))

    pub handle_ends : (n : ℕ) → IsPersistent n → Leaves (handle_for p n) s (ok n) v
    handle_ends n r = converted c.vault _ _ s (c.persistent_lem n r, h)

    look_ends :
        (x : Authorisation) (n : ℕ) (o : Option Held)
        → v.objects n ≡ o
        → Leaves (p.tr_from_tpm_public x n) s (locate (c.handle_of n) o) v
    look_ends x n o e = rw (← e, ← h) (c.tr_from_tpm_public_lem x n s)

    unsessioned_ends :
        (n : ℕ) (o : Option Held)
        → v.objects n ≡ o
        → Leaves
            (p.execute_without_session p.Object (λ x. p.tr_from_tpm_public x n))
            s
            (locate (c.handle_of n) o)
            v
    unsessioned_ends n o e = rw (c.without_session p.Object _ s) (look_ends unauthorised n o e)

    pub find_ends :
        (n : ℕ) (x : Held) → v.objects n ≡ some x → Leaves (find p n) s (ok (c.handle_of n)) v
    find_ends n x e = converted c.vault _ _ s (unsessioned_ends n (some x) e)

    pub find_missing : (n : ℕ) → v.objects n ≡ none → Leaves (find p n) s (err no_object) v
    find_missing n e = converted c.vault _ _ s (unsessioned_ends n none e)

  pub present_ends :
      (s : p.State) (v : Vault) (n : ℕ) (o : Option Held)
      → c.vault s ≡ v
      → IsPersistent n
      → v.objects n ≡ o
      → Leaves (persistent_present p n) s (ok (is_some o)) v
  unfolding persistent_present on_missing_object
  present_ends s v n none h r e =
      chain c.vault _ _ s (handle_ends s v h n r)
        λ s' h'. caught c.vault _ _ s' (unsessioned_ends s' v h' n none e) λ s₂ h₂. (refl, h₂)
  present_ends s v n (some x) h r e =
      chain c.vault _ _ s (handle_ends s v h n r)
        λ s' h'. caught c.vault _ _ s' (unsessioned_ends s' v h' n (some x) e) λ s₂ h₂. (refl, h₂)

  -- A command under the password session.
  pub under_password :
      {A : Type 0} (f : Authorisation → St p.State TssError A) (s : p.State)
      {r : Outcome TssError A} {v : Vault}
      → Leaves (f password) s r v
      → Leaves (convert from_tss (p.execute_with_session A password f)) s (map_err from_tss r) v
  under_password {A} f s q = converted c.vault _ _ s (rw (c.with_session A password f s) q)

  -- A fact about the state that such a command leaves.
  pub under_password_state :
      {A : Type 0} (P : p.State → Type 0) (f : Authorisation → St p.State TssError A) (s : p.State)
      → P (f password s).1
      → P (convert from_tss (p.execute_with_session A password f) s).1
  unfolding convert
  under_password_state {A} P f s q = rw (c.with_session A password f s) q

  persist_ends :
      (o : p.Object) (n : ℕ) (x : Held) (s : p.State) (v : Vault)
      → c.vault s ≡ v
      → c.loaded s o ≡ some x
      → v.objects n ≡ none
      → Leaves (p.evict_control password o n) s (ok (c.handle_of n)) (put_object v n (some x))
  persist_ends o n x s v h l e = rw (← h) (c.persist_lem o n x s l (rw h e))

  -- The last steps of both creations: a loaded object is made persistent.
  pub persisted :
      (o : p.Object) (n : ℕ) (x : Held) (s : p.State) (v : Vault)
      → c.vault s ≡ v
      → c.loaded s o ≡ some x
      → IsPersistent n
      → v.objects n ≡ none
      → Leaves
          (do
            persistent ← handle_for p n
            object ←
                convert from_tss
                  (p.execute_with_session p.Object password (λ x. p.evict_control x o persistent))
            ignore (p.flush_context o)
            ignore (p.tr_close object))
          s
          (ok tt)
          (put_object v n (some x))
  unfolding convert
  persisted o n x s v h l r e =
      chain_with c.vault _ _ s (λ s'. c.loaded s' o ≡ some x) (handle_ends s v h n r) l
        λ s₁ h₁ l₁.
          chain c.vault _ _ s₁
            (under_password (λ x. p.evict_control x o n) s₁ (persist_ends o n x s₁ v h₁ l₁ e))
            λ s₂ h₂.
              follow c.vault _ _ s₂
                (ignored _ s₂ (let q = c.flush_context_lem o s₂ in (q.0, q.1 ∙ h₂)))
                λ s₃ h₃. ignored _ s₃ (let q = c.tr_close_lem (c.handle_of n) s₃ in (q.0, q.1 ∙ h₃))
