-- ===== src/Core/Manager/Users/Effects.antt =====
-- What removing and setting up a PIN do to the NV storage of a reliable TPM.
use pinpam.Core.Manager.Tags.Effects.{delete_pin_version_tag_ends, write_pin_version_tag_ends}
use pinpam.Core.Manager.Commands.{undefine_ends, find_ends}
use pinpam.Core.Manager.Slots.Defines.{
  define_pin_slot_long, define_pin_slot_refused, define_pin_slot_ends, new_counter,
}
use pinpam.Core.Error.{tss2_error, from_tss}
use pinpam.Core.Manager.Slots.Reads.{
  data_of, read_slot_none, read_slot_unwritten, read_slot_some, IsWords,
}
use pinpam.Core.Tpm.{null_auth}
use pinpam.Core.Tpm.Chain.{stop, caught, cease, follow, chain}
use pinpam.Core.Pin.{Pin}
use pinpam.Core.Index.Disjoint.{tag_index, slot_index}
use pinpam.Core.Manager.Connected.{
  clear_sessions_ends, restart_context_ends, nullauth_ends, nv_index_ends, Results, Holds,
  IsConnected,
}
use pinpam.Core.Tpm.Laws.{
  max_index_auth, put-at_ne, write_once, max_auth, pin_slot, Counter, put, data_area, Store,
  NvIndex,
}
use pinpam.Core.Consts.{pin_version_current, pin_version_uid_max}
use pinpam.Base.{
  length, ℕ, ◌≤◌, ◌<◌, ◌^◌, Option, none, some, List, [], ◌∷◌, ok, err, ◌≡◌, ◌≢◌, ◌⊎◌, refl, arith,
}
use pinpam.Core.Manager.{PinManager}
use pinpam.Core.Manager.Users.{
  get_pin_slot, already_provisioned, as_bytes, not_provisioned, delete_pin_admin, setup_pin,
}

-- A tag that can be written: none, or an ordinary index.
abbrev pub IsTaggable : {Digest : Type 0} → Option (NvIndex Digest) → Type 0
IsTaggable i = (i ≡ none) ⊎ ((old : Option (List ℕ)) × (i ≡ some (data_area old)))

-- The tag of the current version.
abbrev pub current_tag : {Digest : Type 0} → Option (NvIndex Digest)
current_tag = some (data_area (some (pin_version_current ∷ [])))

pub slot-ne-tag : (uid : ℕ) → uid ≤ pin_version_uid_max → slot_index uid ≢ tag_index uid
slot-ne-tag uid h = omega arith

module _ (m : PinManager) (c : IsConnected m) (uid : ℕ) (range : uid ≤ pin_version_uid_max)
    (s : m.tpm.State) (v : Store m.tpm.Digest) (h : Holds m c s v) where
  open m use {tpm}

  -- A slot that is there is removed, and the version tag with it.
  pub delete_pin_admin_ends :
      (i : NvIndex tpm.Digest)
      → v (slot_index uid) ≡ some i
      → Results m c
          (delete_pin_admin m uid)
          s
          (ok tt)
          (put (put v (slot_index uid) none) (tag_index uid) none)
  unfolding delete_pin_admin
  delete_pin_admin_ends i e = chain c.nv _ _ s (nv_index_ends m c uid s v range h) λ s₁ h₁.
      follow c.nv _ _ s₁
        (caught c.nv _ _ s₁
          (nullauth_ends m c _ s₁ (
            chain c.nv _ _ s₁ (find_ends m c (slot_index uid) (some i) s₁ v h₁ e null_auth)
              λ s₂ h₂. undefine_ends m c (slot_index uid) (some i) s₂ v h₂ e))
          λ s₃ h₃. follow c.nv _ _ s₃ (clear_sessions_ends m c s₃ _ h₃) λ s₄ h₄. (refl, h₄))
        λ s₅ h₅.
          caught c.nv _ _ s₅ (delete_pin_version_tag_ends m c uid s₅ _ range h₅) λ s₆ h₆. (refl, h₆)

  pub delete_pin_admin_missing :
      v (slot_index uid) ≡ none
      → Results m c (delete_pin_admin m uid) s (err (not_provisioned uid)) v
  unfolding delete_pin_admin
  delete_pin_admin_missing e = chain c.nv _ _ s (nv_index_ends m c uid s v range h) λ s₁ h₁.
      cease c.nv _ _ s₁ (
        caught c.nv _ _ s₁
          (nullauth_ends m c _ s₁
            (stop c.nv _ _ s₁ (find_ends m c (slot_index uid) none s₁ v h₁ e null_auth)))
          λ s₃ h₃. follow c.nv _ _ s₃ (clear_sessions_ends m c s₃ _ h₃) λ s₄ h₄. (refl, h₄))

  -- A free slot gets the PIN, the limit of the policy and the current version.
  pub setup_pin_ends :
      (pin : Pin)
      → m.policy.max_attempts < 2 ^ 32
      → length (as_bytes pin) ≤ max_index_auth
      → v (slot_index uid) ≡ none
      → IsTaggable (v (tag_index uid))
      → Results m c (setup_pin m uid pin) s (ok tt) (
          put
            (put v
              (slot_index uid)
              (some (pin_slot (as_bytes pin) (write_once c.digests) (some (new_counter m c)))))
            (tag_index uid)
            current_tag)
  unfolding setup_pin
  setup_pin_ends pin w fits e t = chain c.nv _ _ s (nv_index_ends m c uid s v range h) λ s₁ h₁.
      chain c.nv _ _ s₁ (read_slot_none m c (slot_index uid) s₁ v h₁ e) λ s₂ h₂.
        follow c.nv _ _ s₂
          (define_pin_slot_ends m c (slot_index uid) (as_bytes pin) s₂ v w fits h₂ e)
          λ s₃ h₃. follow c.nv _ _ s₃ (restart_context_ends m c s₃ _ h₃) λ s₄ h₄.
            caught c.nv _ _ s₄
              (write_pin_version_tag_ends m c uid pin_version_current s₄ _ range h₄
                (rw (put-at_ne v _ _ _ (slot-ne-tag uid range)) t))
              λ s₅ h₅. (refl, h₅)

  -- A PIN that an index cannot have is refused by the TPM, and nothing changes.
  pub setup_pin_long :
      (pin : Pin)
      → max_index_auth < length (as_bytes pin)
      → length (as_bytes pin) ≤ max_auth
      → v (slot_index uid) ≡ none
      → Results m c
          (setup_pin m uid pin)
          s
          (err (from_tss (tss2_error (c.errors.refused (as_bytes pin)))))
          v
  unfolding setup_pin
  setup_pin_long pin long fits e = chain c.nv _ _ s (nv_index_ends m c uid s v range h) λ s₁ h₁.
      chain c.nv _ _ s₁ (read_slot_none m c (slot_index uid) s₁ v h₁ e) λ s₂ h₂.
        cease c.nv _ _ s₂
          (define_pin_slot_long m c (slot_index uid) (as_bytes pin) s₂ v long fits h₂ e)

  -- A user with a PIN is refused, and nothing is written.
  pub setup_pin_taken :
      (pin : Pin) (auth : List ℕ) (d : tpm.Digest) (k : Counter)
      → IsWords k
      → v (slot_index uid) ≡ some (pin_slot auth d (some k))
      → Results m c (setup_pin m uid pin) s (err (already_provisioned uid)) v
  unfolding setup_pin
  setup_pin_taken pin auth d k w e = chain c.nv _ _ s (nv_index_ends m c uid s v range h) λ s₁ h₁.
      chain c.nv _ _ s₁ (read_slot_some m c (slot_index uid) s₁ v h₁ auth d k w e)
        λ s₂ h₂. (refl, h₂)

  -- On a reliable TPM, for a user whose slot was defined and never written, `setup_pin` with a PIN
  -- of at most 64 bytes fails with the TPM's refusal of the definition, and nothing changes.
  pub setup_pin_stuck :
      (pin : Pin) (auth : List ℕ) (d : tpm.Digest)
      → length (as_bytes pin) ≤ max_auth
      → v (slot_index uid) ≡ some (pin_slot auth d none)
      → Results m c
          (setup_pin m uid pin)
          s
          (err (from_tss (tss2_error (c.errors.refused (as_bytes pin)))))
          v
  unfolding setup_pin
  setup_pin_stuck pin auth d fits e = chain c.nv _ _ s (nv_index_ends m c uid s v range h) λ s₁ h₁.
      chain c.nv _ _ s₁ (read_slot_unwritten m c (slot_index uid) s₁ v h₁ auth d e) λ s₂ h₂.
        cease c.nv _ _ s₂
          (define_pin_slot_refused m c (slot_index uid) (as_bytes pin) _ s₂ v fits h₂ e)

  -- The slot of a user, as the owner reads it.
  pub get_pin_slot_ends :
      (auth : List ℕ) (d : tpm.Digest) (k : Counter)
      → IsWords k
      → v (slot_index uid) ≡ some (pin_slot auth d (some k))
      → Results m c (get_pin_slot m uid) s (ok (some (data_of k))) v
  unfolding get_pin_slot
  get_pin_slot_ends auth d k w e =
      chain c.nv _ _ s (nv_index_ends m c uid s v range h)
        λ s₁ h₁. read_slot_some m c (slot_index uid) s₁ v h₁ auth d k w e
