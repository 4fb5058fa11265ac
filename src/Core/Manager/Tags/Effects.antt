-- ===== src/Core/Manager/Tags/Effects.antt =====
-- What the methods on the version tag do to the NV storage of a reliable TPM.
use pinpam.Core.Manager.Commands.{
  undefine_ends, owner_write_ends, find_ends, define_ends, read_full_ends,
}
use pinpam.Base.{
  inr, inl, ◌⊎◌, Option-cases, arith, [], ◌∷◌, err, some, Option, ℕ, ◌≤◌, none, List, ok, ◌≡◌, refl,
}
use pinpam.Core.Consts.{pin_version_uid_max}
use pinpam.Core.Index.Disjoint.{tag_index}
use pinpam.Core.Tpm.{null_auth}
use pinpam.Core.Tpm.Chain.{converted, stop, chain, follow, caught}
use pinpam.Core.Tpm.Laws.{put-at, put_self, put-put, put, data_area, Store}
use pinpam.Core.Manager.{handle, tss2_error, from_tss, PinManager}
use pinpam.Core.Manager.Connected.{
  IsConnected, Results, Holds, clear_sessions_ends, nullauth_ends, version_nv_index_ends,
}
use pinpam.Core.Manager.Tags.{
  tag_attributes, define_pin_version_tag, write_pin_version_tag, delete_pin_version_tag,
  write_pin_version_tag_existing, read_pin_version_tag,
}

module _ (m : PinManager) (c : IsConnected m) where
  open m use {tpm}

  -- A user without a version tag.
  pub read_pin_version_tag_none :
      (uid : ℕ) (s : tpm.State) (v : Store tpm.Digest)
      → uid ≤ pin_version_uid_max
      → Holds m c s v
      → v (tag_index uid) ≡ none
      → Results m c (read_pin_version_tag m uid) s (ok none) v
  unfolding read_pin_version_tag
  read_pin_version_tag_none uid s v b h e =
      chain c.nv _ _ s (version_nv_index_ends m c uid s v b h) λ s' h'.
        caught c.nv _ _ s' (read_full_ends m c (tag_index uid) none s' v h' e)
          λ s'' h''. follow c.nv _ _ s'' (clear_sessions_ends m c s'' v h'') λ s₃ h₃. (refl, h₃)

  -- A user with a version tag of one byte.
  pub read_pin_version_tag_some :
      (uid version : ℕ) (s : tpm.State) (v : Store tpm.Digest)
      → uid ≤ pin_version_uid_max
      → Holds m c s v
      → v (tag_index uid) ≡ some (data_area (some (version ∷ [])))
      → Results m c (read_pin_version_tag m uid) s (ok (some version)) v
  unfolding read_pin_version_tag
  read_pin_version_tag_some uid version s v b h e =
      chain c.nv _ _ s (version_nv_index_ends m c uid s v b h) λ s' h'.
        caught c.nv _ _ s'
          (read_full_ends m c (tag_index uid) (some (data_area (some (version ∷ [])))) s' v h' e)
          λ s'' h''. follow c.nv _ _ s'' (clear_sessions_ends m c s'' v h'') λ s₃ h₃. (refl, h₃)

  -- A write to a tag that is not there fails, and leaves everything as it was.
  write_missing :
      (n version : ℕ) (s : tpm.State) (v : Store tpm.Digest)
      → Holds m c s v
      → v n ≡ none
      → Results m c
          (write_pin_version_tag_existing m n version)
          s
          (err (from_tss (tss2_error (some handle))))
          v
  unfolding write_pin_version_tag_existing
  write_missing n version s v h e =
      caught c.nv _ _ s
        (nullauth_ends m c _ s (stop c.nv _ _ s (find_ends m c n none s v h e null_auth)))
        λ s' h'. follow c.nv _ _ s' (clear_sessions_ends m c s' v h') λ s'' h''. (refl, h'')

  -- A write to a tag that is there sets it.
  write_there :
      (n version : ℕ) (old : Option (List ℕ)) (s : tpm.State) (v : Store tpm.Digest)
      → Holds m c s v
      → v n ≡ some (data_area old)
      → Results m c
          (write_pin_version_tag_existing m n version)
          s
          (ok tt)
          (put v n (some (data_area (some (version ∷ [])))))
  unfolding write_pin_version_tag_existing
  write_there n version old s v h e =
      let i = some (data_area old) in
      caught c.nv _ _ s
        (nullauth_ends m c _ s (
          chain c.nv _ _ s (find_ends m c n i s v h e null_auth) λ s' h'.
            chain c.nv _ _ s' (c.buffer_fits (version ∷ []) (omega arith), h')
              λ s'' h''. owner_write_ends m c n i s'' v h'' e (version ∷ [])))
        λ s' h'. follow c.nv _ _ s' (clear_sessions_ends m c s' _ h') λ s'' h''. (refl, h'')

  -- The definition of a tag that is not there.
  define_tag :
      (n : ℕ) (s : tpm.State) (v : Store tpm.Digest)
      → Holds m c s v
      → v n ≡ none
      → Results m c (define_pin_version_tag m n) s (ok tt) (put v n (some (data_area none)))
  unfolding define_pin_version_tag
  define_tag n s v h e =
      follow c.nv _ _ s
        (converted c.nv _ _ s (
          nullauth_ends m c _ s (
            chain c.nv _ _ s (c.attributes_built tag_attributes, h)
              λ s' h'.
                follow c.nv _ _ s' (c.attributes_valid tag_attributes, h')
                  λ s'' h''.
                    chain c.nv _ _ s'' (c.public_built _, h'')
                      λ s₃ h₃. define_ends m c _ none s₃ v h₃ e none)))
        λ s' h'. clear_sessions_ends m c s' _ h'

  -- The version is written, whether or not there was a tag.
  pub write_pin_version_tag_ends :
      (uid version : ℕ) (s : tpm.State) (v : Store tpm.Digest)
      → uid ≤ pin_version_uid_max
      → Holds m c s v
      → (v (tag_index uid) ≡ none)
        ⊎ ((old : Option (List ℕ)) × (v (tag_index uid) ≡ some (data_area old)))
      → Results m c
          (write_pin_version_tag m uid version)
          s
          (ok tt)
          (put v (tag_index uid) (some (data_area (some (version ∷ [])))))
  unfolding write_pin_version_tag
  write_pin_version_tag_ends uid version s v b h (inl e) =
      chain c.nv _ _ s (version_nv_index_ends m c uid s v b h) λ s' h'.
        caught c.nv _ _ s' (write_missing (tag_index uid) version s' v h' e) λ s'' h''.
          follow c.nv _ _ s'' (define_tag (tag_index uid) s'' v h'' e) λ s₃ h₃.
            rw
              (← put-put v (tag_index uid) (some (data_area none))
                (some (data_area (some (version ∷ [])))))
              (write_there (tag_index uid) version none s₃ _ h₃ (put-at v (tag_index uid) _))
  write_pin_version_tag_ends uid version s v b h (inr (old, e)) =
      chain c.nv _ _ s (version_nv_index_ends m c uid s v b h) λ s' h'.
        caught c.nv _ _ s' (write_there (tag_index uid) version old s' v h' e)
          λ s'' h''. (refl, h'')

  -- The tag is gone afterwards, and it is no error if there was none.
  pub delete_pin_version_tag_ends :
      (uid : ℕ) (s : tpm.State) (v : Store tpm.Digest)
      → uid ≤ pin_version_uid_max
      → Holds m c s v
      → Results m c (delete_pin_version_tag m uid) s (ok tt) (put v (tag_index uid) none)
  unfolding delete_pin_version_tag
  delete_pin_version_tag_ends uid s v b h = elim (Option-cases (v (tag_index uid))) [
    | inl e ↦
        rw (← e, put_self v (tag_index uid))
          (chain c.nv _ _ s (version_nv_index_ends m c uid s v b h) λ s' h'.
            caught c.nv _ _ s'
              (nullauth_ends m c _ s'
                (stop c.nv _ _ s' (find_ends m c (tag_index uid) none s' v h' e null_auth)))
              λ s'' h''.
                follow c.nv _ _ s'' (clear_sessions_ends m c s'' v h'') λ s₃ h₃. (refl, h₃))
    | inr (i, e) ↦ chain c.nv _ _ s (version_nv_index_ends m c uid s v b h) λ s' h'.
        caught c.nv _ _ s'
          (nullauth_ends m c _ s' (
            chain c.nv _ _ s' (find_ends m c (tag_index uid) (some i) s' v h' e null_auth)
              λ s'' h''. undefine_ends m c (tag_index uid) (some i) s'' v h'' e))
          λ s'' h''. follow c.nv _ _ s'' (clear_sessions_ends m c s'' _ h'') λ s₃ h₃. (refl, h₃)
  ]
