-- ===== src/Core/Manager/Connected.antt =====
-- A manager whose TPM is reliable and whose TCTI can be parsed, and the steps that every method
-- takes on it.
use pinpam.Base.{ℕ, ◌≤◌, Outcome, ok, St, ◌≡◌, refl, ◌∙◌}
use pinpam.Core.Consts.{pin_version_uid_max}
use pinpam.Core.Error.{TssError, from_tss}
use pinpam.Core.Index.Disjoint.{
  slot_index, tag_index, nv_index_for_uid-eq, version_nv_index_for_uid-eq,
}
use pinpam.Core.Tpm.{Session, null_auth, no_session}
use pinpam.Core.Tpm.Chain.{Ends, chain, converted}
use pinpam.Core.Tpm.Laws.{IsReliable, Store}
use pinpam.Core.Manager.{
  with_tcti, PinManager, clear_sessions, restart_context, nv_index_for_uid,
  version_nv_index_for_uid,
}

pub record IsConnected (m : PinManager) : Type 1 where
  pub laws : IsReliable m.tpm
  pub open laws use *
  pub tcti : m.tpm.Tcti
  pub parsed : m.tpm.tcti_from_str m.tcti_spec ≡ ok tcti

module _ (m : PinManager) (c : IsConnected m) where
  -- How a method of the manager ends, in the contents of the NV storage.
  abbrev pub Results :
      {E A : Type 0} → St m.tpm.State E A → m.tpm.State → Outcome E A → Store m.tpm.Digest → Type 0
  Results = Ends c.nv

  abbrev pub Holds : m.tpm.State → Store m.tpm.Digest → Type 0
  Holds s v = c.nv s ≡ v

  pub clear_sessions_ends :
      (s : m.tpm.State) (v : Store m.tpm.Digest)
      → Holds s v
      → Results (clear_sessions m) s (ok tt) v
  unfolding clear_sessions
  clear_sessions_ends s v h = (refl, c.clear_sessions_lem s ∙ h)

  pub restart_context_ends :
      (s : m.tpm.State) (v : Store m.tpm.Digest)
      → Holds s v
      → Results (restart_context m) s (ok tt) v
  unfolding restart_context
  restart_context_ends s v h =
      chain c.nv _ _ s (converted c.nv from_tss _ s (c.parsed, h)) λ s' h'.
        converted c.nv from_tss _ s' (let p = c.new_context_lem c.tcti s' in (p.0, p.1 ∙ h'))

  pub nullauth_ends :
      {A : Type 0} (f : Session m.tpm.SessionId → St m.tpm.State TssError A) (s : m.tpm.State)
      {r : Outcome TssError A} {v : Store m.tpm.Digest}
      → Results (f null_auth) s r v
      → Results (m.tpm.execute_with_nullauth_session A f) s r v
  nullauth_ends {A} f s p = rw (c.with_nullauth A f s) p

  pub without_session_ends :
      {A : Type 0} (f : Session m.tpm.SessionId → St m.tpm.State TssError A) (s : m.tpm.State)
      {r : Outcome TssError A} {v : Store m.tpm.Digest}
      → Results (f no_session) s r v
      → Results (m.tpm.execute_without_session A f) s r v
  without_session_ends {A} f s p = rw (c.without_session A f s) p

  pub nv_index_ends :
      (uid : ℕ) (s : m.tpm.State) (v : Store m.tpm.Digest)
      → uid ≤ pin_version_uid_max
      → Holds s v
      → Results (nv_index_for_uid m uid) s (ok (slot_index uid)) v
  nv_index_ends uid s v b h = (nv_index_for_uid-eq _ c.new_handle uid b, h)

  pub version_nv_index_ends :
      (uid : ℕ) (s : m.tpm.State) (v : Store m.tpm.Digest)
      → uid ≤ pin_version_uid_max
      → Holds s v
      → Results (version_nv_index_for_uid m uid) s (ok (tag_index uid)) v
  version_nv_index_ends uid s v b h = (version_nv_index_for_uid-eq _ c.new_handle uid b, h)

  pub with_tcti_ends :
      (s : m.tpm.State) (v : Store m.tpm.Digest) → Holds s v → Results (with_tcti m) s (ok tt) v
  unfolding with_tcti
  with_tcti_ends s v h =
      chain c.nv _ _ s (converted c.nv from_tss _ s (c.parsed, h)) λ s' h'.
        converted c.nv from_tss _ s' (let p = c.new_context_lem c.tcti s' in (p.0, p.1 ∙ h'))
