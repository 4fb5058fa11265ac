-- ===== src/Core/Manager/Slots/Defines.antt =====
-- What `define_pin_slot` leaves at an index of a reliable TPM.
use pinpam.Core.Error.{tss2_error, from_tss}
use pinpam.Base.Int.{as_u32-as_c_int, as_c_int}
use pinpam.Core.PinData.{be_bytes, to_bytes, new}
use pinpam.Core.Manager.Commands.{define_ends, find_ends}
use pinpam.Base.{
  le→ltb, lt→ltb, err, unwrap, arith, length, List, lift, ◌>>=◌, ◌>>◌, Outcome, ℕ, ◌≤◌, ◌<◌, ◌^◌,
  none, some, ok, ◌≡◌, refl, ◌∙◌, ap, false,
}
use pinpam.Core.Tpm.{SessionType, trial, policy, no_session, NvPublic}
use pinpam.Core.Tpm.Chain.{cease, chain, follow, chain_with, follow_with, converted}
use pinpam.Core.Tpm.Laws.{
  max_index_auth, put_self, counter_bytes, put-at, put-put, max_auth, Store, NvIndex, pin_slot,
  Counter, put, write_once,
}
use pinpam.Core.Manager.{TssError, Tss, PinManager}
use pinpam.Core.Manager.Connected.{nullauth_ends, without_session_ends, IsConnected, Results, Holds}
use pinpam.Core.Manager.Slots.{
  pos, slot_attributes, apply_policy, slot_public, write_counters, define_pin_slot, expect,
}

module _ (m : PinManager) (c : IsConnected m) where
  open m use {tpm}

  abbrev HasPolicy : tpm.SessionId → tpm.Digest → tpm.State → Type 0
  HasPolicy i d s = c.policy_of s i ≡ d

  apply_policy_ends :
      (i : tpm.SessionId) (s : tpm.State) (v : Store tpm.Digest)
      → Holds m c s v
      → Results m c (apply_policy m i) s (ok tt) v
  unfolding apply_policy
  apply_policy_ends i s v h =
      follow c.nv _ _ s (let p = c.command_code_lem i s in (p.0, p.1 ∙ h))
        λ s' h'. let p = c.nv_written_lem i false s' in (p.0, p.1 ∙ h')

  apply_policy_policy :
      (i : tpm.SessionId) (s : tpm.State)
      → HasPolicy i c.digests.no_assertion s
      → HasPolicy i (write_once c.digests) (apply_policy m i s).1
  unfolding apply_policy ◌>>◌
  apply_policy_policy i s h =
      rw ((c.command_code_lem i s).0, c.nv_written_policy i false, c.command_code_policy i s, h)

  set_attributes_ends :
      (i : tpm.SessionId) (s : tpm.State) (v : Store tpm.Digest)
      → Holds m c s v
      → Results m c (tpm.tr_sess_set_attributes i) s (ok tt) v
  set_attributes_ends i s v h = let p = c.set_attributes_lem i s in (p.0, ap (λ q. q.0) p.1 ∙ h)

  set_attributes_policy :
      (i : tpm.SessionId) (d : tpm.Digest) (s : tpm.State)
      → HasPolicy i d s
      → HasPolicy i d (tpm.tr_sess_set_attributes i s).1
  set_attributes_policy i d s h = ap (λ q. q.1 i) (c.set_attributes_lem i s).1 ∙ h

  -- The public area that the first closure builds: a PIN index under the write-once policy.
  abbrev slot_area : ℕ → NvPublic tpm.Digest
  slot_area n = record {
    nv_index = n;
    attributes = slot_attributes;
    data_area_size = 8;
    auth_policy = some (write_once c.digests);
  }

  -- In either kind of session the policy is put together from the start.
  policy_built :
      {A : Type 0} (t : SessionType) (k : tpm.SessionId → tpm.SessionId → Tss m A) (s : tpm.State)
      (v w : Store tpm.Digest) {r : Outcome TssError A}
      → Holds m c s v
      → ((i : tpm.SessionId) (s' : tpm.State)
          → Holds m c s' v
          → HasPolicy i (write_once c.digests) s'
          → Results m c (k i i) s' r w)
      → Results m c
          (do
            started ← tpm.start_auth_session t
            i ← expect started
            tpm.tr_sess_set_attributes i
            policy_session ← lift (tpm.policy_session i)
            tpm.tr_sess_set_attributes policy_session
            apply_policy m policy_session
            k i policy_session)
          s
          r
          w
  policy_built t k s v w h next =
      let i = c.started t s in
      let fresh = HasPolicy i c.digests.no_assertion in
      chain_with c.nv _ _ s fresh (let p = c.start_auth_session_lem t s in (p.0, p.1 ∙ h))
        (c.start_policy t s)
        λ s₁ h₁ p₁.
          chain_with c.nv _ _ s₁ fresh (refl, h₁) p₁
            λ s₂ h₂ p₂.
              follow_with c.nv _ _ s₂ fresh (set_attributes_ends i s₂ v h₂)
                (set_attributes_policy i _ s₂ p₂)
                λ s₃ h₃ p₃.
                  chain_with c.nv _ _ s₃ fresh (c.policy_session_lem i, h₃) p₃
                    λ s₄ h₄ p₄.
                      follow_with c.nv _ _ s₄ fresh (set_attributes_ends i s₄ v h₄)
                        (set_attributes_policy i _ s₄ p₄)
                        λ s₅ h₅ p₅.
                          follow_with c.nv _ _ s₅ (HasPolicy i (write_once c.digests))
                            (apply_policy_ends i s₅ v h₅) (apply_policy_policy i s₅ p₅)
                            λ s₆ h₆ p₆. next i s₆ h₆ p₆

  slot_public_ends :
      (n : ℕ) (s : tpm.State) (v : Store tpm.Digest)
      → Holds m c s v
      → Results m c (slot_public m n no_session) s (ok (slot_area n)) v
  unfolding slot_public
  slot_public_ends n s v h = policy_built trial _ s v v h λ i s₁ h₁ p₁.
      chain c.nv _ _ s₁ (let p = c.get_digest_lem i s₁ in (p.0 ∙ ap ok p₁, p.1 ∙ h₁)) λ s₂ h₂.
        chain c.nv _ _ s₂ (c.attributes_built slot_attributes, h₂)
          λ s₃ h₃.
            follow c.nv _ _ s₃ (c.attributes_valid slot_attributes, h₃)
              λ s₄ h₄.
                chain c.nv _ _ s₄ (c.public_built (slot_area n), h₄)
                  λ s₅ h₅.
                    follow c.nv _ _ s₅ {a = tt} (refl, c.clear_sessions_lem s₅ ∙ h₅)
                      λ s₆ h₆.
                        follow c.nv _ _ s₆ (let p = c.flush_context_lem i s₆ in (p.0, p.1 ∙ h₆))
                          λ s₇ h₇. (refl, h₇)

  -- The counters of a new slot.
  abbrev pub new_counter : Counter
  new_counter = record { count = 0; limit = m.policy.max_attempts }

  initial_bytes :
      m.policy.max_attempts < 2 ^ 32
      → unwrap (tpm.max_nv_buffer (to_bytes (new (pos 0) (as_c_int m.policy.max_attempts))))
        ≡ ok (counter_bytes new_counter)
  unfolding to_bytes new be_bytes
  initial_bytes w = rw (
    as_u32-as_c_int m.policy.max_attempts w,
    c.buffer_fits (counter_bytes new_counter) (omega arith),
  )

  write_counters_ends :
      (n : ℕ) (auth : List ℕ) (s : tpm.State) (v : Store tpm.Digest)
      → m.policy.max_attempts < 2 ^ 32
      → Holds m c s v
      → v n ≡ some (pin_slot auth (write_once c.digests) none)
      → Results m c
          (write_counters m n auth no_session)
          s
          (ok tt)
          (put v n (some (pin_slot auth (write_once c.digests) (some new_counter))))
  unfolding write_counters
  write_counters_ends n auth s v w h e = policy_built policy _ s v _ h λ i s₁ h₁ p₁.
      chain_with c.nv _ _ s₁ (HasPolicy i (write_once c.digests))
        (find_ends m c n (some (pin_slot auth (write_once c.digests) none)) s₁ v h₁ e no_session)
        (ap (λ q. q.1 i) (c.tr_from_tpm_public_lem no_session n s₁).1 ∙ p₁)
        λ s₂ h₂ p₂. rw (c.with_session (Unit {0}) i _ s₂) (
          follow_with c.nv _ _ s₂ (HasPolicy i (write_once c.digests))
            (let p = c.set_session_auth_lem i auth s₂ in (p.0, ap (λ q. q.0) p.1 ∙ h₂))
            (ap (λ q. q.1 i) (c.set_session_auth_lem i auth s₂).1 ∙ p₂)
            λ s₃ h₃ p₃.
              chain_with c.nv _ _ s₃ (HasPolicy i (write_once c.digests)) (initial_bytes w, h₃) p₃
                λ s₄ h₄ p₄.
                  rw (← h₄)
                    (c.write_by_policy i n new_counter auth s₄ p₄ (rw h₄ e) (omega arith) w))

  -- A fresh slot: the PIN, no failures, the limit of the policy, and counters that cannot be
  -- written again.
  pub define_pin_slot_ends :
      (n : ℕ) (pin_bytes : List ℕ) (s : tpm.State) (v : Store tpm.Digest)
      → m.policy.max_attempts < 2 ^ 32
      → length pin_bytes ≤ max_index_auth
      → Holds m c s v
      → v n ≡ none
      → Results m c
          (define_pin_slot m n pin_bytes)
          s
          (ok tt)
          (put v n (some (pin_slot pin_bytes (write_once c.digests) (some new_counter))))
  unfolding define_pin_slot
  define_pin_slot_ends n pin_bytes s v w l h e =
      let unwritten = some (pin_slot pin_bytes (write_once c.digests) none) in
      let short = le→ltb (length pin_bytes) max_index_auth l in
      chain c.nv _ _ s (converted c.nv _ _ s (c.auth_fits pin_bytes (omega (arith, l)), h)) λ s₁ h₁.
        chain c.nv _ _ s₁
          (converted c.nv _ _ s₁ (without_session_ends m c _ s₁ (slot_public_ends n s₁ v h₁)))
          λ s₂ h₂.
            follow c.nv _ _ s₂
              (converted c.nv _ _ s₂ (
                nullauth_ends m c _ s₂
                  (rw short at (define_ends m c (slot_area n) none s₂ v h₂ e (some pin_bytes)))))
              λ s₃ h₃.
                rw
                  (← put-put v n unwritten
                    (some (pin_slot pin_bytes (write_once c.digests) (some new_counter))))
                  (converted c.nv _ _ s₃ (
                    without_session_ends m c _ s₃
                      (write_counters_ends n pin_bytes s₃ _ w h₃ (put-at v n unwritten))))

  -- An index that is there already is not defined again, and stays as it was.
  pub define_pin_slot_refused :
      (n : ℕ) (pin_bytes : List ℕ) (i : NvIndex tpm.Digest) (s : tpm.State) (v : Store tpm.Digest)
      → length pin_bytes ≤ max_auth
      → Holds m c s v
      → v n ≡ some i
      → Results m c
          (define_pin_slot m n pin_bytes)
          s
          (err (from_tss (tss2_error (c.errors.refused pin_bytes))))
          v
  unfolding define_pin_slot
  define_pin_slot_refused n pin_bytes i s v l h e =
      chain c.nv _ _ s (converted c.nv _ _ s (c.auth_fits pin_bytes l, h)) λ s₁ h₁.
        chain c.nv _ _ s₁
          (converted c.nv _ _ s₁ (without_session_ends m c _ s₁ (slot_public_ends n s₁ v h₁)))
          λ s₂ h₂. cease c.nv _ _ s₂ (
            converted c.nv _ _ s₂ (
              nullauth_ends m c _ s₂ (
                rw (← e, put_self v n) at
                  (define_ends m c (slot_area n) (some i) s₂ v h₂ e (some pin_bytes)))))

  -- A PIN that is longer than the authorisation value of an index is refused, and no index is made.
  pub define_pin_slot_long :
      (n : ℕ) (pin_bytes : List ℕ) (s : tpm.State) (v : Store tpm.Digest)
      → max_index_auth < length pin_bytes
      → length pin_bytes ≤ max_auth
      → Holds m c s v
      → v n ≡ none
      → Results m c
          (define_pin_slot m n pin_bytes)
          s
          (err (from_tss (tss2_error (c.errors.refused pin_bytes))))
          v
  unfolding define_pin_slot
  define_pin_slot_long n pin_bytes s v long l h e =
      chain c.nv _ _ s (converted c.nv _ _ s (c.auth_fits pin_bytes l, h)) λ s₁ h₁.
        chain c.nv _ _ s₁
          (converted c.nv _ _ s₁ (without_session_ends m c _ s₁ (slot_public_ends n s₁ v h₁)))
          λ s₂ h₂. cease c.nv _ _ s₂ (
            converted c.nv _ _ s₂ (
              nullauth_ends m c _ s₂ (
                rw (lt→ltb max_index_auth (length pin_bytes) long, ← e, put_self v n) at
                  (define_ends m c (slot_area n) none s₂ v h₂ e (some pin_bytes)))))
