-- ===== src/Core/Manager/Slots/Verifies.antt =====
-- What `verify_pin_exact` answers on a reliable TPM, and what it leaves at the slot.
use pinpam.Core.PinData.{PinData}
use pinpam.Core.Manager.Commands.{find_ends}
use pinpam.Core.Index.Disjoint.{slot_index}
use pinpam.Core.Consts.{pin_version_uid_max}
use pinpam.Core.Error.{
  auth_fail, bad_auth, handle, nv_uninitialized, other_kind, not_provisioned, from_tss,
  ResponseKind, PinError, TssError, VerificationResult,
}
use pinpam.Base.{
  pure, on_result, if◌then◌else◌, lift, ◌>>=◌, ◌>>◌, length, ℕ, ◌+◌, ◌≤◌, ◌<◌, ◌^◌, Option, none,
  some, List, Outcome, ok, err, ◌≡◌, ◌≢◌, refl, ◌∙◌, ap, inl, inr, leb, arith,
}
use pinpam.Core.Tpm.{nv_index, no_session}
use pinpam.Core.Tpm.Chain.{follow_with, chain, stop, caught, converted}
use pinpam.Core.Tpm.Laws.{
  put-at, IsAuthError, put_self, counter_bytes, attempt_locked, attempt_wrong, attempt_right, Store,
  NvIndex, pin_slot, Counter, put, attempt, max_auth,
}
use pinpam.Core.Manager.{tss2_error, PinManager}
use pinpam.Core.Manager.Connected.{nv_index_ends, nullauth_ends, IsConnected, Results, Holds}
use pinpam.Core.Manager.Slots.{
  verify_pin_exact, read_as_user, on_read_error, refused, parse_slot, locked_now, is_exhausted,
}
use pinpam.Core.Manager.Slots.Reads.{IsWords, data_of, from_bytes-counter_bytes, read_slot_some}

module _ (m : PinManager) (c : IsConnected m) (n : ℕ) (guess : List ℕ)
    (fits : length guess ≤ max_auth) where
  open m use {tpm}

  -- The read itself: what the TPM answers to the guess.
  ask :
      (i : Option (NvIndex tpm.Digest)) (s : tpm.State) (v : Store tpm.Digest)
      → Holds m c s v
      → v n ≡ i
      → Results m c
          (tpm.execute_with_nullauth_session (List ℕ) (λ x. do
            auth ← lift (tpm.auth_try_from guess)
            tpm.tr_set_auth (c.handle_of n) auth
            tpm.nv_read x (nv_index (c.handle_of n)) (c.handle_of n) 8 0))
          s
          (attempt c.errors guess i).0
          (put v n (attempt c.errors guess i).1)
  ask i s v h e = nullauth_ends m c _ s (
      chain c.nv _ _ s (c.auth_fits guess fits, h)
        λ s₁ h₁.
          follow_with c.nv _ _ s₁ (λ s'. c.auth_of s' n ≡ guess)
            (let p = c.tr_set_auth_lem n guess s₁ in (p.0, p.1 ∙ h₁))
            (c.tr_set_auth_entered n guess s₁)
            λ s₂ h₂ p₂. rw (← e, ← h₂, ← p₂) (c.nv_read_lem n s₂))

  module _ (auth : List ℕ) (d : tpm.Digest) (k : Counter) (w : IsWords k) (s : tpm.State)
      (v : Store tpm.Digest) (h : Holds m c s v) (e : v n ≡ some (pin_slot auth d (some k))) where
    abbrev slot_of : Counter → Option (NvIndex tpm.Digest)
    slot_of j = some (pin_slot auth d (some j))

    abbrev reset : Counter
    reset = record k { count = 0 }

    abbrev bumped : Counter
    bumped = record k { count = k.count + 1 }

    parse_reset :
        (s₁ : tpm.State) → parse_slot m (counter_bytes reset) s₁ ≡ (ok (data_of reset), s₁)
    unfolding parse_slot
    parse_reset s₁ = rw (
        from_bytes-counter_bytes reset
          (record { count_word = omega arith; limit_word = w.limit_word }))

    -- The TPM takes the PIN and clears the counter; then the code looks at the counters once more.
    read_right :
        k.count < k.limit
        → guess ≡ auth
        → Results m c
            (read_as_user m (c.handle_of n) guess)
            s
            (ok (
              if is_exhausted (data_of reset)
              then VerificationResult.locked_out
              else VerificationResult.success (data_of reset)))
            (put v n (slot_of reset))
    unfolding read_as_user
    read_right left right =
        chain c.nv _ _ s
          (rw (attempt_right c.errors auth d k guess left right) at (ask (slot_of k) s v h e))
          λ s₁ h₁.
            chain c.nv _ _ s₁ {a = data_of reset}
              (ap (λ q. q.0) (parse_reset s₁), ap (λ q. c.nv q.1) (parse_reset s₁) ∙ h₁)
              λ s₂ h₂. (refl, h₂)

    read_wrong :
        k.count < k.limit
        → guess ≢ auth
        → Results m c
            (read_as_user m (c.handle_of n) guess)
            s
            (err (tss2_error (some c.errors.wrong_auth)))
            (put v n (slot_of bumped))
    unfolding read_as_user
    read_wrong left wrong =
        stop c.nv _ _ s
          (rw (attempt_wrong c.errors auth d k guess left wrong) at (ask (slot_of k) s v h e))

    read_locked :
        k.limit ≤ k.count
        → Results m c
            (read_as_user m (c.handle_of n) guess)
            s
            (err (tss2_error c.errors.unavailable))
            v
    unfolding read_as_user
    read_locked full = stop c.nv _ _ s (
        rw (attempt_locked c.errors auth d k guess full, ← e, put_self v n) at
          (ask (slot_of k) s v h e))

-- With counters that a `c_int` holds, the code compares them as the TPM does.
same_test :
    (j : Counter)
    → j.limit < 2 ^ 31
    → j.count < 2 ^ 31
    → is_exhausted (data_of j) ≡ leb j.limit j.count
same_test j a b = ground arith

abbrev pub NotSuccess : Outcome PinError VerificationResult → Type 0
NotSuccess r = (slot : PinData) → r ≢ ok (VerificationResult.success slot)

-- The answer to a slot that is used up, by the error code that the TPM has for it.
pub locked_answer : ℕ → Counter → Option ResponseKind → Outcome PinError VerificationResult
locked_answer uid k (some auth_fail) = ok (VerificationResult.invalid (is_exhausted (data_of k)))
locked_answer uid k (some bad_auth) = ok (VerificationResult.invalid (is_exhausted (data_of k)))
locked_answer uid k (some handle) = err (not_provisioned uid)
locked_answer uid k (some nv_uninitialized) = err (not_provisioned uid)
locked_answer uid k (some (other_kind j)) = err (from_tss (tss2_error (some (other_kind j))))
locked_answer uid k none = err (from_tss (tss2_error none))

pub locked_answer-NotSuccess :
    (uid : ℕ) (k : Counter) (kind : Option ResponseKind) → NotSuccess (locked_answer uid k kind)
unfolding locked_answer
locked_answer-NotSuccess uid k (some auth_fail) slot q = cc
locked_answer-NotSuccess uid k (some bad_auth) slot q = cc
locked_answer-NotSuccess uid k (some handle) slot q = cc
locked_answer-NotSuccess uid k (some nv_uninitialized) slot q = cc
locked_answer-NotSuccess uid k (some (other_kind j)) slot q = cc
locked_answer-NotSuccess uid k none slot q = cc

-- The verdict of `verify_pin_exact` for a user whose slot holds `k`.
module _ (m : PinManager) (c : IsConnected m) (uid : ℕ) (guess : List ℕ)
    (range : uid ≤ pin_version_uid_max) (fits : length guess ≤ max_auth) (auth : List ℕ)
    (d : m.tpm.Digest) (k : Counter) (w : IsWords k) (v : Store m.tpm.Digest)
    (e : v (slot_index uid) ≡ some (pin_slot auth d (some k))) where
  open m use {tpm}

  abbrev with_count : ℕ → Store tpm.Digest
  with_count count =
      put v (slot_index uid) (some (pin_slot auth d (some (record k { count = count }))))

  -- From the answer of the read to the answer of the method.
  by_read :
      {q : Outcome TssError VerificationResult} {r : Outcome PinError VerificationResult}
      {u u' : Store tpm.Digest} (s : tpm.State)
      → Holds m c s v
      → ((s' : tpm.State)
          → Holds m c s' v
          → Results m c (read_as_user m (c.handle_of (slot_index uid)) guess) s' q u)
      → ((s' : tpm.State)
          → Holds m c s' u
          → Results m c (on_result pure (on_read_error m uid (slot_index uid)) q) s' r u')
      → Results m c (verify_pin_exact m uid guess) s r u'
  unfolding verify_pin_exact
  by_read s h p next = chain c.nv _ _ s (nv_index_ends m c uid s v range h) λ s₁ h₁.
      chain c.nv _ _ s₁
        (converted c.nv _ _ s₁
          (find_ends m c (slot_index uid) (some (pin_slot auth d (some k))) s₁ v h₁ e no_session))
        λ s₂ h₂. caught c.nv _ _ s₂ (p s₂ h₂) next

  -- The right PIN, with attempts left and a limit that a `c_int` holds.
  pub verdict_right :
      (s : tpm.State)
      → Holds m c s v
      → k.count < k.limit
      → k.limit < 2 ^ 31
      → guess ≡ auth
      → Results m c
          (verify_pin_exact m uid guess)
          s
          (ok (VerificationResult.success (data_of (record k { count = 0 }))))
          (with_count 0)
  verdict_right s h left small right =
      by_read s h
        (λ s₁ h₁. read_right m c (slot_index uid) guess fits auth d k w s₁ v h₁ e left right)
        λ s₂ h₂. (ground arith, h₂)

  -- On a reliable TPM, with a limit of 2 ^ 31 or more, attempts left and the right PIN of at most
  -- 64 bytes, `verify_pin_exact` answers `LockedOut`, though the TPM accepts the PIN and clears
  -- the counter.
  pub verdict_negative_limit :
      (s : tpm.State)
      → Holds m c s v
      → k.count < k.limit
      → 2 ^ 31 ≤ k.limit
      → guess ≡ auth
      → Results m c
          (verify_pin_exact m uid guess)
          s
          (ok VerificationResult.locked_out)
          (with_count 0)
  verdict_negative_limit s h left large right =
      by_read s h
        (λ s₁ h₁. read_right m c (slot_index uid) guess fits auth d k w s₁ v h₁ e left right)
        λ s₂ h₂. (ground arith, h₂)

  -- A refused PIN: the second read says whether this attempt was the last.
  refused_ends :
      (j : Counter) (u : Store tpm.Digest) (s : tpm.State)
      → IsWords j
      → Holds m c s u
      → u (slot_index uid) ≡ some (pin_slot auth d (some j))
      → Results m c
          (refused m (slot_index uid))
          s
          (ok (VerificationResult.invalid (is_exhausted (data_of j))))
          u
  unfolding refused locked_now
  refused_ends j u s wj h at =
      caught c.nv _ _ s (read_slot_some m c (slot_index uid) s u h auth d j wj at)
        λ s₁ h₁. (refl, h₁)

  on_wrong_auth :
      (kind : ResponseKind) (j : Counter) (u : Store tpm.Digest) (s : tpm.State)
      → IsAuthError kind
      → IsWords j
      → Holds m c s u
      → u (slot_index uid) ≡ some (pin_slot auth d (some j))
      → Results m c
          (on_read_error m uid (slot_index uid) (tss2_error (some kind)))
          s
          (ok (VerificationResult.invalid (is_exhausted (data_of j))))
          u
  unfolding on_read_error
  on_wrong_auth kind j u s (inl a) wj h at = rw a (refused_ends j u s wj h at)
  on_wrong_auth kind j u s (inr a) wj h at = rw a (refused_ends j u s wj h at)

  -- A wrong PIN, with attempts left and a limit that a `c_int` holds: one more failure is counted.
  pub verdict_wrong :
      (s : tpm.State)
      → Holds m c s v
      → k.count < k.limit
      → k.limit < 2 ^ 31
      → guess ≢ auth
      → Results m c
          (verify_pin_exact m uid guess)
          s
          (ok (VerificationResult.invalid (leb k.limit (k.count + 1))))
          (with_count (k.count + 1))
  verdict_wrong s h left small wrong =
      by_read s h
        (λ s₁ h₁. read_wrong m c (slot_index uid) guess fits auth d k w s₁ v h₁ e left wrong)
        λ s₂ h₂. rw (← same_test (record k { count = k.count + 1 }) small (omega arith)) (
          on_wrong_auth c.errors.wrong_auth (record k { count = k.count + 1 }) _ s₂ c.errors_said
            (record { count_word = omega (arith, w.limit_word); limit_word = w.limit_word }) h₂
            (put-at v (slot_index uid) _))

  on_unavailable :
      (kind : Option ResponseKind) (s : tpm.State)
      → Holds m c s v
      → Results m c
          (on_read_error m uid (slot_index uid) (tss2_error kind))
          s
          (locked_answer uid k kind)
          v
  unfolding on_read_error locked_answer
  on_unavailable none s h = (refl, h)
  on_unavailable (some auth_fail) s h = refused_ends k v s w h e
  on_unavailable (some bad_auth) s h = refused_ends k v s w h e
  on_unavailable (some handle) s h = (refl, h)
  on_unavailable (some nv_uninitialized) s h = (refl, h)
  on_unavailable (some (other_kind j)) s h = (refl, h)

  -- Once the limit is reached the answer does not depend on the PIN, and nothing changes.
  pub verdict_locked :
      (s : tpm.State)
      → Holds m c s v
      → k.limit ≤ k.count
      → Results m c (verify_pin_exact m uid guess) s (locked_answer uid k c.errors.unavailable) v
  verdict_locked s h full =
      by_read s h (λ s₁ h₁. read_locked m c (slot_index uid) guess fits auth d k w s₁ v h₁ e full)
        (λ s₂ h₂. on_unavailable c.errors.unavailable s₂ h₂)
