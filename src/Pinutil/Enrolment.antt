-- ===== src/Pinutil/Enrolment.antt =====
-- `pinutil -m setup`, on accounts.
use pinpam.Pinutil.{new_manager, as_allowed, Desk, Line, on_tpm, set_up, run_setup, unless_set}
use pinpam.Pinutil.Verification.{entered}
use pinpam.Core.Manager.{with_tcti, PinManager}
use pinpam.Core.Manager.Users.{get_attempt_count}
use pinpam.Core.Manager.Slots.Reads.{read_slot_none, read_slot_some, data_of}
use pinpam.Core.Manager.Accounts.{counter_of, Stores, Untouched}
use pinpam.Core.Manager.Accounts.Setup.{setup_pin-Acts, set_account, set_result}
use pinpam.Core.Manager.Connected.{with_tcti_ends, nv_index_ends, IsConnected, Results}
use pinpam.Core.Tpm.Chain.{chain}
use pinpam.Core.Tpm.Laws.{max_auth}
use pinpam.Core.Index.Disjoint.{slot_index}
use pinpam.Base.Text.{Text}
use pinpam.Base.Int.{as_u32}
use pinpam.Core.Error.{PinError, pin_already_set}
use pinpam.Core.Util.{can_manage_pin, get_uid_from_username, Caller}
use pinpam.Core.Account.{Account}
use pinpam.Core.Consts.{pin_version_uid_max}
use pinpam.Core.Pin.{as_bytes, Pin, new}
use pinpam.Base.{
  ◌^◌, ◌>>◌, ◌<◌, some, none, Option, length, ◌≡◌, Outcome, ◌>>=◌, List, ◌≤◌, ℕ, refl, true, inr,
  ok, err, ◌∷◌, arith, catch,
}

module _ (m : PinManager) (c : IsConnected m) (uid : ℕ) (range : uid ≤ pin_version_uid_max) where
  -- `get_attempt_count` without a slot, and with one.
  count_none :
      (s : m.tpm.State)
      → c.nv s (slot_index uid) ≡ none
      → Results m c (get_attempt_count m uid) s (ok none) (c.nv s)
  unfolding get_attempt_count
  count_none s e = chain c.nv _ _ s (nv_index_ends m c uid s (c.nv s) range refl) λ s₁ h₁.
      chain c.nv _ _ s₁ (read_slot_none m c (slot_index uid) s₁ (c.nv s) h₁ e) λ s₂ h₂. (refl, h₂)

  count_some :
      (s : m.tpm.State) (a : Account)
      → Stores m c (c.nv s) uid (some a)
      → Results m c
          (get_attempt_count m uid)
          s
          (ok (some (as_u32 (data_of (counter_of a)).pin_count)))
          (c.nv s)
  unfolding get_attempt_count
  count_some s a k = chain c.nv _ _ s (nv_index_ends m c uid s (c.nv s) range refl) λ s₁ h₁.
      chain c.nv _ _ s₁
        (read_slot_some m c (slot_index uid) s₁ (c.nv s) h₁ a.pin _ (counter_of a)
          (record {
            count_word = omega (arith, k.2.within, k.2.small);
            limit_word = omega (arith, k.2.small);
          })
          k.0)
        λ s₂ h₂. (refl, h₂)

  module _ (s : m.tpm.State) (pin : Pin) (text : Text) (rest : List Line) where
    open m use {tpm}

    -- For a user without a PIN the command has ended as the setting of the PIN does, and has read
    -- the input up to `rest`; a user with one keeps it, and nothing is read.
    abbrev pub Enrols : Option Account → Outcome PinError (Unit {0}) × Desk m → Type 0
    Enrols none q =
        (q.0 ≡ set_result m c pin)
        × Stores m c (c.nv q.1.0) uid (set_account m pin)
        × Untouched m c uid (c.nv s) (c.nv q.1.0)
        × (q.1.1 ≡ rest)
    Enrols (some a) q =
        (q.0 ≡ err pin_already_set)
        × Stores m c (c.nv q.1.0) uid (some a)
        × Untouched m c uid (c.nv s) (c.nv q.1.0)
        × (q.1.1 ≡ inr text ∷ rest)

    enrolled :
        (caller : Caller) (account : Option Account)
        → new text m.policy ≡ ok pin
        → m.policy.max_attempts < 2 ^ 31
        → length (as_bytes pin) ≤ max_auth
        → Stores m c (c.nv s) uid account
        → Enrols account (set_up m caller true uid (s, inr text ∷ rest))
    unfolding set_up unless_set new_manager on_tpm catch ◌>>◌ ◌>>=◌
    enrolled caller none e small fits k =
        let p = with_tcti_ends m c s (c.nv s) refl in
        let s₁ = (with_tcti m s).1 in
        let q = count_none s₁ (rw p.1 k.0) in
        let s₂ = (get_attempt_count m uid s₁).1 in
        let n = setup_pin-Acts m c uid range s₂ pin small fits (rw (q.1, p.1) k) in
        rw (p.0, q.0, entered m pin rest text s₂ e, n.0) (refl, n.1, rw (← p.1, ← q.1) n.2, refl)
    enrolled caller (some a) e small fits k =
        let p = with_tcti_ends m c s (c.nv s) refl in
        let s₁ = (with_tcti m s).1 in
        let q = count_some s₁ a (rw p.1 k) in
        rw (p.0, q.0) (refl, rw (q.1, p.1) k, λ w b ne. rw (q.1, p.1) (refl, refl), refl)

    -- On a reliable TPM, with a limit below 2 ^ 31: let `pinutil -m setup` be run by root or the
    -- user, whose uid is at most PIN_VERSION_UID_MAX, and be given a line that the policy accepts
    -- as a PIN of at most 64 bytes. For a user without indices it reads the line: with a PIN of at
    -- most 32 bytes it sets that PIN, with no failures and the policy's limit, and ends with
    -- `Ok(())`; with a longer one it ends with the TPM's refusal and leaves the user without
    -- indices. For a user with an account in the current format it ends with `PinAlreadySet`,
    -- keeps the account and reads nothing. The other users' indices are left alone.
    pub run_setup-Enrols :
        (caller : Caller) (username : Text) (account : Option Account)
        → get_uid_from_username caller username ≡ ok uid
        → can_manage_pin caller uid ≡ true
        → new text m.policy ≡ ok pin
        → m.policy.max_attempts < 2 ^ 31
        → length (as_bytes pin) ≤ max_auth
        → Stores m c (c.nv s) uid account
        → Enrols account (run_setup m caller username true (s, inr text ∷ rest))
    unfolding run_setup as_allowed ◌>>=◌
    run_setup-Enrols caller username account found may e small fits k =
        rw (found, may) (enrolled caller account e small fits k)
