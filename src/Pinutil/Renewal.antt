-- ===== src/Pinutil/Renewal.antt =====
-- `pinutil -m change` by the user, on accounts.
use pinpam.Pinutil.{
  with_info, get_attempt_info, new_manager, as_allowed, Desk, Line, on_tpm, checked, change,
  change_own, change_for, change_pin, after_delete,
}
use pinpam.Pinutil.Verification.{words, info, open_account, prompted, entered}
use pinpam.Core.Manager.{with_tcti, restart_context, clear_sessions, PinManager}
use pinpam.Core.Manager.Users.{get_pin_slot, verify_pin, delete_pin_with_auth, setup_pin}
use pinpam.Core.Manager.Users.Effects.{get_pin_slot_ends}
use pinpam.Core.Manager.Accounts.{counter_of, Stores, Untouched, Untouched-trans}
use pinpam.Core.Manager.Accounts.Setup.{setup_pin-Acts, set_account, set_result}
use pinpam.Core.Manager.Accounts.Verify.{verify_pin-Acts}
use pinpam.Core.Manager.Accounts.Delete.{delete_pin_with_auth-Acts}
use pinpam.Core.Manager.Connected.{
  with_tcti_ends, restart_context_ends, clear_sessions_ends, IsConnected,
}
use pinpam.Core.Tpm.Laws.{max_auth}
use pinpam.Base.Text.{Text}
use pinpam.Core.Error.{PinError, incorrect_pin}
use pinpam.Core.Util.{can_manage_pin, get_uid_from_username, Caller}
use pinpam.Core.Account.{
  Account, Answer, accepted, rejected, refused, guess, guess_right, guess_wrong,
}
use pinpam.Core.Consts.{pin_version_uid_max}
use pinpam.Core.Pin.{as_bytes, Pin, new}
use pinpam.Base.{
  ◌^◌, ◌+◌, ◌>>◌, ◌<◌, ◌≢◌, some, length, ◌≡◌, Outcome, ◌>>=◌, List, ◌≤◌, ℕ, refl, true, false, inr,
  ok, err, ◌∷◌, arith, ◌==◌, inl, leb, list_eq, list_eq_iff, list_eq_sound, Bool-cases,
}

module _ (m : PinManager) (c : IsConnected m) (uid : ℕ) (range : uid ≤ pin_version_uid_max)
    (s : m.tpm.State) (a : Account) (pin next : Pin) (line : Text) (rest : List Line) where
  open m use {tpm}

  -- The command has ended as the guess at the old PIN says: as the setting of the new PIN does,
  -- after the old one was removed, or with the failure counted and the second line unread.
  abbrev pub Renews : Answer × Account → Outcome PinError (Unit {0}) × Desk m → Type 0
  Renews (accepted, b) q =
      (q.0 ≡ set_result m c next)
      × Stores m c (c.nv q.1.0) uid (set_account m next)
      × Untouched m c uid (c.nv s) (c.nv q.1.0)
      × (q.1.1 ≡ rest)
  Renews (rejected last, b) q =
      (q.0 ≡ err (incorrect_pin last))
      × Stores m c (c.nv q.1.0) uid (some b)
      × Untouched m c uid (c.nv s) (c.nv q.1.0)
      × (q.1.1 ≡ inr line ∷ rest)
  Renews (refused, b) q = ⊥

  -- The same account without failures accepts the PIN again.
  cleared : Account
  cleared = record a { failures = 0 }

  replaced :
      (caller : Caller) (text : Text) (s' : tpm.State)
      → new text m.policy ≡ ok pin
      → new line m.policy ≡ ok next
      → m.policy.max_attempts < 2 ^ 31
      → length (as_bytes pin) ≤ max_auth
      → length (as_bytes next) ≤ max_auth
      → Stores m c (c.nv s) uid (some a)
      → c.nv s' ≡ c.nv s
      → a.failures < a.limit
      → as_bytes pin ≡ a.pin
      → Renews
          (accepted, cleared)
          (change_own m caller true uid
            (info m c uid range s a pin rest)
            (s', inr text ∷ inr line ∷ rest))
  unfolding change_own after_delete checked ◌>>=◌ ◌>>◌ on_tpm cleared
  replaced caller text s' e e' small fits fits' k h left right =
      let v =
        rw (guess_right a (as_bytes pin) left right) at
          (verify_pin-Acts m c uid range s' pin a fits (rw h k)) in
      let s₁ = (verify_pin m uid pin s').1 in
      let r = restart_context_ends m c s₁ (c.nv s₁) refl in
      let s₂ = (restart_context m s₁).1 in
      let d =
        rw (guess_right cleared (as_bytes pin) (omega (arith, left)) right) at
          (delete_pin_with_auth-Acts m c uid range s₂ pin cleared fits (rw r.1 v.2.1)) in
      let s₃ = (delete_pin_with_auth m uid pin s₂).1 in
      let l = clear_sessions_ends m c s₃ (c.nv s₃) refl in
      let s₄ = (clear_sessions m s₃).1 in
      let n = setup_pin-Acts m c uid range s₄ next small fits' (rw l.1 d.2.1) in
      let final = c.nv (setup_pin m uid next s₄).1 in
      rw
        (
          open_account m c uid range s a pin rest left k.2.small,
          prompted m c uid range s a pin (inr line ∷ rest) text s' e,
          v.2.0,
          v.1,
          r.0,
          entered m next rest line s₂ e',
          d.2.0,
          d.1,
          l.0,
          n.0,
        )
        (
          refl,
          n.1,
          Untouched-trans m c uid (c.nv s) (c.nv s₁) final (rw (← h) v.2.2) (
              Untouched-trans m c uid (c.nv s₁) (c.nv s₃) final (rw (← r.1) d.2.2)
                (rw (← l.1) n.2)),
          refl,
        )

  counted :
      (caller : Caller) (text : Text) (s' : tpm.State)
      → new text m.policy ≡ ok pin
      → length (as_bytes pin) ≤ max_auth
      → Stores m c (c.nv s) uid (some a)
      → c.nv s' ≡ c.nv s
      → a.failures < a.limit
      → as_bytes pin ≢ a.pin
      → Renews
          (rejected (leb a.limit (a.failures + 1)), record a { failures = a.failures + 1 })
          (change_own m caller true uid
            (info m c uid range s a pin rest)
            (s', inr text ∷ inr line ∷ rest))
  unfolding change_own checked ◌>>=◌ ◌>>◌ on_tpm
  counted caller text s' e fits k h left wrong =
      let v =
        rw (guess_wrong a (as_bytes pin) left wrong) at
          (verify_pin-Acts m c uid range s' pin a fits (rw h k)) in
      rw
        (
          open_account m c uid range s a pin rest left k.2.small,
          prompted m c uid range s a pin (inr line ∷ rest) text s' e,
          v.2.0,
          v.1,
        )
        (refl, v.2.1, rw (← h) v.2.2, refl)

  renewed :
      (caller : Caller) (text : Text) (s' : tpm.State)
      → new text m.policy ≡ ok pin
      → new line m.policy ≡ ok next
      → m.policy.max_attempts < 2 ^ 31
      → length (as_bytes pin) ≤ max_auth
      → length (as_bytes next) ≤ max_auth
      → Stores m c (c.nv s) uid (some a)
      → c.nv s' ≡ c.nv s
      → a.failures < a.limit
      → Renews (guess a (as_bytes pin)) (
          change_own m caller true uid
            (info m c uid range s a pin rest)
            (s', inr text ∷ inr line ∷ rest))
  renewed caller text s' e e' small fits fits' k h left =
      elim (Bool-cases (list_eq (as_bytes pin) a.pin)) [
        | inl same ↦
            let right = list_eq_sound (as_bytes pin) a.pin same in
            rw (guess_right a (as_bytes pin) left right)
              (replaced caller text s' e e' small fits fits' k h left right)
        | inr other ↦
            let wrong : as_bytes pin ≢ a.pin = λ q. cc ((list_eq_iff (as_bytes pin) a.pin).1 q) in
            rw (guess_wrong a (as_bytes pin) left wrong)
              (counted caller text s' e fits k h left wrong)
      ]

  changed :
      (caller : Caller) (text : Text)
      → caller.uid ≢ 0
      → new text m.policy ≡ ok pin
      → new line m.policy ≡ ok next
      → m.policy.max_attempts < 2 ^ 31
      → length (as_bytes pin) ≤ max_auth
      → length (as_bytes next) ≤ max_auth
      → Stores m c (c.nv s) uid (some a)
      → a.failures < a.limit
      → Renews
          (guess a (as_bytes pin))
          (change_for m caller true uid (s, inr text ∷ inr line ∷ rest))
  unfolding change_for change new_manager get_attempt_info on_tpm with_info ◌>>◌ ◌>>=◌
  changed caller text nonzero e e' small fits fits' k left =
      let p = with_tcti_ends m c s (c.nv s) refl in
      let s₁ = (with_tcti m s).1 in
      let q =
        get_pin_slot_ends m c uid range s₁ (c.nv s) p.1 a.pin _ (counter_of a)
          (words m c uid range s a pin rest k.2) k.0 in
      let s₂ = (get_pin_slot m uid s₁).1 in
      let r = restart_context_ends m c s₂ (c.nv s) q.1 in
      let s₃ = (restart_context m s₂).1 in
      let l = clear_sessions_ends m c s₃ (c.nv s) r.1 in
      let user : (caller.uid == 0) ≡ false = ground (arith, nonzero) in
      rw (p.0, q.0, r.0, l.0, user)
        (renewed caller text (clear_sessions m s₃).1 e e' small fits fits' k l.1 left)

  -- On a reliable TPM, with a limit below 2 ^ 31: `pinutil -m change`, run by a user other than
  -- root for their own account in the current format with attempts left, with a uid of at most
  -- PIN_VERSION_UID_MAX, and given two lines that the policy accepts as PINs of at most 64 bytes,
  -- does as `guess` says of the first. Where it is accepted, both lines are read. With a second
  -- PIN of at most 32 bytes the command then ends with `Ok(())`, and the account has that PIN, no
  -- failures and the policy's limit; with a longer one it ends with the TPM's refusal, and the
  -- user is left without indices, the old PIN being removed. Where the first is rejected, the
  -- command ends with `IncorrectPin`, the failure is counted and the second line is not read. The
  -- other users' indices are left alone.
  pub change_pin-Renews :
      (caller : Caller) (username text : Text)
      → get_uid_from_username caller username ≡ ok uid
      → caller.uid ≡ uid
      → uid ≢ 0
      → new text m.policy ≡ ok pin
      → new line m.policy ≡ ok next
      → m.policy.max_attempts < 2 ^ 31
      → length (as_bytes pin) ≤ max_auth
      → length (as_bytes next) ≤ max_auth
      → Stores m c (c.nv s) uid (some a)
      → a.failures < a.limit
      → Renews
          (guess a (as_bytes pin))
          (change_pin m caller username true (s, inr text ∷ inr line ∷ rest))
  unfolding change_pin as_allowed can_manage_pin ◌>>=◌
  change_pin-Renews caller username text found who nonzero e e' small fits fits' k left =
      let may : can_manage_pin caller uid ≡ true = ground (arith, who) in
      let user : caller.uid ≢ 0 = λ z. nonzero (omega (arith, who, z)) in
      rw (found, may) (changed caller text user e e' small fits fits' k left)
