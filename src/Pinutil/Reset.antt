-- ===== src/Pinutil/Reset.antt =====
-- `pinutil -m change` by root, on accounts.
use pinpam.Pinutil.{
  with_info, get_attempt_info, new_manager, as_allowed, Desk, Line, on_tpm, change, change_as_root,
  change_for, change_pin,
}
use pinpam.Pinutil.Verification.{words, entered}
use pinpam.Core.Manager.{with_tcti, restart_context, clear_sessions, PinManager}
use pinpam.Core.Manager.Users.{get_pin_slot, delete_pin_admin, setup_pin}
use pinpam.Core.Manager.Users.Effects.{get_pin_slot_ends}
use pinpam.Core.Manager.Accounts.{counter_of, Stores, Untouched, Untouched-trans}
use pinpam.Core.Manager.Accounts.Setup.{
  delete_pin_admin-Acts, setup_pin-Acts, set_account, set_result,
}
use pinpam.Core.Manager.Connected.{
  with_tcti_ends, restart_context_ends, clear_sessions_ends, IsConnected,
}
use pinpam.Core.Tpm.Laws.{max_auth}
use pinpam.Base.Text.{Text}
use pinpam.Core.Error.{PinError}
use pinpam.Core.Util.{can_manage_pin, get_uid_from_username, Caller}
use pinpam.Core.Account.{Account}
use pinpam.Core.Consts.{pin_version_uid_max}
use pinpam.Core.Pin.{as_bytes, Pin, new}
use pinpam.Base.{
  ◌^◌, ◌>>◌, ◌<◌, some, length, ◌≡◌, Outcome, ◌>>=◌, List, ◌≤◌, ℕ, refl, true, inr, ok, ◌∷◌, arith,
}

module _ (m : PinManager) (c : IsConnected m) (uid : ℕ) (range : uid ≤ pin_version_uid_max)
    (s : m.tpm.State) (a : Account) (pin : Pin) (rest : List Line) where
  open m use {tpm}

  -- The command has ended as the setting of the PIN does, after the old one was removed, and has
  -- read the input up to `rest`.
  abbrev pub Resets : Outcome PinError (Unit {0}) × Desk m → Type 0
  Resets q =
      (q.0 ≡ set_result m c pin)
      × Stores m c (c.nv q.1.0) uid (set_account m pin)
      × Untouched m c uid (c.nv s) (c.nv q.1.0)
      × (q.1.1 ≡ rest)

  replaced :
      (caller : Caller) (text : Text) (s' : tpm.State)
      → new text m.policy ≡ ok pin
      → m.policy.max_attempts < 2 ^ 31
      → length (as_bytes pin) ≤ max_auth
      → Stores m c (c.nv s) uid (some a)
      → c.nv s' ≡ c.nv s
      → Resets (change_as_root m caller true uid (s', inr text ∷ rest))
  unfolding change_as_root ◌>>=◌ ◌>>◌ on_tpm
  replaced caller text s' e small fits k h =
      let d = delete_pin_admin-Acts m c uid range s' a (rw h k) in
      let s₁ = (delete_pin_admin m uid s').1 in
      let l = clear_sessions_ends m c s₁ (c.nv s₁) refl in
      let s₂ = (clear_sessions m s₁).1 in
      let n = setup_pin-Acts m c uid range s₂ pin small fits (rw l.1 d.1) in
      let final = c.nv (setup_pin m uid pin s₂).1 in
      rw (entered m pin rest text s' e, d.0, l.0, n.0)
        (
          refl,
          n.1,
          Untouched-trans m c uid (c.nv s) (c.nv s₁) final (rw (← h) d.2) (rw (← l.1) n.2),
          refl,
        )

  changed :
      (caller : Caller) (text : Text)
      → caller.uid ≡ 0
      → new text m.policy ≡ ok pin
      → m.policy.max_attempts < 2 ^ 31
      → length (as_bytes pin) ≤ max_auth
      → Stores m c (c.nv s) uid (some a)
      → Resets (change_for m caller true uid (s, inr text ∷ rest))
  unfolding change_for change new_manager get_attempt_info on_tpm with_info ◌>>◌ ◌>>=◌
  changed caller text who e small fits k =
      let p = with_tcti_ends m c s (c.nv s) refl in
      let s₁ = (with_tcti m s).1 in
      let q =
        get_pin_slot_ends m c uid range s₁ (c.nv s) p.1 a.pin _ (counter_of a)
          (words m c uid range s a pin rest k.2) k.0 in
      let s₂ = (get_pin_slot m uid s₁).1 in
      let r = restart_context_ends m c s₂ (c.nv s) q.1 in
      let s₃ = (restart_context m s₂).1 in
      let l = clear_sessions_ends m c s₃ (c.nv s) r.1 in
      rw (p.0, q.0, r.0, l.0, who) (replaced caller text (clear_sessions m s₃).1 e small fits k l.1)

  -- On a reliable TPM, with a limit below 2 ^ 31: let `pinutil -m change` be run by root for a
  -- user whose uid is at most PIN_VERSION_UID_MAX, with an account in the current format, whether
  -- attempts are left or not, and be given a line that the policy accepts as a PIN of at most 64
  -- bytes. With a PIN of at most 32 bytes it ends with `Ok(())` and leaves the account with that
  -- PIN, no failures and the policy's limit; with a longer one it ends with the TPM's refusal and
  -- leaves the user without indices, the old PIN being removed. It leaves the other users' indices
  -- alone and reads one line.
  pub change_pin-Resets :
      (caller : Caller) (username text : Text)
      → get_uid_from_username caller username ≡ ok uid
      → caller.uid ≡ 0
      → new text m.policy ≡ ok pin
      → m.policy.max_attempts < 2 ^ 31
      → length (as_bytes pin) ≤ max_auth
      → Stores m c (c.nv s) uid (some a)
      → Resets (change_pin m caller username true (s, inr text ∷ rest))
  unfolding change_pin as_allowed can_manage_pin ◌>>=◌
  change_pin-Resets caller username text found who e small fits k =
      let may : can_manage_pin caller uid ≡ true = ground (arith, who) in
      rw (found, may) (changed caller text who e small fits k)
