-- ===== src/Pinutil/Deletion.antt =====
-- `pinutil -m delete` by the user, on accounts.
use pinpam.Core.Manager.Users.{get_pin_slot}
use pinpam.Core.Manager.Users.Effects.{get_pin_slot_ends}
use pinpam.Pinutil.Verification.{open_account, words, prompted, info}
use pinpam.Core.Tpm.Laws.{max_auth}
use pinpam.Core.Manager.Accounts.{counter_of, Stores}
use pinpam.Base.Text.{Text}
use pinpam.Core.Error.{PinError}
use pinpam.Core.Util.{get_uid_from_username, Caller}
use pinpam.Core.Account.{guess_wrong, Account}
use pinpam.Core.Consts.{pin_version_uid_max}
use pinpam.Core.Manager.Connected.{with_tcti_ends, IsConnected}
use pinpam.Core.Manager.{with_tcti, PinManager}
use pinpam.Core.Pin.{as_bytes}
use pinpam.Base.{
  ◌&&◌, not, ◌>>◌, ◌≢◌, ◌<◌, some, some, length, ◌≡◌, Outcome, ◌>>=◌, ◌+◌, List, ◌≤◌, ℕ, refl, true,
  false, inr, ok, ◌∷◌, arith, ◌==◌,
}
use pinpam.Pinutil.{with_info, get_attempt_info, new_manager, as_allowed, Desk, Line, on_tpm}
use pinpam.Pinutil.Use.{delete_pin, delete_for, delete_with, delete_own}
use pinpam.Core.Pin.{as_bytes, Pin, new}
use pinpam.Core.Manager.Accounts.Delete.{delete_pin_with_auth-Acts}

module _ (m : PinManager) (c : IsConnected m) (uid : ℕ) (range : uid ≤ pin_version_uid_max)
    (s : m.tpm.State) (a : Account) (pin : Pin) (rest : List Line) where
  open m use {tpm}

  abbrev counted : Account
  counted = record a { failures = a.failures + 1 }

  abbrev Unheard : Outcome PinError (Unit {0}) × Desk m → Type 0
  Unheard q = (q.0 ≡ ok tt) × Stores m c (c.nv q.1.0) uid (some counted)

  own :
      (caller : Caller) (text : Text) (s' : tpm.State)
      → new text m.policy ≡ ok pin
      → length (as_bytes pin) ≤ max_auth
      → Stores m c (c.nv s') uid (some a)
      → a.failures < a.limit
      → as_bytes pin ≢ a.pin
      → Unheard
          (delete_own m caller true uid (info m c uid range s a pin rest) (s', inr text ∷ rest))
  unfolding delete_own ◌>>=◌ on_tpm
  own caller text s' e fits k left wrong =
      let v = delete_pin_with_auth-Acts m c uid range s' pin a fits k in
      let w = rw (guess_wrong a (as_bytes pin) left wrong) at v in
      rw (prompted m c uid range s a pin rest text s' e, w.2.0, w.1) (refl, w.2.1)

  theirs :
      (caller : Caller) (text : Text)
      → caller.uid ≡ uid
      → uid ≢ 0
      → new text m.policy ≡ ok pin
      → length (as_bytes pin) ≤ max_auth
      → Stores m c (c.nv s) uid (some a)
      → a.failures < a.limit
      → as_bytes pin ≢ a.pin
      → Unheard (delete_for m caller true uid (s, inr text ∷ rest))
  unfolding delete_for delete_with new_manager get_attempt_info on_tpm with_info ◌>>◌ ◌>>=◌
  theirs caller text who nonzero e fits k left wrong =
      let p = with_tcti_ends m c s (c.nv s) refl in
      let s₁ = (with_tcti m s).1 in
      let q =
        get_pin_slot_ends m c uid range s₁ (c.nv s) p.1 a.pin _ (counter_of a)
          (words m c uid range s a pin rest k.2) k.0 in
      let user : (caller.uid == 0) ≡ false = ground (arith, who, nonzero) in
      rw (p.0, q.0, user, open_account m c uid range s a pin rest left k.2.small)
        (own caller text (get_pin_slot m uid s₁).1 e fits (rw q.1 k) left wrong)

  -- On a reliable TPM, `pinutil -m delete`, run by a user other than root for their own account
  -- with attempts left and given a wrong PIN that the policy accepts, of at most 64 bytes, ends
  -- with `Ok(())` although the account stays, with one more failure.
  pub delete_pin_unheard :
      (caller : Caller) (username text : Text)
      → get_uid_from_username caller username ≡ ok uid
      → caller.uid ≡ uid
      → uid ≢ 0
      → new text m.policy ≡ ok pin
      → length (as_bytes pin) ≤ max_auth
      → Stores m c (c.nv s) uid (some a)
      → a.failures < a.limit
      → as_bytes pin ≢ a.pin
      → ((delete_pin m caller username true (s, inr text ∷ rest)).0 ≡ ok tt)
        × Stores m c
            (c.nv (delete_pin m caller username true (s, inr text ∷ rest)).1.0)
            uid
            (some (record a { failures = a.failures + 1 }))
  unfolding delete_pin as_allowed ◌>>=◌
  delete_pin_unheard caller username text found who nonzero e fits k left wrong =
      let may : not (not (caller.uid == 0) && not (caller.uid == uid)) ≡ true =
        ground (arith, who) in
      rw (found, may) (theirs caller text who nonzero e fits k left wrong)
