-- ===== src/Core/Manager/History/Runs.antt =====
-- Runs of calls against the table of accounts.
use pinpam.Core.Index.Disjoint.{tag_index, slot_index}
use pinpam.Core.Manager.Accounts.{Untouched, Stores}
use pinpam.Core.Account.{Account}
use pinpam.Core.Consts.{pin_version_uid_max}
use pinpam.Core.Tpm.Laws.{Store}
use pinpam.Core.Manager.Connected.{IsConnected}
use pinpam.Core.Manager.{PinManager}
use pinpam.Base.{
  none, inr, ==_iff, inl, ◌==◌, Bool-cases, some, [], ◌∙◌, ◌∷◌, All, ◌≡◌, List, ◌^◌, Option, ◌≤◌, ℕ,
  ◌<◌, refl,
}
use pinpam.Core.Manager.History.{
  remove_as_root, remove, verify, set_up, Command, IsProper, obey, obey_all, call, call_all, Table,
  assign, Represents, user_of, call-Fulfils,
}

module _ (m : PinManager) (c : IsConnected m) where
  -- The indices of a user that were left alone hold the same account.
  pub Stores-kept :
      (v u : Store m.tpm.Digest) (uid : ℕ) (a : Option Account)
      → u (slot_index uid) ≡ v (slot_index uid)
      → u (tag_index uid) ≡ v (tag_index uid)
      → Stores m c v uid a
      → Stores m c u uid a
  Stores-kept v u uid none p q (e, t) = (p ∙ e, q ∙ t)
  Stores-kept v u uid (some a) p q (e, t, f) = (p ∙ e, q ∙ t, f)

  Represents-assign :
      (s s' : m.tpm.State) (t : Table) (uid : ℕ) (a : Option Account)
      → Represents m c s t
      → Stores m c (c.nv s') uid a
      → Untouched m c uid (c.nv s) (c.nv s')
      → Represents m c s' (assign t uid a)
  Represents-assign s s' t uid a h k u w range = elim (Bool-cases (w == uid)) [
    | inl same ↦ rw (same, (==_iff w uid).0 same) k
    | inr other ↦
        let at = u w range (λ q. cc (other, (==_iff w uid).1 q)) in
        rw other (Stores-kept (c.nv s) (c.nv s') w (t w) at.0 at.1 (h w range))
  ]

  pub user-IsProper : (k : Command) → IsProper k → user_of k ≤ pin_version_uid_max
  user-IsProper (set_up uid pin) h = h.0
  user-IsProper (verify uid pin) h = h.0
  user-IsProper (remove uid pin) h = h.0
  user-IsProper (remove_as_root uid) h = h

  module _ (small : m.policy.max_attempts < 2 ^ 31) where
    pub call-Represents :
        (k : Command) (s : m.tpm.State) (t : Table)
        → IsProper k
        → Represents m c s t
        → ((call m k s).0 ≡ (obey m.policy.max_attempts k (t (user_of k))).0)
          × Represents m c
              (call m k s).1
              (assign t (user_of k) (obey m.policy.max_attempts k (t (user_of k))).1)
    call-Represents k s t p h =
        let f = call-Fulfils m c small k s (t (user_of k)) p (h (user_of k) (user-IsProper k p)) in
        (f.0, Represents-assign s (call m k s).1 t (user_of k) _ h f.1 f.2)

    -- On a reliable TPM, with a limit below 2 ^ 31: any run of commands for any users, each with a
    -- uid of at most PIN_VERSION_UID_MAX and a PIN of at most 64 bytes, grants what `obey_all`
    -- grants on a table of accounts, and leaves the table that `obey_all` leaves. `obey_all`
    -- refuses to set a PIN of more than 32 bytes.
    pub call_all-Represents :
        (ks : List Command) (s : m.tpm.State) (t : Table)
        → All IsProper ks
        → Represents m c s t
        → ((call_all m ks s).0 ≡ (obey_all m.policy.max_attempts ks t).0)
          × Represents m c (call_all m ks s).1 (obey_all m.policy.max_attempts ks t).1
    call_all-Represents [] s t p h = (refl, h)
    call_all-Represents (k ∷ ks) s t (p, ps) h =
        let now = call-Represents k s t p h in
        let rest = call_all-Represents ks (call m k s).1 _ ps now.1 in (cc (now.0, rest.0), rest.1)
