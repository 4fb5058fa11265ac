-- ===== src/Core/Manager/History/Reach.antt =====
-- The states of the NV storage that the program can reach.
use pinpam.Core.Index.Disjoint.{slot_index}
use pinpam.Core.Tpm.Chain.{chain}
use pinpam.Core.Consts.{pin_version_uid_max}
use pinpam.Core.Manager.Accounts.{counter_of, Stores, IsFit}
use pinpam.Core.Account.{Account}
use pinpam.Core.Manager.Connected.{nv_index_ends, Holds, with_tcti_ends, IsConnected}
use pinpam.Core.Manager.{with_tcti, PinManager}
use pinpam.Base.{
  some, inr, ==_iff, arith, inl, ◌==◌, Bool-cases, ◌^◌, ◌≤◌, Option, ◌<◌, ℕ, refl, none,
}
use pinpam.Core.Manager.History.{Command, IsProper, call, user_of, call-Fulfils}
use pinpam.Core.Manager.History.Runs.{Stores-kept, user-IsProper}
use pinpam.Core.Manager.Users.{get_pin_slot}
use pinpam.Core.Manager.Slots.Reads.{IsWords, read_slot_none, read_slot_some}

-- One step: a command, a look at a slot, or a new connection.
pub data Step (m : PinManager) : m.tpm.State → m.tpm.State → Type 0 where
  command : (k : Command) (s : m.tpm.State) → IsProper k → Step m s (call m k s).1
  look : (uid : ℕ) (s : m.tpm.State) → uid ≤ pin_version_uid_max → Step m s (get_pin_slot m uid s).1
  connect : (s : m.tpm.State) → Step m s (with_tcti m s).1

pub data Reach (m : PinManager) (s : m.tpm.State) : m.tpm.State → Type 0 where
  unchanged : Reach m s s
  then_step : {u t : m.tpm.State} → Reach m s t → Step m t u → Reach m s u

module _ (m : PinManager) (c : IsConnected m) where
  -- Every user has an account in good order, or no index at all.
  abbrev pub IsOrderly : m.tpm.State → Type 0
  IsOrderly s =
      (uid : ℕ) → uid ≤ pin_version_uid_max → (a : Option Account) × Stores m c (c.nv s) uid a

  account-IsWords : (a : Account) → IsFit a → IsWords (counter_of a)
  account-IsWords a f = record {
    count_word = omega (arith, f.within, f.small);
    limit_word = omega (arith, f.small);
  }

  look-Holds :
      (uid : ℕ) (s : m.tpm.State) (a : Option Account)
      → uid ≤ pin_version_uid_max
      → Stores m c (c.nv s) uid a
      → Holds m c (get_pin_slot m uid s).1 (c.nv s)
  unfolding get_pin_slot
  look-Holds uid s none range (e, t) =
      (chain c.nv _ _ s (nv_index_ends m c uid s (c.nv s) range refl)
        λ s' h. read_slot_none m c (slot_index uid) s' (c.nv s) h e).1
  look-Holds uid s (some a) range (e, t, f) =
      (chain c.nv _ _ s (nv_index_ends m c uid s (c.nv s) range refl) λ s' h.
        read_slot_some m c (slot_index uid) s' (c.nv s) h a.pin _ (counter_of a)
          (account-IsWords a f) e).1

  module _ (small : m.policy.max_attempts < 2 ^ 31) where
    after_command :
        (k : Command) (s : m.tpm.State) → IsProper k → IsOrderly s → IsOrderly (call m k s).1
    after_command k s p h uid range =
        let a = h (user_of k) (user-IsProper m c k p) in
        let f = call-Fulfils m c small k s a.0 p a.1 in
        elim (Bool-cases (uid == user_of k)) [
          | inl same ↦ rw ((==_iff uid (user_of k)).0 same) (_, f.1)
          | inr other ↦
              let at = f.2 uid range (λ q. cc (other, (==_iff uid (user_of k)).1 q)) in
              let b = h uid range in
              (b.0, Stores-kept m c (c.nv s) (c.nv (call m k s).1) uid b.0 at.0 at.1 b.1)
        ]

    Step-IsOrderly : {s t : m.tpm.State} → Step m s t → IsOrderly s → IsOrderly t
    Step-IsOrderly (command k s p) h w range = after_command k s p h w range
    Step-IsOrderly (look uid s r) h w range =
        let a = h uid r in rw (look-Holds uid s a.0 r a.1) (h w range)
    Step-IsOrderly (connect s) h w range = rw (with_tcti_ends m c s (c.nv s) refl).1 (h w range)

    -- On a reliable TPM, with a limit below 2 ^ 31: where each user has an account in the current
    -- format or no index, it stays so after any steps, which are commands with uids that have
    -- indices and PINs of at most 64 bytes, reads of a slot, and new connections.
    pub Reach-IsOrderly : {s t : m.tpm.State} → IsOrderly s → Reach m s t → IsOrderly t
    Reach-IsOrderly h unchanged = h
    Reach-IsOrderly h (then_step r st) = Step-IsOrderly st (Reach-IsOrderly h r)
