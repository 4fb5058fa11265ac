-- ===== src/Core/Manager/Accounts.antt =====
-- How the NV storage holds the accounts of the users, and what it is for a method of the manager to
-- act on one of them.
pub mod Setup
pub mod Verify
pub mod Delete
pub mod Guessing
pub mod Migration
pub mod Legacy
pub mod Absent
use pinpam.Core.Index.Disjoint.{tag_index, slot_index}
use pinpam.Core.Consts.{pin_version_uid_max}
use pinpam.Core.Error.{PinError}
use pinpam.Core.Tpm.Laws.{write_once, put-at_ne, pin_slot, put, NvIndex, Store, Counter}
use pinpam.Base.{ℕ, ◌≤◌, ◌<◌, ◌^◌, Option, none, some, Outcome, ◌≡◌, ◌≢◌, ◌∙◌, refl, arith}
use pinpam.Core.Account.{Account}
use pinpam.Core.Manager.{PinManager, Method}
use pinpam.Core.Manager.Connected.{IsConnected, Results, Holds}
use pinpam.Core.Manager.Users.Effects.{current_tag}

-- The limits of an account are those of a `c_int`.
pub record IsFit (a : Account) : Type 0 where
  pub within : a.failures ≤ a.limit
  pub small : a.limit < 2 ^ 31

abbrev pub counter_of : Account → Counter
counter_of a = record { count = a.failures; limit = a.limit }

module _ (m : PinManager) (c : IsConnected m) where
  -- The two indices of a user hold the account.
  abbrev pub Stores : Store m.tpm.Digest → ℕ → Option Account → Type 0
  Stores v uid none = (v (slot_index uid) ≡ none) × (v (tag_index uid) ≡ none)
  Stores v uid (some a) =
      (v (slot_index uid) ≡ some (pin_slot a.pin (write_once c.digests) (some (counter_of a))))
      × (v (tag_index uid) ≡ current_tag)
      × IsFit a

  -- The indices of every other user are as they were.
  abbrev pub Untouched : ℕ → Store m.tpm.Digest → Store m.tpm.Digest → Type 0
  Untouched uid v u =
      (w : ℕ)
      → w ≤ pin_version_uid_max
      → w ≢ uid
      → (u (slot_index w) ≡ v (slot_index w)) × (u (tag_index w) ≡ v (tag_index w))

  pub Untouched-trans :
      (uid : ℕ) (v u t : Store m.tpm.Digest)
      → Untouched uid v u
      → Untouched uid u t
      → Untouched uid v t
  Untouched-trans uid v u t h k w range ne =
      let p = h w range ne in let q = k w range ne in (q.0 ∙ p.0, q.1 ∙ p.1)

  -- The method answers `r`, leaves the account `a` to the user, and leaves all others alone.
  abbrev pub Acts :
      {A : Type 0} → Method m A → ℕ → m.tpm.State → Outcome PinError A → Option Account → Type 0
  Acts method uid s r a =
      ((method s).0 ≡ r)
      × Stores (c.nv (method s).1) uid a
      × Untouched uid (c.nv s) (c.nv (method s).1)

  -- A change of the two indices of a user, as an action.
  pub Acts-of_results :
      {A : Type 0} (method : Method m A) (uid : ℕ) (s : m.tpm.State) (r : Outcome PinError A)
      (a : Option Account) (u : Store m.tpm.Digest)
      → Results m c method s r u
      → Stores u uid a
      → Untouched uid (c.nv s) u
      → Acts method uid s r a
  Acts-of_results method uid s r a u p stored rest = rw p.1 (p.0, stored, rest)

  pub Untouched-put :
      (uid : ℕ) (v : Store m.tpm.Digest) (i j : Option (NvIndex m.tpm.Digest))
      → uid ≤ pin_version_uid_max
      → Untouched uid v (put (put v (slot_index uid) i) (tag_index uid) j)
  Untouched-put uid v i j range w r ne = (
    put-at_ne (put v (slot_index uid) i) (tag_index uid) (slot_index w) j (omega arith)
        ∙ put-at_ne v (slot_index uid) (slot_index w) i (omega arith),
    put-at_ne (put v (slot_index uid) i) (tag_index uid) (tag_index w) j (omega arith)
        ∙ put-at_ne v (slot_index uid) (tag_index w) i (omega arith),
  )

  pub Untouched-slot :
      (uid : ℕ) (v : Store m.tpm.Digest) (i : Option (NvIndex m.tpm.Digest))
      → uid ≤ pin_version_uid_max
      → Untouched uid v (put v (slot_index uid) i)
  Untouched-slot uid v i range w r ne = (
    put-at_ne v (slot_index uid) (slot_index w) i (omega arith),
    put-at_ne v (slot_index uid) (tag_index w) i (omega arith),
  )
