-- ===== src/Core/Manager/Commands.antt =====
-- The NV commands that the methods issue, each in terms of what stands at the index that it names.
use pinpam.Base.{none, ℕ, ap, Option, List, ◌≡◌}
use pinpam.Core.Tpm.{null_auth, owner, NvPublic, Session}
use pinpam.Core.Tpm.Laws.{Store, NvIndex, put, locate, contents, owner_write, define, undefined}
use pinpam.Core.Manager.{PinManager}
use pinpam.Core.Manager.Connected.{IsConnected, Results, Holds, nullauth_ends}

module _ (m : PinManager) (c : IsConnected m) (n : ℕ) (i : Option (NvIndex m.tpm.Digest))
    (s : m.tpm.State) (v : Store m.tpm.Digest) (h : Holds m c s v) (e : v n ≡ i) where
  open m use {tpm}

  pub read_full_ends :
      Results m c
        (tpm.execute_with_nullauth_session (List ℕ) (λ x. tpm.read_full x owner n))
        s
        (contents i)
        v
  read_full_ends = nullauth_ends m c _ s (rw (← e, ← h) (c.read_full_lem n s))

  pub read_full_at : Results m c (tpm.read_full null_auth owner n) s (contents i) v
  read_full_at = rw (← e, ← h) (c.read_full_lem n s)

  pub find_ends :
      (x : Session tpm.SessionId)
      → Results m c (tpm.tr_from_tpm_public x n) s (locate (c.handle_of n) i) v
  find_ends x = let p = c.tr_from_tpm_public_lem x n s in rw (← e, ← h) (p.0, ap (λ q. q.0) p.1)

  pub owner_write_ends :
      (b : List ℕ)
      → Results m c
          (tpm.nv_write null_auth owner (c.handle_of n) b 0)
          s
          (owner_write b i).0
          (put v n (owner_write b i).1)
  owner_write_ends b = rw (← e, ← h) (c.write_as_owner n b s)

  pub undefine_ends :
      Results m c (tpm.nv_undefine_space null_auth (c.handle_of n)) s (undefined i) (put v n none)
  undefine_ends = rw (← e, ← h) (c.nv_undefine_space_lem n s)

module _ (m : PinManager) (c : IsConnected m) (p : NvPublic m.tpm.Digest)
    (i : Option (NvIndex m.tpm.Digest)) (s : m.tpm.State) (v : Store m.tpm.Digest)
    (h : Holds m c s v) (e : v p.nv_index ≡ i) where
  pub define_ends :
      (auth : Option (List ℕ))
      → Results m c
          (m.tpm.nv_define_space null_auth auth p)
          s
          (define c.errors c.digests.no_assertion auth p i).0
          (put v p.nv_index (define c.errors c.digests.no_assertion auth p i).1)
  define_ends auth = rw (← e, ← h) (c.nv_define_space_lem auth p s)
