-- ===== src/Core/Manager/Slots/Reads.antt =====
-- What `read_pin_slot_owner` finds at an index of a reliable TPM.
use pinpam.Core.Manager.Commands.{read_full_at}
use pinpam.Base.{ℕ, ◌<◌, ◌^◌, none, some, [], ok, ◌≡◌, refl}
use mathlib.Core.List.{List, append-nil}
use pinpam.Base.Int.{as_c_int}
use pinpam.Core.PinData.{PinData, from_bytes}
use pinpam.Core.PinData.Codec.{from_bytes-be_bytes}
use pinpam.Core.Tpm.Chain.{chain, follow, stop, caught}
use pinpam.Core.Tpm.Laws.{Store, pin_slot, Counter, counter_bytes}
use pinpam.Core.Manager.{PinManager}
use pinpam.Core.Manager.Connected.{IsConnected, Results, Holds, clear_sessions_ends, nullauth_ends}
use pinpam.Core.Manager.Slots.{read_pin_slot_owner, parse_slot}

-- The counters fit their 32 bits.
pub record IsWords (k : Counter) : Type 0 where
  pub count_word : k.count < 2 ^ 32
  pub limit_word : k.limit < 2 ^ 32

-- The slot as the program sees it.
abbrev pub data_of : Counter → PinData
data_of k = record { pin_count = as_c_int k.count; pin_limit = as_c_int k.limit }

pub from_bytes-counter_bytes :
    (k : Counter) → IsWords k → from_bytes (counter_bytes k) ≡ some (data_of k)
from_bytes-counter_bytes k w =
    rw (← append-nil (counter_bytes k))
      (from_bytes-be_bytes k.count k.limit [] w.count_word w.limit_word)

module _ (m : PinManager) (c : IsConnected m) (n : ℕ) (s : m.tpm.State) (v : Store m.tpm.Digest)
    (h : Holds m c s v) where
  pub read_slot_none : v n ≡ none → Results m c (read_pin_slot_owner m n) s (ok none) v
  unfolding read_pin_slot_owner
  read_slot_none e =
      caught c.nv _ _ s (nullauth_ends m c _ s (stop c.nv _ _ s (read_full_at m c n none s v h e)))
        λ s' h'. follow c.nv _ _ s' (clear_sessions_ends m c s' v h') λ s'' h''. (refl, h'')

  -- A slot that was defined, and never written.
  pub read_slot_unwritten :
      (auth : List ℕ) (d : m.tpm.Digest)
      → v n ≡ some (pin_slot auth d none)
      → Results m c (read_pin_slot_owner m n) s (ok none) v
  unfolding read_pin_slot_owner
  read_slot_unwritten auth d e =
      caught c.nv _ _ s
        (nullauth_ends m c _ s
          (stop c.nv _ _ s (read_full_at m c n (some (pin_slot auth d none)) s v h e)))
        λ s' h'. follow c.nv _ _ s' (clear_sessions_ends m c s' v h') λ s'' h''. (refl, h'')

  pub read_slot_some :
      (auth : List ℕ) (d : m.tpm.Digest) (k : Counter)
      → IsWords k
      → v n ≡ some (pin_slot auth d (some k))
      → Results m c (read_pin_slot_owner m n) s (ok (some (data_of k))) v
  unfolding read_pin_slot_owner parse_slot
  read_slot_some auth d k w e =
      caught c.nv _ _ s {q = ok (data_of k)}
        (nullauth_ends m c _ s (
          chain c.nv _ _ s (read_full_at m c n (some (pin_slot auth d (some k))) s v h e)
            λ s' h'. (rw (from_bytes-counter_bytes k w), h')))
        λ s' h'. follow c.nv _ _ s' (clear_sessions_ends m c s' v h') λ s'' h''. (refl, h'')
