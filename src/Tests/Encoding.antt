-- ===== src/Tests/Encoding.antt =====
-- The indices, the slots and the check of a PIN at concrete inputs.
use pinpam.Core.Error.{PinError, pin_too_short}
use pinpam.Core.Error.Display.{Named, fmt}
use pinpam.Core.Pin.Refusal.{Explains, new-Explains}
use pinpam.Core.PinData.Locking.{locked-from_pin_data}
use pinpam.Tests.Sim.{sim_handle_ok, sim_handle}
use pinpam.Core.PinData.Codec.{from_bytes-to_bytes}
use pinpam.Base.Int.{leb_ℤ, negsuc, pos}
use pinpam.Core.Index.Disjoint.{
  version_nv_index_for_uid-eq, nv_index_for_uid-eq, indices_disjoint, tag_index, slot_index,
}
use pinpam.Core.PinData.{from_pin_data, locked, to_bytes, from_bytes, PinData}
use pinpam.Base.Text.{Text, trim, codes}
use pinpam.Base.{refl, List, err, false, ◌<◌, arith, ◌++◌, ◌↔◌, ◌≡◌, ◌≢◌, ℕ, some, ok, [], ◌∷◌}
use pinpam.Core.Policy.{default}
use pinpam.Core.Pin.{new}
use pinpam.Core.Pin.Bounds.{new_ok, IsAllowed}

abbrev ann : ℕ
ann = 1000

abbrev bob : ℕ
bob = 1001

indices_disjoint_example :
    (slot_index ann ≢ tag_index bob)
    × (tag_index ann ≢ slot_index bob)
    × ((slot_index ann ≡ slot_index bob) ↔ (ann ≡ bob))
    × ((tag_index ann ≡ tag_index bob) ↔ (ann ≡ bob))
indices_disjoint_example =
    indices_disjoint sim_handle sim_handle_ok ann bob (slot_index ann) (tag_index ann)
      (slot_index bob) (tag_index bob)
      (nv_index_for_uid-eq sim_handle sim_handle_ok ann (omega arith))
      (version_nv_index_for_uid-eq sim_handle sim_handle_ok ann (omega arith))
      (nv_index_for_uid-eq sim_handle sim_handle_ok bob (omega arith))
      (version_nv_index_for_uid-eq sim_handle sim_handle_ok bob (omega arith))

abbrev slot : PinData
slot = record { pin_count = pos 1; pin_limit = negsuc 2 }

from_bytes-to_bytes_example : from_bytes (to_bytes slot ++ 7 ∷ []) ≡ some slot
from_bytes-to_bytes_example = from_bytes-to_bytes slot (7 ∷ []) (omega arith) (omega arith)

new_ok_example :
    (new (codes " 1234\n") default ≡ ok (record { text = codes "1234" }))
    ↔ (IsAllowed default (trim (codes " 1234\n")) × (codes "1234" ≡ trim (codes " 1234\n")))
new_ok_example = new_ok (codes " 1234\n") default (record { text = codes "1234" })

abbrev used_up : PinData
used_up = record { pin_count = pos 3; pin_limit = pos 3 }

locked-from_pin_data_example : locked (from_pin_data used_up) ≡ leb_ℤ (pos 3) (pos 3)
locked-from_pin_data_example = locked-from_pin_data used_up (omega arith) (omega arith)

-- A locale that shows the key alone.
abbrev shown : Text → List Named → Text
shown key values = key

abbrev short : PinError
short = pin_too_short 3 4

refuses : new (codes "123\n") default ≡ err short
unfolding new pinpam.Base.Text.trim pinpam.Core.Policy.validate pinpam.Base.Text.len
refuses = refl

new-Explains_example : Explains shown default (trim (codes "123\n")) (fmt shown short)
new-Explains_example = new-Explains shown default (codes "123\n") short refuses
