-- ===== src/Core/PinData/Locking.antt =====
-- `AttemptInfo::locked` against the comparison of the counters that the manager makes.
use pinpam.Base.{◌&&◌, ◌<◌, ◌≡◌, false, arith}
use pinpam.Base.Int.{pos, leb_ℤ, ltb_ℤ, IsCInt}
use pinpam.Core.PinData.{PinData, AttemptInfo, from_pin_data, locked}

-- For a slot of two `c_int`s, `AttemptInfo::locked` agrees with the test `pinCount >= pinLimit` of
-- the manager where the limit is positive; else it is false, whatever the count.
pub locked-from_pin_data :
    (d : PinData)
    → IsCInt d.pin_count
    → IsCInt d.pin_limit
    → locked (from_pin_data d) ≡ ltb_ℤ (pos 0) d.pin_limit && leb_ℤ d.pin_limit d.pin_count
unfolding locked from_pin_data
locked-from_pin_data d hc hl = ground arith

-- Where the attempt information has a limit and is not locked, fewer attempts are used than the
-- limit, so `limit - used` does not wrap.
not_locked_remaining :
    (info : AttemptInfo) → locked info ≡ false → 0 < info.limit → info.used < info.limit
unfolding locked
not_locked_remaining info h p = ground arith
