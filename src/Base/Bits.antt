-- ===== src/Base/Bits.antt =====
-- Two Boolean functions of numbers that agree below a bound, by evaluation.
use pinpam.Base.{◌≡◌, Bool, ℕ, ◌<◌, zero, suc, true, false, arith, not, if◌then◌else◌, refl}

same_bool : Bool → Bool → Bool
same_bool true b = b
same_bool false b = not b

same_bool_iff : (a b : Bool) → same_bool a b ≡ true → a ≡ b
unfolding same_bool
same_bool_iff true b h = cc
same_bool_iff false true h = cc
same_bool_iff false false h = refl

module _ (f g : ℕ → Bool) where
  unfoldable pub agree_below : ℕ → Bool
  unfolding same_bool
  agree_below zero = true
  agree_below (suc bound) =
      let smaller = agree_below bound in if same_bool (f bound) (g bound) then smaller else false

  pub agree_below_lem :
      (bound value : ℕ) → value < bound → agree_below bound ≡ true → f value ≡ g value
  unfolding agree_below
  agree_below_lem zero value lt h = absurd (omega arith)
  agree_below_lem (suc bound) value lt h =
      ground (arith, agree_below_lem bound value, same_bool_iff (f bound) (g bound))
