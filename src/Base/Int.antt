-- ===== src/Base/Int.antt =====
-- `c_int`: 32-bit signed integers, with the `as` casts from and to `u32`.
use Prim.Native.Nat.{ℕ, suc, ◌+◌, ◌-◌, ◌^◌, ◌<◌}
use mathlib.Core.Path.{◌≡◌}
use mathlib.Core.Bool.{Bool}
use native.Mathlib.Omega.{arith}
use pinpam.Base.Tests.{ltb, leb, if◌then◌else◌}

-- `negsuc n` is -(n + 1).
pub data ℤ : Type 0 where
  pos : ℕ → ℤ
  negsuc : ℕ → ℤ

abbrev pub pos_part : ℤ → ℕ
pos_part (pos n) = n
pos_part (negsuc n) = 0

abbrev pub neg_part : ℤ → ℕ
neg_part (pos n) = 0
neg_part (negsuc n) = suc n

abbrev pub leb_ℤ : ℤ → ℤ → Bool
leb_ℤ a b = leb (pos_part a + neg_part b) (pos_part b + neg_part a)

abbrev pub ltb_ℤ : ℤ → ℤ → Bool
ltb_ℤ a b = ltb (pos_part a + neg_part b) (pos_part b + neg_part a)

-- The values of a `c_int`.
abbrev pub IsCInt : ℤ → Type 0
IsCInt (pos n) = n < 2 ^ 31
IsCInt (negsuc n) = n < 2 ^ 31

-- `x as c_int` for `x : u32`.
abbrev pub as_c_int : ℕ → ℤ
as_c_int x = if ltb x (2 ^ 31) then pos x else negsuc (2 ^ 32 - x - 1)

-- `z as u32` for `z : c_int`.
abbrev pub as_u32 : ℤ → ℕ
as_u32 (pos n) = n
as_u32 (negsuc n) = 2 ^ 32 - n - 1

pub as_u32-as_c_int : (x : ℕ) → x < 2 ^ 32 → as_u32 (as_c_int x) ≡ x
as_u32-as_c_int x h = ground arith

pub as_c_int-as_u32 : (z : ℤ) → IsCInt z → as_c_int (as_u32 z) ≡ z
as_c_int-as_u32 (pos n) h = ground arith
as_c_int-as_u32 (negsuc n) h = ground arith

pub as_u32-lt : (z : ℤ) → IsCInt z → as_u32 z < 2 ^ 32
as_u32-lt (pos n) h = omega arith
as_u32-lt (negsuc n) h = omega arith
