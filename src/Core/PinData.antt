-- ===== src/Core/PinData.antt =====
-- pinpam-core/src/pindata.rs. A PIN slot as the TPM stores it: two big-endian 32-bit counters.
pub mod Codec
pub mod Locking
use pinpam.Base.{
  ℕ, ◌+◌, ◌*◌, ◌/◌, ◌%◌, ◌^◌, Bool, ◌&&◌, Option, none, some, List, [], ◌∷◌, ◌++◌, ltb, leb, take,
  drop, length, if◌then◌else◌,
}
use pinpam.Base.Int.{ℤ, pos, ltb_ℤ, leb_ℤ, as_u32, as_c_int}

pub record PinData : Type 0 where
  pub pin_count : ℤ
  pub pin_limit : ℤ

-- `size_of::<PinData>()`: two `c_int` under `repr(C)`.
abbrev pub pin_data_size : ℕ
pin_data_size = 8

-- `PinData::new`
unfoldable pub new : ℤ → ℤ → PinData
new pin_count pin_limit = record { pin_count = pin_count; pin_limit = pin_limit }

-- The four bytes of a 32-bit word, the highest first.
unfoldable pub be_bytes : ℕ → List ℕ
be_bytes n = (n / 2 ^ 24) ∷ (n / 2 ^ 16 % 256) ∷ (n / 2 ^ 8 % 256) ∷ (n % 256) ∷ []

-- `c_int::to_be_bytes`
unfoldable pub to_be_bytes : ℤ → List ℕ
unfolding be_bytes
to_be_bytes z = be_bytes (as_u32 z)

-- `c_int::from_be_bytes`, of exactly four bytes; `try_into` fails on any other number.
unfoldable pub from_be_bytes : List ℕ → Option ℤ
from_be_bytes (a ∷ b ∷ c ∷ d ∷ []) = some (as_c_int (a * 2 ^ 24 + b * 2 ^ 16 + c * 2 ^ 8 + d))
from_be_bytes _ = none

-- `bytes.get(from .. from + 4)`
unfoldable pub get_word : List ℕ → ℕ → Option (List ℕ)
get_word bytes from =
    if leb (from + 4) (length bytes) then some (take 4 (drop from bytes)) else none

infixl 5 ◌>>=◌
abbrev ◌>>=◌ : {A B : Type 0} → Option A → (A → Option B) → Option B
none >>= f = none
some a >>= f = f a

-- `PinData::from_bytes`
unfoldable pub from_bytes : List ℕ → Option PinData
unfolding from_be_bytes new
from_bytes bytes = do
  count ← get_word bytes 0
  limit ← get_word bytes 4
  pin_count ← from_be_bytes count
  pin_limit ← from_be_bytes limit
  some (new pin_count pin_limit)

-- `Vec::from` on a `PinData`
unfoldable pub to_bytes : PinData → List ℕ
unfolding to_be_bytes
to_bytes value = to_be_bytes value.pin_count ++ to_be_bytes value.pin_limit

pub record AttemptInfo : Type 0 where
  pub used : ℕ
  pub limit : ℕ

-- `AttemptInfo::from_pin_data`
unfoldable pub from_pin_data : PinData → AttemptInfo
from_pin_data slot = record {
  used = if ltb_ℤ slot.pin_count (pos 0) then 0 else as_u32 slot.pin_count;
  limit = if leb_ℤ slot.pin_limit (pos 0) then 0 else as_u32 slot.pin_limit;
}

-- `AttemptInfo::locked`
unfoldable pub locked : AttemptInfo → Bool
locked info = ltb 0 info.limit && leb info.limit info.used

-- `AttemptInfo::prompt_tuple`
unfoldable pub prompt_tuple : AttemptInfo → ℕ × ℕ
prompt_tuple info = (info.used, info.limit)
