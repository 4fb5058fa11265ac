-- ===== src/Core/PinData/Codec.antt =====
-- The bytes of a PIN slot, read back.
use pinpam.Base.{
  ℕ, ◌+◌, ◌*◌, ◌/◌, ◌%◌, ◌^◌, ◌<◌, ◌≡◌, some, List, [], ◌∷◌, ◌++◌, arith, length, le→leb,
}
use pinpam.Base.Int.{ℤ, IsCInt, as_u32, as_c_int, as_c_int-as_u32, as_u32-lt}
use pinpam.Core.PinData.{
  PinData, be_bytes, to_be_bytes, from_be_bytes, get_word, from_bytes, to_bytes, new,
}

-- What `from_be_bytes` reads from the bytes of a word.
pub from_be_bytes-be_bytes : (n : ℕ) → n < 2 ^ 32 → from_be_bytes (be_bytes n) ≡ some (as_c_int n)
unfolding from_be_bytes be_bytes
from_be_bytes-be_bytes n h = ground arith

from_be_bytes-to_be_bytes : (z : ℤ) → IsCInt z → from_be_bytes (to_be_bytes z) ≡ some z
unfolding to_be_bytes
from_be_bytes-to_be_bytes z h =
    rw (from_be_bytes-be_bytes (as_u32 z) (as_u32-lt z h), as_c_int-as_u32 z h)

get_word_first :
    (a b c d : ℕ) (xs : List ℕ) → get_word (a ∷ b ∷ c ∷ d ∷ xs) 0 ≡ some (a ∷ b ∷ c ∷ d ∷ [])
unfolding get_word
get_word_first a b c d xs = rw (le→leb (0 + 4) (length (a ∷ b ∷ c ∷ d ∷ xs)) (omega arith))

get_word_second :
    (a b c d e f g h : ℕ) (xs : List ℕ)
    → get_word (a ∷ b ∷ c ∷ d ∷ e ∷ f ∷ g ∷ h ∷ xs) 4 ≡ some (e ∷ f ∷ g ∷ h ∷ [])
unfolding get_word
get_word_second a b c d e f g h xs =
    rw (le→leb (4 + 4) (length (a ∷ b ∷ c ∷ d ∷ e ∷ f ∷ g ∷ h ∷ xs)) (omega arith))

from_bytes_eight :
    (a b c d e f g h : ℕ) (xs : List ℕ)
    → from_bytes (a ∷ b ∷ c ∷ d ∷ e ∷ f ∷ g ∷ h ∷ xs)
      ≡ some (record {
        pin_count = as_c_int (a * 2 ^ 24 + b * 2 ^ 16 + c * 2 ^ 8 + d);
        pin_limit = as_c_int (e * 2 ^ 24 + f * 2 ^ 16 + g * 2 ^ 8 + h);
      })
unfolding from_bytes new
from_bytes_eight a b c d e f g h xs =
    rw (get_word_first a b c d (e ∷ f ∷ g ∷ h ∷ xs), get_word_second a b c d e f g h xs)

pub word_value :
    (n : ℕ)
    → n < 2 ^ 32
    → n / 2 ^ 24 * 2 ^ 24 + n / 2 ^ 16 % 256 * 2 ^ 16 + n / 2 ^ 8 % 256 * 2 ^ 8 + n % 256 ≡ n
word_value n h = omega arith

-- The words of a counter pair, whatever bytes follow.
pub from_bytes-be_bytes :
    (c l : ℕ) (rest : List ℕ)
    → c < 2 ^ 32
    → l < 2 ^ 32
    → from_bytes (be_bytes c ++ be_bytes l ++ rest)
      ≡ some (record { pin_count = as_c_int c; pin_limit = as_c_int l })
unfolding be_bytes
from_bytes-be_bytes c l rest hc hl =
    rw (from_bytes_eight _ _ _ _ _ _ _ _ rest, word_value c hc, word_value l hl)

-- A slot of two `c_int`s reads back from its bytes, whatever bytes follow.
pub from_bytes-to_bytes :
    (d : PinData) (rest : List ℕ)
    → IsCInt d.pin_count
    → IsCInt d.pin_limit
    → from_bytes (to_bytes d ++ rest) ≡ some d
unfolding to_bytes
from_bytes-to_bytes d rest hc hl = rw (
  from_bytes-be_bytes (as_u32 d.pin_count) (as_u32 d.pin_limit) rest (as_u32-lt _ hc)
      (as_u32-lt _ hl),
  as_c_int-as_u32 _ hc,
  as_c_int-as_u32 _ hl,
)
