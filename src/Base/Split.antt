-- ===== src/Base/Split.antt =====
-- Splitting a text, and numbers in it, as Rust's `str` and its integers do.
use pinpam.Base.{
  ltb, ◌&&◌, leb, ◌-◌, ◌==◌, ◌+◌, is_empty, ◌*◌, if◌then◌else◌, ℕ, Bool, Option, none, some, List,
  [], ◌∷◌,
}
use pinpam.Base.Text.{Text, is_whitespace}

-- The character `c` on the front of the first piece.
push : ℕ → List Text → List Text
push c [] = (c ∷ []) ∷ []
push c (w ∷ ws) = (c ∷ w) ∷ ws

-- `str::split` by a test of characters: there is always a last piece.
unfoldable pub split : (ℕ → Bool) → Text → List Text
unfolding push
split p [] = [] ∷ []
split p (c ∷ s) = let rest = split p s in if p c then [] ∷ rest else push c rest

unfoldable pub non_empty : List Text → List Text
non_empty [] = []
non_empty (w ∷ ws) = if is_empty w then non_empty ws else w ∷ non_empty ws

-- `str::split_whitespace`
unfoldable pub split_whitespace : Text → List Text
unfolding split non_empty is_whitespace
split_whitespace s = non_empty (split is_whitespace s)

before : ℕ → Option (Text × Text) → Option (Text × Text)
before c none = none
before c (some (key, value)) = some (c ∷ key, value)

-- `str::split_once` with one character
unfoldable pub split_once : ℕ → Text → Option (Text × Text)
unfolding before
split_once d [] = none
split_once d (c ∷ s) = if c == d then some ([], s) else before c (split_once d s)

-- The digits of a number in order, from what stands before them; `none` for another character or
-- a number that is not below the limit.
unfoldable pub digits : ℕ → ℕ → Text → Option ℕ
digits limit acc [] = some acc
digits limit acc (c ∷ s) =
    let rest = digits limit (acc * 10 + (c - b'0')) s in
    if leb b'0' c && leb c b'9' && ltb (acc * 10 + (c - b'0')) limit then rest else none

-- `str::parse` at an unsigned type of so many values: a sign `+` may stand before the digits.
unfoldable pub parse_uint : ℕ → Text → Option ℕ
unfolding digits
parse_uint limit [] = none
parse_uint limit (c ∷ []) = digits limit 0 (c ∷ [])
parse_uint limit (c ∷ d ∷ s) =
    if c == b'+' then digits limit 0 (d ∷ s) else digits limit 0 (c ∷ d ∷ s)
