-- ===== src/Base/Results.antt =====
-- How a call ends: with a value, with an error, or by a panic; and state passing over it. The
-- state comes back on every path, since what was written stays written.
use mathlib.Core.Option.{Option, none, some}

pub data Outcome (E A : Type 0) : Type 0 where
  ok : A → Outcome E A
  err : E → Outcome E A
  panic : Outcome E A

module _ {E F A : Type 0} where
  -- `Result::map_err`
  abbrev pub map_err : (E → F) → Outcome E A → Outcome F A
  map_err f (ok a) = ok a
  map_err f (err e) = err (f e)
  map_err f panic = panic

module _ {E A : Type 0} where
  -- `Option::ok_or`
  abbrev pub ok_or : Option A → E → Outcome E A
  ok_or none e = err e
  ok_or (some a) e = ok a

  -- `Result::ok`
  abbrev pub to_option : Outcome E A → Option A
  to_option (ok a) = some a
  to_option (err e) = none
  to_option panic = none

  -- `unwrap`, `expect`
  abbrev pub unwrap : Outcome E A → Outcome E A
  unwrap (ok a) = ok a
  unwrap (err e) = panic
  unwrap panic = panic

-- A computation without state.
module _ {E A B : Type 0} where
  abbrev pub and_then : Outcome E A → (A → Outcome E B) → Outcome E B
  and_then (ok a) f = f a
  and_then (err e) f = err e
  and_then panic f = panic

-- A computation with state.
abbrev pub St : Type 0 → Type 0 → Type 0 → Type 0
St S E A = S → Outcome E A × S

module _ {S E A B : Type 0} where
  abbrev pub resume : (A → St S E B) → Outcome E A → S → Outcome E B × S
  resume f (ok a) s = f a s
  resume f (err e) s = (err e, s)
  resume f panic s = (panic, s)

-- Shut, so that a proof goes through a method one step at a time.
infixl 5 ◌>>=◌ ◌>>◌
unfoldable pub ◌>>=◌ : {S E A B : Type 0} → St S E A → (A → St S E B) → St S E B
◌>>=◌ m f s = resume f (m s).0 (m s).1

unfoldable pub ◌>>◌ : {S E A B : Type 0} → St S E A → St S E B → St S E B
◌>>◌ m k s = resume (λ _. k) (m s).0 (m s).1

module _ {S E A : Type 0} where
  abbrev pub pure : A → St S E A
  pure a s = (ok a, s)

  abbrev pub raise : E → St S E A
  raise e s = (err e, s)

  -- An outcome that needs no state: `?` on a pure call.
  abbrev pub lift : Outcome E A → St S E A
  lift r s = (r, s)

-- `match m { Ok(a) => f(a), Err(e) => g(e) }`
abbrev pub on_result :
    {S E F A B : Type 0} → (A → St S F B) → (E → St S F B) → Outcome E A → St S F B
on_result f g (ok a) = f a
on_result f g (err e) = g e
on_result f g panic = λ s. (panic, s)

-- A computation run in another error type.
unfoldable pub convert : {S E F A : Type 0} → (E → F) → St S E A → St S F A
convert f m s = (map_err f (m s).0, (m s).1)

-- The outcome of a computation as a value: what a `match` on its `Result` is made of.
unfoldable pub catch : {S E F A B : Type 0} → St S E A → (Outcome E A → St S F B) → St S F B
catch m f s = f (m s).0 (m s).1
