-- ===== src/Base/Trimmed.antt =====
-- A text that was trimmed, and a newline after it.
use mathlib.Core.List.{[], reverse, reverse-cons, reverse-append, reverse-reverse}
use pinpam.Base.{inr, inl, true, Bool-cases, false, Bool, ◌≡◌, ◌∷◌, ℕ, ◌++◌, refl}
use pinpam.Base.Text.{Text, trim, trim_start_by, is_whitespace}

-- Whether a text starts with such a character.
abbrev starts : (ℕ → Bool) → Text → Bool
starts p [] = false
starts p (c ∷ s) = p c

module _ (p : ℕ → Bool) where
  starts-trim_start_by : (s : Text) → starts p (trim_start_by p s) ≡ false
  unfolding trim_start_by
  starts-trim_start_by [] = refl
  starts-trim_start_by (c ∷ s) = elim (Bool-cases (p c)) [
    | inl e ↦ rw e (starts-trim_start_by s)
    | inr e ↦ rw (e, e) refl
  ]

  trim_start_by-kept : (s : Text) → starts p s ≡ false → trim_start_by p s ≡ s
  unfolding trim_start_by
  trim_start_by-kept [] h = refl
  trim_start_by-kept (c ∷ s) h = rw h refl

  -- What stands at the end and does not match stays there.
  trim_start_by-last :
      (s : Text) (c : ℕ)
      → p c ≡ false
      → trim_start_by p (s ++ (c ∷ [])) ≡ trim_start_by p s ++ (c ∷ [])
  unfolding trim_start_by
  trim_start_by-last [] c h = rw h refl
  trim_start_by-last (d ∷ s) c h = elim (Bool-cases (p d)) [
    | inl e ↦ rw e (trim_start_by-last s c h)
    | inr e ↦ rw e refl
  ]

  starts-trimmed :
      (s : Text) → starts p s ≡ false → starts p (reverse (trim_start_by p (reverse s))) ≡ false
  unfolding trim_start_by
  starts-trimmed [] h = refl
  starts-trimmed (c ∷ s) h =
      rw
        (
          reverse-cons c s,
          trim_start_by-last (reverse s) c h,
          reverse-append (trim_start_by p (reverse s)) (c ∷ []),
        )
        h

  -- A text that neither starts nor ends with such a character.
  with_last :
      (s : Text) (c : ℕ)
      → starts p s ≡ false
      → starts p (reverse s) ≡ false
      → p c ≡ true
      → reverse (trim_start_by p (reverse (trim_start_by p (s ++ (c ∷ []))))) ≡ s
  unfolding trim_start_by
  with_last [] c h k e = rw e refl
  with_last (d ∷ s) c h k e =
      rw
        (
          h,
          reverse-append (d ∷ s) (c ∷ []),
          e,
          trim_start_by-kept (reverse (d ∷ s)) k,
          reverse-reverse (d ∷ s),
        )
        refl

pub trim-newline : (s : Text) → trim (trim s ++ (b'\n' ∷ [])) ≡ trim s
unfolding trim is_whitespace
trim-newline s =
    with_last is_whitespace (trim s) b'\n'
      (starts-trimmed is_whitespace (trim_start_by is_whitespace s)
        (starts-trim_start_by is_whitespace s))
      (rw (reverse-reverse (trim_start_by is_whitespace (reverse (trim_start_by is_whitespace s))))
        (starts-trim_start_by is_whitespace (reverse (trim_start_by is_whitespace s))))
      refl
