-- ===== src/Tests/Codings.antt =====
-- Codings that stand in for base64, JSON and a cipher where the master key is run.
use pinpam.Base.{
  ◌∙◌, zero, ◌==◌, arith, ap, if◌then◌else◌, ◌+◌, suc, [], ◌≡◌, ◌++◌, repeat, ◌∷◌, length, ℕ, List,
  refl,
}
use pinpam.Base.Text.{Text, as_bytes, utf8_char}

-- A list with a mark at its end, and what stands before the first mark.
abbrev pub delimit : List ℕ → List ℕ
delimit [] = 0 ∷ []
delimit (x ∷ xs) = suc x ∷ delimit xs

abbrev pub undelimit : List ℕ → List ℕ × List ℕ
undelimit [] = ([], [])
undelimit (zero ∷ r) = ([], r)
undelimit (suc x ∷ r) = let rest = undelimit r in (x ∷ rest.0, rest.1)

pub undelimit-delimit : (xs ys : List ℕ) → undelimit (delimit xs ++ ys) ≡ (xs, ys)
undelimit-delimit [] ys = refl
undelimit-delimit (x ∷ xs) ys = rw (undelimit-delimit xs ys) refl

-- Each number as so many letters `a`, and a `b`.
abbrev pub letters : List ℕ → Text
letters [] = []
letters (x ∷ xs) = repeat x b'a' ++ (b'b' ∷ letters xs)

abbrev pub unletters : ℕ → List ℕ → List ℕ
unletters n [] = []
unletters n (c ∷ r) = if c == b'a' then unletters (suc n) r else n ∷ unletters 0 r

run_lem :
    (k n : ℕ) (t : Text)
    → unletters k (as_bytes (repeat n b'a' ++ (b'b' ∷ t))) ≡ (k + n) ∷ unletters 0 (as_bytes t)
unfolding as_bytes utf8_char
run_lem k zero t = ap (λ n. n ∷ unletters 0 (as_bytes t)) (omega arith)
run_lem k (suc n) t = run_lem (suc k) n t ∙ ap (λ n. n ∷ unletters 0 (as_bytes t)) (omega arith)

pub unletters-letters : (xs : List ℕ) → unletters 0 (as_bytes (letters xs)) ≡ xs
unfolding as_bytes
unletters-letters [] = refl
unletters-letters (x ∷ xs) =
    rw (run_lem 0 x (letters xs), unletters-letters xs) (ap (λ n. n ∷ xs) (omega arith))

-- So many numbers of a list, or zeros.
abbrev pub pad : ℕ → List ℕ → List ℕ
pad zero xs = []
pad (suc n) [] = 0 ∷ pad n []
pad (suc n) (x ∷ xs) = x ∷ pad n xs

pub length-pad : (n : ℕ) (xs : List ℕ) → length (pad n xs) ≡ n
length-pad zero xs = refl
length-pad (suc n) [] = ap suc (length-pad n [])
length-pad (suc n) (x ∷ xs) = ap suc (length-pad n xs)

pub length-repeat : (n x : ℕ) → length (repeat n x) ≡ n
length-repeat zero x = refl
length-repeat (suc n) x = ap suc (length-repeat n x)
