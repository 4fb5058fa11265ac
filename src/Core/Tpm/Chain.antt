-- ===== src/Core/Tpm/Chain.antt =====
-- How a computation ends, seen through a view of its state, and the rules that chain such facts.
use pinpam.Base.{Outcome, ok, err, St, map_err, convert, catch, ◌>>=◌, ◌>>◌, ◌≡◌, refl, ap}

-- From the state `s` the computation has the outcome `r` and leaves the view `v`.
abbrev pub Ends : {S V E A : Type 0} → (S → V) → St S E A → S → Outcome E A → V → Type 0
Ends view m s r v = ((m s).0 ≡ r) × (view (m s).1 ≡ v)

module _ {S V : Type 0} (view : S → V) where
  -- A first step that succeeds, and what comes after it.
  pub chain :
      {E A B : Type 0} (m : St S E A) (f : A → St S E B) (s : S) {a : A} {v w : V} {r : Outcome E B}
      → Ends view m s (ok a) v
      → ((s' : S) → view s' ≡ v → Ends view (f a) s' r w)
      → Ends view (m >>= f) s r w
  unfolding ◌>>=◌
  chain m f s p k = rw p.0 (k (m s).1 p.1)

  -- The same, where the value of the first step is not used.
  pub follow :
      {E A B : Type 0} (m : St S E A) (k : St S E B) (s : S) {a : A} {v w : V} {r : Outcome E B}
      → Ends view m s (ok a) v
      → ((s' : S) → view s' ≡ v → Ends view k s' r w)
      → Ends view (m >> k) s r w
  unfolding ◌>>◌
  follow m f s p k = rw p.0 (k (m s).1 p.1)

  -- A first step that fails ends the computation.
  pub stop :
      {E A B : Type 0} (m : St S E A) (f : A → St S E B) (s : S) {e : E} {v : V}
      → Ends view m s (err e) v
      → Ends view (m >>= f) s (err e) v
  unfolding ◌>>=◌
  stop m f s p = rw p.0 (refl, p.1)

  -- A `match` on the outcome of a computation.
  pub caught :
      {E F A B : Type 0} (m : St S E A) (f : Outcome E A → St S F B) (s : S) {q : Outcome E A}
      {v w : V} {r : Outcome F B}
      → Ends view m s q v
      → ((s' : S) → view s' ≡ v → Ends view (f q) s' r w)
      → Ends view (catch m f) s r w
  unfolding catch
  caught m f s p k = rw (p.0, catch) (k (m s).1 p.1)

  pub converted :
      {E F A : Type 0} (g : E → F) (m : St S E A) (s : S) {r : Outcome E A} {v : V}
      → Ends view m s r v
      → Ends view (convert g m) s (map_err g r) v
  unfolding convert
  converted g m s p = (ap (map_err g) p.0, p.1)

  -- As `chain`, with one more fact about the state that the first step leaves.
  pub chain_with :
      {E A B : Type 0} (m : St S E A) (f : A → St S E B) (s : S) (P : S → Type 0) {a : A} {v w : V}
      {r : Outcome E B}
      → Ends view m s (ok a) v
      → P (m s).1
      → ((s' : S) → view s' ≡ v → P s' → Ends view (f a) s' r w)
      → Ends view (m >>= f) s r w
  unfolding ◌>>=◌
  chain_with m f s P p q k = rw p.0 (k (m s).1 p.1 q)

  pub follow_with :
      {E A B : Type 0} (m : St S E A) (k : St S E B) (s : S) (P : S → Type 0) {a : A} {v w : V}
      {r : Outcome E B}
      → Ends view m s (ok a) v
      → P (m s).1
      → ((s' : S) → view s' ≡ v → P s' → Ends view k s' r w)
      → Ends view (m >> k) s r w
  unfolding ◌>>◌
  follow_with m g s P p q k = rw p.0 (k (m s).1 p.1 q)

  -- As `stop`, where the value of the first step is not used.
  pub cease :
      {E A B : Type 0} (m : St S E A) (k : St S E B) (s : S) {e : E} {v : V}
      → Ends view m s (err e) v
      → Ends view (m >> k) s (err e) v
  unfolding ◌>>◌
  cease m k s p = rw p.0 (refl, p.1)
