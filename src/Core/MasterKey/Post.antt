-- ===== src/Core/MasterKey/Post.antt =====
-- Facts about the outcome and the state that a computation ends in, where they are not known
-- beforehand, as with what is random.
use pinpam.Base.{refl, pure, on_result, Outcome, ok, err, St, ◌>>=◌, ◌>>◌, catch, ◌≡◌}
use pinpam.Core.Tpm.Chain.{Ends}

abbrev pub Post : {S E A : Type 0} → St S E A → S → (Outcome E A → S → Type 0) → Type 0
Post m s Q = Q (m s).0 (m s).1

module _ {S V : Type 0} (view : S → V) {E A : Type 0} (Q : Outcome E A → S → Type 0) where
  pub ends_post :
      (m : St S E A) (s : S) {r : Outcome E A} {v : V}
      → Ends view m s r v
      → ((s' : S) → view s' ≡ v → Q r s')
      → Post m s Q
  ends_post m s p k = rw p.0 (k (m s).1 p.1)

module _ {S V : Type 0} (view : S → V) {E A B : Type 0} (Q : Outcome E B → S → Type 0) where
  pub then_post :
      (m : St S E A) (f : A → St S E B) (s : S) {a : A} {v : V}
      → Ends view m s (ok a) v
      → ((s' : S) → view s' ≡ v → Post (f a) s' Q)
      → Post (m >>= f) s Q
  unfolding ◌>>=◌
  then_post m f s p k = rw p.0 (k (m s).1 p.1)

  pub follow_post :
      (m : St S E A) (f : St S E B) (s : S) {a : A} {v : V}
      → Ends view m s (ok a) v
      → ((s' : S) → view s' ≡ v → Post f s' Q)
      → Post (m >> f) s Q
  unfolding ◌>>◌
  follow_post m f s p k = rw p.0 (k (m s).1 p.1)

  -- A first step that succeeds, with what is known of its value and of the state it leaves.
  pub some_post :
      (m : St S E A) (f : A → St S E B) (s : S) (P : A → S → Type 0)
      → Post m s (λ r s'. (a : A) × (r ≡ ok a) × P a s')
      → ((a : A) (s' : S) → P a s' → Post (f a) s' Q)
      → Post (m >>= f) s Q
  unfolding ◌>>=◌
  some_post m f s P (a, e, q) k = rw e (k a (m s).1 q)

-- A first step that succeeds and leaves a state of which `P` is known.
module _ {S E A B : Type 0} (Q : Outcome E B → S → Type 0) (P : S → Type 0) where
  pub follow_some_post :
      (m : St S E A) (f : St S E B) (s : S) (a : A)
      → Post m s (λ r s'. (r ≡ ok a) × P s')
      → ((s' : S) → P s' → Post f s' Q)
      → Post (m >> f) s Q
  unfolding ◌>>◌
  follow_some_post m f s a (e, q) k = rw e (k (m s).1 q)

module _ {S E F A : Type 0} (P : S → Type 0) where
  pub kept_post :
      (m : St S E A) (g : E → St S F A) (s : S) (a : A)
      → Post m s (λ r s'. (r ≡ ok a) × P s')
      → Post (catch m (on_result pure g)) s (λ r s'. (r ≡ ok a) × P s')
  unfolding catch
  kept_post m g s a (e, q) = rw e (refl, q)

-- A first step that fails, with what is known of the state that it leaves.
module _ {S E A B : Type 0} (P : S → Type 0) where
  pub cease_post :
      (m : St S E A) (f : St S E B) (s : S) (e : E)
      → Post m s (λ r s'. (r ≡ err e) × P s')
      → Post (m >> f) s (λ r s'. (r ≡ err e) × P s')
  unfolding ◌>>◌
  cease_post m f s e (h, q) = rw h (refl, q)

module _ {S E F A : Type 0} (Q : Outcome F A → S → Type 0) (P : S → Type 0) where
  pub failed_post :
      (m : St S E A) (g : E → St S F A) (s : S) (e : E)
      → Post m s (λ r s'. (r ≡ err e) × P s')
      → ((s' : S) → P s' → Post (g e) s' Q)
      → Post (catch m (on_result pure g)) s Q
  unfolding catch
  failed_post m g s e (h, q) k = rw h (k (m s).1 q)
