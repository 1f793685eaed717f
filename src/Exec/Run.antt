-- ===== src/Exec/Run.antt =====
-- Running a `do` block along known steps, and taking a finished run apart.
use solvetls.Base.{◌≡◌, refl, ap, Bool, true, false, ◌⊎◌, inl, inr, if◌then◌else◌}
use solvetls.Exec.{Result, ok, err, Exec, continue, ◌>>=◌, ◌>>◌, raise_if}

module _ {ℓ} {S E A B : Type ℓ} where
  -- A step that returns passes its value and its state on.
  pub bind-ok :
      (m : Exec S E A) (f : A → Exec S E B) {s t : S} {a : A}
      → m s ≡ (ok a, t)
      → (m >>= f) s ≡ f a t
  unfolding ◌>>=◌
  bind-ok m f e = ap (continue f) e

  -- A step that raises ends the block.
  pub bind-err :
      (m : Exec S E A) (f : A → Exec S E B) {s t : S} {e : E}
      → m s ≡ (err e, t)
      → (m >>= f) s ≡ (err e, t)
  unfolding ◌>>=◌
  bind-err m f e = ap (continue f) e

  pub then-ok :
      (m : Exec S E A) (n : Exec S E B) {s t : S} {a : A} → m s ≡ (ok a, t) → (m >> n) s ≡ n t
  unfolding ◌>>◌
  then-ok m n e = bind-ok m (λ _. n) e

  pub then-err :
      (m : Exec S E A) (n : Exec S E B) {s t : S} {e : E}
      → m s ≡ (err e, t)
      → (m >> n) s ≡ (err e, t)
  unfolding ◌>>◌
  then-err m n e = bind-err m (λ _. n) e

  continue-inv :
      (f : A → Exec S E B) (r : Result E A) (u t : S) {b : B}
      → continue f (r, u) ≡ (ok b, t)
      → (a : A) × (r ≡ ok a) × (f a u ≡ (ok b, t))
  continue-inv f (ok a) u t h = (a, refl, h)
  continue-inv f (err e) u t h = cc

  -- A block that returns has run its first step and then the rest.
  pub bind_inv :
      (m : Exec S E A) (f : A → Exec S E B) (s t : S) {b : B}
      → (m >>= f) s ≡ (ok b, t)
      → (a : A) × (u : S) × (m s ≡ (ok a, u)) × (f a u ≡ (ok b, t))
  unfolding ◌>>=◌
  bind_inv m f s t h =
      let (r, u) = m s in let (a, p, q) = continue-inv f r u t h in (a, u, ap (λ x. (x, u)) p, q)

  pub then_inv :
      (m : Exec S E A) (n : Exec S E B) (s t : S) {b : B}
      → (m >> n) s ≡ (ok b, t)
      → (a : A) × (u : S) × (m s ≡ (ok a, u)) × (n u ≡ (ok b, t))
  unfolding ◌>>◌
  then_inv m n s t h = bind_inv m (λ _. n) s t h

module _ {ℓ} {S E A : Type ℓ} where
  pub Result-cases :
      (p : Result E A × S)
      → ((a : A) × (t : S) × (p ≡ (ok a, t))) ⊎ ((e : E) × (t : S) × (p ≡ (err e, t)))
  Result-cases (ok a, t) = inl (a, t, refl)
  Result-cases (err e, t) = inr (e, t, refl)

module _ {S E : Type 0} where
  -- A guard that is passed changes nothing.
  pub raise_if-false : {b : Bool} (e : E) (s : S) → b ≡ false → raise_if b e s ≡ (ok tt, s)
  unfolding raise_if
  raise_if-false {b} e s h = ap (λ x. if x then (err e, s) else (ok tt, s)) h

  pub raise_if-true : {b : Bool} (e : E) (s : S) → b ≡ true → raise_if b e s ≡ (err e, s)
  unfolding raise_if
  raise_if-true {b} e s h = ap (λ x. if x then (err e, s) else (ok tt, s)) h

  pub raise_if_inv :
      (b : Bool) (e : E) (s t : S) {u : Unit {0}}
      → raise_if b e s ≡ (ok u, t)
      → (b ≡ false) × (s ≡ t)
  unfolding raise_if
  raise_if_inv true e s t h = cc
  raise_if_inv false e s t h = (refl, ap (λ p. p.1) h)

module _ {ℓ} {S E A B : Type ℓ} where
  continue_at :
      (P : Result E B × S → Type ℓ) (f : A → Exec S E B) (x : Result E A × S)
      → ((e : E) (t : S) → x ≡ (err e, t) → P (err e, t))
      → ((a : A) (t : S) → x ≡ (ok a, t) → P (f a t))
      → P (continue f x)
  continue_at P f (ok a, t) h k = k a t refl
  continue_at P f (err e, t) h k = h e t refl

  -- What a block does, from what its first step does: it raises, or the rest runs.
  pub bind_at :
      (P : Result E B × S → Type ℓ) (m : Exec S E A) (f : A → Exec S E B) (s : S)
      → ((e : E) (t : S) → m s ≡ (err e, t) → P (err e, t))
      → ((a : A) (t : S) → m s ≡ (ok a, t) → P (f a t))
      → P ((m >>= f) s)
  unfolding ◌>>=◌
  bind_at P m f s h k = continue_at P f (m s) h k

  pub then_at :
      (P : Result E B × S → Type ℓ) (m : Exec S E A) (n : Exec S E B) (s : S)
      → ((e : E) (t : S) → m s ≡ (err e, t) → P (err e, t))
      → ((a : A) (t : S) → m s ≡ (ok a, t) → P (n t))
      → P ((m >> n) s)
  unfolding ◌>>◌
  then_at P m n s h k = bind_at P m (λ _. n) s h k
