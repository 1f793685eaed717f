-- ===== src/Exec/Raises.antt =====
-- A predicate on what a method may raise: one rule for each way to build a method.
use solvetls.Base.{Bool, true, false, if◌then◌else◌}
use solvetls.Exec.{Result, ok, err, Exec, pure, raise, gets, continue, ◌>>=◌, ◌>>◌, raise_if}

-- The predicate, at a result.
abbrev pub OnError {ℓ} : {E A : Type ℓ} → (E → Type ℓ) → Result E A → Type ℓ
OnError P (ok a) = Unit
OnError P (err e) = P e

-- Whatever `m` raises satisfies `P`.
pub record Raises {ℓ} {S E A : Type ℓ} (P : E → Type ℓ) (m : Exec S E A) : Type ℓ where
  pub at : (s : S) → OnError P (m s).0

module _ {ℓ} {S E : Type ℓ} {P : E → Type ℓ} where
  module _ {A : Type ℓ} where
    pub Raises-pure : (a : A) → Raises {S = S} P (pure a)
    Raises-pure a = record { at = λ s. tt }

    pub Raises-gets : (f : S → A) → Raises P (gets f)
    Raises-gets f = record { at = λ s. tt }

    pub Raises-raise : {e : E} → P e → Raises {S = S} {A = A} P (raise e)
    Raises-raise p = record { at = λ s. p }

    pub Raises-if :
        (b : Bool) {m n : Exec S E A} → Raises P m → Raises P n → Raises P (if b then m else n)
    Raises-if true h k = h
    Raises-if false h k = k

  module _ {A B : Type ℓ} where
    continue-OnError :
        (f : A → Exec S E B) (x : Result E A × S)
        → OnError P x.0
        → ((a : A) → Raises P (f a))
        → OnError P (continue f x).0
    continue-OnError f (ok a, s) h k = (k a).at s
    continue-OnError f (err e, s) h k = h

    pub Raises-bind :
        {m : Exec S E A} {f : A → Exec S E B}
        → Raises P m
        → ((a : A) → Raises P (f a))
        → Raises P (m >>= f)
    unfolding ◌>>=◌
    Raises-bind {m} {f} h k = record { at = λ s. continue-OnError f (m s) (h.at s) k }

    pub Raises-then :
        {m : Exec S E A} {n : Exec S E B} → Raises P m → Raises P n → Raises P (m >> n)
    unfolding ◌>>◌
    Raises-then h k = Raises-bind h (λ _. k)

module _ {S E : Type 0} {P : E → Type 0} where
  pub Raises-raise_if : (b : Bool) (e : E) → P e → Raises {S = S} P (raise_if b e)
  unfolding raise_if
  Raises-raise_if true e p = record { at = λ s. p }
  Raises-raise_if false e p = record { at = λ s. tt }
