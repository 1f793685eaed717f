-- ===== src/Exec/Steps.antt =====
-- A relation between the states before and after a method, whether it returns or raises: one rule
-- for each way to build a method.
use solvetls.Base.{Bool, true, false, if◌then◌else◌}
use solvetls.Exec.{
  Result, ok, err, Exec, pure, raise, gets, continue, ◌>>=◌, ◌>>◌, raise_if, handle, try_except,
  on_new,
}

-- Every run of `m` relates its first state to its last.
pub record Steps {ℓ} {S E A : Type ℓ} (R : S → S → Type ℓ) (m : Exec S E A) : Type ℓ where
  pub run : (s : S) → R s (m s).1

-- What a relation needs for the rules.
pub record IsPreorder {ℓ} {S : Type ℓ} (R : S → S → Type ℓ) : Type ℓ where
  pub stay : (s : S) → R s s
  pub chain : (s t u : S) → R s t → R t u → R s u

module _ {ℓ} {S E : Type ℓ} {R : S → S → Type ℓ} (order : IsPreorder R) where
  module _ {A : Type ℓ} where
    pub Steps-pure : (a : A) → Steps {E = E} R (pure a)
    Steps-pure a = record { run = order.stay }

    pub Steps-raise : (e : E) → Steps {A = A} R (raise e)
    Steps-raise e = record { run = order.stay }

    pub Steps-gets : (f : S → A) → Steps {E = E} R (gets f)
    Steps-gets f = record { run = order.stay }

    pub Steps-on_new : {T : Type ℓ} (t : T) (m : Exec T E A) → Steps R (on_new t m)
    unfolding on_new
    Steps-on_new t m = record { run = order.stay }

    pub Steps-if :
        (b : Bool) {m n : Exec S E A} → Steps R m → Steps R n → Steps R (if b then m else n)
    Steps-if true km kn = km
    Steps-if false km kn = kn

  module _ {A B : Type ℓ} where
    continue-step :
        (f : A → Exec S E B) (r : Result E A) (s t : S)
        → R s t
        → ((a : A) → Steps R (f a))
        → R s (continue f (r, t)).1
    continue-step f (ok a) s t h k = order.chain s t _ h ((k a).run t)
    continue-step f (err e) s t h k = h

    pub Steps-bind :
        {m : Exec S E A} {f : A → Exec S E B}
        → Steps R m
        → ((a : A) → Steps R (f a))
        → Steps R (m >>= f)
    unfolding ◌>>=◌
    Steps-bind {m} {f} km kf = record {
      run = λ s. let (r, t) = m s in continue-step f r s t (km.run s) kf;
    }

    pub Steps-then : {m : Exec S E A} {n : Exec S E B} → Steps R m → Steps R n → Steps R (m >> n)
    unfolding ◌>>◌
    Steps-then km kn = Steps-bind km (λ _. kn)

  module _ {A : Type ℓ} where
    handle-step :
        (h : E → Exec S E A) (r : Result E A) (s t : S)
        → R s t
        → ((e : E) → Steps R (h e))
        → R s (handle h (r, t)).1
    handle-step h (ok a) s t p k = p
    handle-step h (err e) s t p k = order.chain s t _ p ((k e).run t)

    pub Steps-try :
        {m : Exec S E A} {h : E → Exec S E A}
        → Steps R m
        → ((e : E) → Steps R (h e))
        → Steps R (try_except m h)
    unfolding try_except
    Steps-try {m} {h} km kh = record {
      run = λ s. let (r, t) = m s in handle-step h r s t (km.run s) kh;
    }

module _ {S E : Type 0} {R : S → S → Type 0} (order : IsPreorder R) where
  pub Steps-raise_if : (b : Bool) (e : E) → Steps R (raise_if b e)
  unfolding raise_if
  Steps-raise_if true e = record { run = order.stay }
  Steps-raise_if false e = record { run = order.stay }
