-- ===== src/Exec/Obeys.antt =====
-- A relation between the states around a method, and a predicate on what it raises, together: one rule for
-- each way to build a method.
use solvetls.Base.{Bool, if◌then◌else◌}
use solvetls.Exec.{
  Result, ok, err, Exec, pure, raise, gets, modify, ◌>>=◌, ◌>>◌, handle, try_except,
}
use solvetls.Exec.Steps.{
  Steps, IsPreorder, Steps-pure, Steps-raise, Steps-gets, Steps-if, Steps-bind, Steps-then,
  Steps-try,
}
use solvetls.Exec.Raises.{
  OnError, Raises, Raises-pure, Raises-raise, Raises-gets, Raises-if, Raises-bind, Raises-then,
}

pub record Obeys {S E A : Type 0} (R : S → S → Type 0) (P : E → Type 0) (m : Exec S E A)
    : Type 0 where
  pub steps : Steps R m
  pub errors : Raises P m

module _ {S E : Type 0} {R : S → S → Type 0} {P : E → Type 0} where
  -- A weaker relation.
  pub Obeys-weaken :
      {A : Type 0} {Q : S → S → Type 0} {m : Exec S E A}
      → ((s t : S) → Q s t → R s t)
      → Obeys Q P m
      → Obeys R P m
  Obeys-weaken f h = record {
    steps = record { run = λ s. f s _ (h.steps.run s) };
    errors = h.errors;
  }

  pub Obeys-modify : (f : S → S) → ((s : S) → R s (f s)) → Obeys R P (modify f)
  Obeys-modify f h = record { steps = record { run = h }; errors = record { at = λ s. tt } }

module _ {S E : Type 0} {R : S → S → Type 0} {P : E → Type 0} (order : IsPreorder R) where
  module _ {A : Type 0} where
    pub Obeys-pure : (a : A) → Obeys R P (pure a)
    Obeys-pure a = record { steps = Steps-pure order a; errors = Raises-pure a }

    pub Obeys-raise : {e : E} → P e → Obeys {A = A} R P (raise e)
    Obeys-raise p = record { steps = Steps-raise order _; errors = Raises-raise p }

    pub Obeys-gets : (f : S → A) → Obeys R P (gets f)
    Obeys-gets f = record { steps = Steps-gets order f; errors = Raises-gets f }

    pub Obeys-if :
        (b : Bool) {m n : Exec S E A} → Obeys R P m → Obeys R P n → Obeys R P (if b then m else n)
    Obeys-if b h k = record {
      steps = Steps-if order b h.steps k.steps;
      errors = Raises-if b h.errors k.errors;
    }

    handle-OnError :
        (h : E → Exec S E A) (x : Result E A × S)
        → OnError P x.0
        → ((e : E) → P e → OnError P (h e x.1).0)
        → OnError P (handle h x).0
    handle-OnError h (ok a, s) p k = p
    handle-OnError h (err e, s) p k = k e p

    pub Obeys-try :
        {m : Exec S E A} {h : E → Exec S E A}
        → Obeys R P m
        → ((e : E) → Steps R (h e))
        → ((e : E) → P e → Raises P (h e))
        → Obeys R P (try_except m h)
    unfolding try_except
    Obeys-try {m} {h} k steps errors = record {
      steps = Steps-try order k.steps steps;
      errors = record {
        at = λ s. handle-OnError h (m s) (k.errors.at s) (λ e p. (errors e p).at (m s).1);
      };
    }

  module _ {A B : Type 0} where
    pub Obeys-bind :
        {m : Exec S E A} {f : A → Exec S E B}
        → Obeys R P m
        → ((a : A) → Obeys R P (f a))
        → Obeys R P (m >>= f)
    Obeys-bind h k = record {
      steps = Steps-bind order h.steps (λ a. (k a).steps);
      errors = Raises-bind h.errors (λ a. (k a).errors);
    }

    pub Obeys-then :
        {m : Exec S E A} {n : Exec S E B} → Obeys R P m → Obeys R P n → Obeys R P (m >> n)
    Obeys-then h k = record {
      steps = Steps-then order h.steps k.steps;
      errors = Raises-then h.errors k.errors;
    }
