-- ===== src/Exec.antt =====
-- Methods of Python objects that mutate and raise: a step from a state to a result and a state.
-- What was written before an exception stays written, so the state stands beside the error too.
pub mod Steps
pub mod Run
pub mod Raises
pub mod Obeys
use solvetls.Base.{Bool, true, false, if◌then◌else◌}

-- The value of a call that returns, or the exception that it raises.
pub data Result {ℓ} (E A : Type ℓ) : Type ℓ where
  ok : A → Result E A
  err : E → Result E A

abbrev pub Exec {ℓ} : Type ℓ → Type ℓ → Type ℓ → Type ℓ
Exec S E A = S → Result E A × S

module _ {ℓ} {S E A : Type ℓ} where
  abbrev pub pure : A → Exec S E A
  pure a s = (ok a, s)

  -- raise e
  abbrev pub raise : E → Exec S E A
  raise e s = (err e, s)

  -- An expression over the object's fields.
  abbrev pub gets : (S → A) → Exec S E A
  gets f s = (ok (f s), s)

module _ {ℓ} {S E A B : Type ℓ} where
  abbrev pub continue : (A → Exec S E B) → Result E A × S → Result E B × S
  continue f (ok a, s) = f a s
  continue f (err e, s) = (err e, s)

  infixl 5 ◌>>=◌ ◌>>◌
  unfoldable pub ◌>>=◌ : Exec S E A → (A → Exec S E B) → Exec S E B
  ◌>>=◌ m f s = continue f (m s)

  unfoldable pub ◌>>◌ : Exec S E A → Exec S E B → Exec S E B
  unfolding ◌>>=◌
  m >> n = m >>= λ _. n

-- An assignment to fields of the object.
abbrev pub modify : {S E : Type 0} → (S → S) → Exec S E (Unit {0})
modify f s = (ok tt, f s)

-- if test: raise e
unfoldable pub raise_if : {S E : Type 0} → Bool → E → Exec S E (Unit {0})
raise_if b e s = if b then (err e, s) else (ok tt, s)

module _ {ℓ} {S E A : Type ℓ} where
  abbrev pub handle : (E → Exec S E A) → Result E A × S → Result E A × S
  handle h (ok a, s) = (ok a, s)
  handle h (err e, s) = h e s

  -- try: m  except E as e: h(e)
  unfoldable pub try_except : Exec S E A → (E → Exec S E A) → Exec S E A
  try_except m h s = handle h (m s)

  -- try: m  finally: the assignment f
  unfoldable pub try_finally : Exec S E A → (S → S) → Exec S E A
  try_finally m f s = let (r, s') = m s in (r, f s')

-- A helper that works on its own object of type T, made from the value x, inside a method of S.
module _ {ℓ} {S T E A : Type ℓ} where
  unfoldable pub on_new : T → Exec T E A → Exec S E A
  on_new t m s = let (r, t') = m t in (r, s)
