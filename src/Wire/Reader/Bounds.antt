-- ===== src/Wire/Reader/Bounds.antt =====
-- What every method of a reader leaves alone, and how far it goes.
use solvetls.Base.{
  ℕ, zero, suc, ◌-◌, ◌≤◌, ◌≡◌, refl, ap, ◌∙◌, arith, Bool, [], ◌∷◌, length, if◌then◌else◌,
}
use solvetls.Exec.{Exec, pure, raise, gets, ◌>>=◌, on_new}
use solvetls.Exec.Steps.{
  Steps, IsPreorder, Steps-pure, Steps-raise, Steps-gets, Steps-if, Steps-bind, Steps-on_new,
}
use solvetls.Wire.Bytes.{Bytes}
use solvetls.Wire.Reader.{
  ReadError, ByteReader, Read, read, read_remaining, read_uint8, read_uint16, read_uint24,
  read_uint32, read_length, read_vector, while_more, read_all,
}

-- The buffer is the same, and the cursor goes forward and not past the end.
pub record Forward (s t : ByteReader) : Type 0 where
  pub same : t.dat ≡ s.dat
  pub ahead : s.pos ≤ t.pos
  pub inside : s.pos ≤ length s.dat → t.pos ≤ length s.dat

pub Forward-preorder : IsPreorder Forward
Forward-preorder = record {
  stay = λ s. record { same = refl; ahead = omega arith; inside = λ h. h };
  chain = λ s t u h k. record {
    same = k.same ∙ h.same;
    ahead = omega (arith, h.ahead, k.ahead);
    inside = λ p. Forward-inside s t u h k p;
  };
}
  where
    Forward-inside :
        (s t u : ByteReader)
        → Forward s t
        → Forward t u
        → s.pos ≤ length s.dat
        → u.pos ≤ length s.dat
    Forward-inside s t u h k p =
        let e = ap (λ (d : Bytes). length d) h.same in
        omega (arith, e, k.inside (omega (arith, e, h.inside p)))

pub read-Forward : (n : ℕ) → Steps Forward (read n)
unfolding read
read-Forward n = record { run = λ r. ground arith }

module _ {A B : Type 0} where
  pub bind-Forward :
      {m : Read A} {f : A → Read B}
      → Steps Forward m
      → ((a : A) → Steps Forward (f a))
      → Steps Forward (m >>= f)
  bind-Forward = Steps-bind Forward-preorder

module _ {A : Type 0} where
  pub pure-Forward : (a : A) → Steps {E = ReadError} Forward (pure a)
  pure-Forward = Steps-pure Forward-preorder

  pub raise-Forward : (e : ReadError) → Steps {A = A} Forward (raise e)
  raise-Forward = Steps-raise Forward-preorder

  pub gets-Forward : (f : ByteReader → A) → Steps {E = ReadError} Forward (gets f)
  gets-Forward = Steps-gets Forward-preorder

  pub if-Forward :
      (b : Bool) {m n : Read A}
      → Steps Forward m
      → Steps Forward n
      → Steps Forward (if b then m else n)
  if-Forward = Steps-if Forward-preorder

  pub on_new-Forward : {T : Type 0} (t : T) (m : Exec T ReadError A) → Steps Forward (on_new t m)
  on_new-Forward = Steps-on_new Forward-preorder

pub ruleset block_rules = (
  read-Forward, bind-Forward, pure-Forward, raise-Forward, gets-Forward, if-Forward, on_new-Forward,
)

pub read_remaining-Forward : Steps Forward read_remaining
unfolding read_remaining
read_remaining-Forward = record { run = λ r. (read-Forward (length r.dat - r.pos)).run r }

pub read_uint8-Forward : Steps Forward read_uint8
unfolding read_uint8
read_uint8-Forward = search block_rules

pub read_uint16-Forward : Steps Forward read_uint16
unfolding read_uint16
read_uint16-Forward = search block_rules

pub read_uint24-Forward : Steps Forward read_uint24
unfolding read_uint24
read_uint24-Forward = search block_rules

pub read_uint32-Forward : Steps Forward read_uint32
unfolding read_uint32
read_uint32-Forward = search block_rules

pub read_vector-Forward : (k : ℕ) → Steps Forward (read_vector k)
unfolding read_vector read_length
read_vector-Forward k =
    search (block_rules, read_uint8-Forward, read_uint16-Forward, read_uint24-Forward) depth 9

while_more-Forward :
    {A : Type 0} (fuel : ℕ) (m : Read A) → Steps Forward m → Steps Forward (while_more fuel m)
unfolding while_more
while_more-Forward zero m h = search block_rules depth 8
while_more-Forward (suc fuel) m h = bind-Forward (gets-Forward _) λ more.
    if-Forward more
      (bind-Forward h λ x. bind-Forward (while_more-Forward fuel m h) λ xs. pure-Forward (x ∷ xs))
      (pure-Forward [])

pub read_all-Forward : {A : Type 0} (m : Read A) → Steps Forward m → Steps Forward (read_all m)
unfolding read_all
read_all-Forward m h = record { run = λ r. (while_more-Forward (length r.dat) m h).run r }

-- A method built of these never goes back, leaves the buffer, or passes its end.
pub ruleset forward_rules = (
  block_rules, read_remaining-Forward, read_uint8-Forward, read_uint16-Forward, read_uint24-Forward,
  read_uint32-Forward, read_vector-Forward, read_all-Forward,
)
