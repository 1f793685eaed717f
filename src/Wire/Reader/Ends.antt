-- ===== src/Wire/Reader/Ends.antt =====
-- The loops `while reader.has_more()`, and the fuel that stands for them.
use solvetls.Base.{
  ℕ, zero, suc, ◌+◌, ◌-◌, ◌≤◌, ◌<◌, ◌≡◌, ap, ◌∙◌, arith, Bool, true, false, ◌∷◌, length, ltb,
  if◌then◌else◌, Bool-cases, inl, inr, ◌≢◌,
}
use solvetls.Exec.{Result, ok, err, pure, raise, gets, ◌>>=◌, on_new, continue}
use solvetls.Exec.Steps.{Steps}
use solvetls.Exec.Run.{bind_inv, Result-cases}
use solvetls.Wire.Bytes.{Bytes}
use solvetls.Wire.Reader.{
  ReadError, stuck, invalid_length_bytes, ByteReader, Read, has_more, read, read_remaining,
  read_uint8, read_uint16, read_uint24, read_uint32, read_length, read_vector, while_more, read_all,
}
use solvetls.Wire.Reader.Bounds.{Forward, forward_rules}

-- A round of a loop that returns takes at least one byte.
pub record Consumes {A : Type 0} (m : Read A) : Type 0 where
  pub takes : (s t : ByteReader) (a : A) → m s ≡ (ok a, t) → s.pos < t.pos

-- The run ends by itself, whatever the buffer holds.
pub record Ends {A : Type 0} (m : Read A) : Type 0 where
  pub ends : (s : ByteReader) → (m s).0 ≢ err stuck

read-Consumes : (n : ℕ) → Consumes (read (suc n))
unfolding read
read-Consumes n = record { takes = λ s t a e. ground arith }

module _ {A B : Type 0} where
  pub bind-Consumes :
      (m : Read A) (f : A → Read B)
      → Consumes m
      → ((a : A) → Steps Forward (f a))
      → Consumes (m >>= f)
  bind-Consumes m f cm ff = record {
    takes = λ s t b e.
        let (a, u, p, q) = bind_inv m f s t e in
        let k = (ff a).run u in
        omega (
          arith,
          cm.takes s u a p,
          k.ahead,
          ap (λ (x : Result ReadError B × ByteReader). x.1.pos) q,
        );
  }

  continue-Ends :
      (f : A → Read B) (x : Result ReadError A × ByteReader)
      → x.0 ≢ err stuck
      → ((a : A) → Ends (f a))
      → (continue f x).0 ≢ err stuck
  continue-Ends f (ok a, s) h k = (k a).ends s
  continue-Ends f (err e, s) h k = λ p. h (cc p)

  pub bind-Ends : {m : Read A} {f : A → Read B} → Ends m → ((a : A) → Ends (f a)) → Ends (m >>= f)
  unfolding ◌>>=◌
  bind-Ends {m} {f} h k = record { ends = λ s. continue-Ends f (m s) (h.ends s) k }

module _ {A : Type 0} where
  pub pure-Ends : (a : A) → Ends (pure a)
  pure-Ends a = record { ends = λ s p. cc p }

  pub gets-Ends : (f : ByteReader → A) → Ends (gets f)
  gets-Ends f = record { ends = λ s p. cc p }

  pub raise-Ends : (e : ReadError) → e ≢ stuck → Ends (raise {A = A} e)
  raise-Ends e h = record { ends = λ s p. h (cc p) }

  pub if-Ends : (b : Bool) {m n : Read A} → Ends m → Ends n → Ends (if b then m else n)
  if-Ends true h k = h
  if-Ends false h k = k

  -- A helper with a reader of its own.
  pub on_new-Ends : (r : ByteReader) (m : Read A) → Ends m → Ends (on_new {S = ByteReader} r m)
  unfolding on_new
  on_new-Ends r m h = record { ends = λ s. h.ends r }

pub read-Ends : (n : ℕ) → Ends (read n)
unfolding read
read-Ends n = record { ends = λ s p. ground arith }

pub read_uint8-Consumes : Consumes read_uint8
unfolding read_uint8
read_uint8-Consumes = bind-Consumes (read 1) _ (read-Consumes 0) (λ bs. search forward_rules)

pub read_uint16-Consumes : Consumes read_uint16
unfolding read_uint16
read_uint16-Consumes = bind-Consumes (read 2) _ (read-Consumes 1) (λ bs. search forward_rules)

pub read_uint24-Consumes : Consumes read_uint24
unfolding read_uint24
read_uint24-Consumes = bind-Consumes (read 3) _ (read-Consumes 2) (λ bs. search forward_rules)

raise-Consumes : {A : Type 0} (e : ReadError) → Consumes (raise {A = A} e)
raise-Consumes e = record { takes = λ s t a p. cc p }

if-Consumes :
    {A : Type 0} (b : Bool) {m n : Read A} → Consumes m → Consumes n → Consumes (if b then m else n)
if-Consumes true h k = h
if-Consumes false h k = k

read_length-Consumes : (k : ℕ) → Consumes (read_length k)
unfolding read_length
read_length-Consumes k =
    search
      (if-Consumes, raise-Consumes, read_uint8-Consumes, read_uint16-Consumes, read_uint24-Consumes)

pub read_vector-Consumes : (k : ℕ) → Consumes (read_vector k)
unfolding read_vector
read_vector-Consumes k =
    bind-Consumes (read_length k) _ (read_length-Consumes k) (λ n. search forward_rules)

pub ruleset ends_rules = (read-Ends, bind-Ends, pure-Ends, gets-Ends, if-Ends, on_new-Ends)

pub read_uint8-Ends : Ends read_uint8
unfolding read_uint8
read_uint8-Ends = search ends_rules

pub read_uint16-Ends : Ends read_uint16
unfolding read_uint16
read_uint16-Ends = search ends_rules

pub read_uint24-Ends : Ends read_uint24
unfolding read_uint24
read_uint24-Ends = search ends_rules

pub read_uint32-Ends : Ends read_uint32
unfolding read_uint32
read_uint32-Ends = search ends_rules

pub read_remaining-Ends : Ends read_remaining
unfolding read_remaining
read_remaining-Ends = record { ends = λ s. (read-Ends (length s.dat - s.pos)).ends s }

invalid_length_bytes-Ends : Ends (raise {A = ℕ} invalid_length_bytes)
invalid_length_bytes-Ends = raise-Ends invalid_length_bytes (λ p. cc p)

pub read_vector-Ends : (k : ℕ) → Ends (read_vector k)
unfolding read_vector read_length
read_vector-Ends k =
    search
      (ends_rules, invalid_length_bytes-Ends, read_uint8-Ends, read_uint16-Ends, read_uint24-Ends)
      depth 9

module _ {A : Type 0} (m : Read A) (ff : Steps Forward m) (cm : Consumes m) (em : Ends m) where
  round :
      (s t : ByteReader) (a : A) (fuel : ℕ)
      → m s ≡ (ok a, t)
      → length s.dat ≤ s.pos + suc fuel
      → length t.dat ≤ t.pos + fuel
  round s t a fuel e h =
      let k : Forward s t = rw e at (ff.run s) in
      omega (arith, cm.takes s t a e, ap (λ (d : Bytes). length d) k.same)

  while_more-ends :
      (fuel : ℕ) (s : ByteReader)
      → length s.dat ≤ s.pos + fuel
      → (while_more fuel m s).0 ≢ err stuck
  unfolding while_more ◌>>=◌ has_more
  while_more-ends zero s h = λ p. ground arith
  while_more-ends (suc fuel) s h = elim (Bool-cases (ltb s.pos (length s.dat))) [
    | inr done ↦ rw done (λ p. cc p)
    | inl more ↦ elim (Result-cases (m s)) [
      | inl (a, t, e) ↦
          rw (more, e)
            (continue-Ends (λ xs. pure (a ∷ xs)) (while_more fuel m t)
              (while_more-ends fuel t (round s t a fuel e h)) (λ xs. pure-Ends (a ∷ xs)))
      | inr (x, t, e) ↦ rw (more, e) (λ p. em.ends s (ap (λ q. q.0) e ∙ cc p))
    ]
  ]

-- The loop over a reader does not run out of fuel, whatever the buffer holds, if a round does not, a
-- round never moves the cursor back, and a round that returns takes at least one byte.
pub read_all-Ends :
    {A : Type 0} (m : Read A) → Steps Forward m → Consumes m → Ends m → Ends (read_all m)
unfolding read_all
read_all-Ends m ff cm em = record {
  ends = λ s. while_more-ends m ff cm em (length s.dat) s (omega arith);
}
