-- ===== src/Http1/Prefix.antt =====
-- The search for a head's end in solvetls/http1.py looks at nothing behind it.
use solvetls.Base.{
  ℕ, zero, suc, ◌+◌, ◌≤◌, ◌≡◌, refl, ap, arith, true, false, ◌&&◌, [], ◌∷◌, ◌++◌, length, take,
  Option, none, some, ◌==◌, Bool-cases, inl, inr, ◌⊎◌,
}
use solvetls.Wire.Bytes.{Bytes}
use solvetls.Http1.{starts, head_end, find, further}

starts-length : (p xs : Bytes) → starts p xs ≡ true → length p ≤ length xs
unfolding starts
starts-length [] xs h = omega arith
starts-length (c ∷ p) [] h = cc
starts-length (c ∷ p) (x ∷ xs) h = ground (arith, h, starts-length p xs)

starts-prefix :
    (p xs rest : Bytes) (n : ℕ)
    → length p ≤ n
    → n ≤ length xs
    → starts p (take n xs ++ rest) ≡ starts p xs
unfolding starts
starts-prefix [] xs rest n h k = refl
starts-prefix (c ∷ p) xs rest zero h k = absurd (omega (arith, h))
starts-prefix (c ∷ p) [] rest (suc n) h k = absurd (omega (arith, k))
starts-prefix (c ∷ p) (x ∷ xs) rest (suc n) h k =
    ap (λ b. (c == x) && b) (starts-prefix p xs rest n (omega (arith, h)) (omega (arith, k)))

further_inv : (o : Option ℕ) (e : ℕ) → further 1 o ≡ some e → (d : ℕ) × (o ≡ some d) × (e ≡ 1 + d)
further_inv none e h = cc
further_inv (some d) e h = (d, refl, cc h)

-- A terminator at the start, or one behind the first byte.
find_cases :
    (x : ℕ) (xs : Bytes) (e : ℕ)
    → find head_end (x ∷ xs) ≡ some e
    → ((starts head_end (x ∷ xs) ≡ true) × (e ≡ 0))
      ⊎ ((starts head_end (x ∷ xs) ≡ false) × (d : ℕ) × (find head_end xs ≡ some d) × (e ≡ 1 + d))
unfolding find
find_cases x xs e h = elim (Bool-cases (starts head_end (x ∷ xs))) [
  | inl b ↦ inl (b, cc (rw b at h))
  | inr b ↦
      let (d, found, same) = further_inv (find head_end xs) e (rw b at h) in inr (b, d, found, same)
]

pub find-fits : (xs : Bytes) (e : ℕ) → find head_end xs ≡ some e → e + 4 ≤ length xs
unfolding find
find-fits [] e h = cc
find-fits (x ∷ xs) e h = elim (find_cases x xs e h) [
  | inl (b, same) ↦ omega (arith, starts-length head_end (x ∷ xs) b, same)
  | inr (b, d, found, same) ↦ omega (arith, find-fits xs d found, same)
]

pub find-prefix :
    (xs rest : Bytes) (e : ℕ)
    → find head_end xs ≡ some e
    → find head_end (take (e + 4) xs ++ rest) ≡ some e
unfolding find
find-prefix [] rest e h = cc
find-prefix (x ∷ xs) rest e h =
    let whole = find-fits (x ∷ xs) e h in
    elim (find_cases x xs e h) [
      | inl (b, same) ↦ rw same (
          rw (starts-prefix head_end (x ∷ xs) rest 4 (omega arith) (omega (arith, whole, same)), b))
      | inr (b, d, found, same) ↦
          let behind : e + 4 ≡ suc (d + 4) = omega (arith, same) in
          let here =
            starts-prefix head_end (x ∷ xs) rest (suc (d + 4)) (omega arith)
              (omega (arith, whole, same)) in
          rw (behind, here, b, find-prefix xs rest d found, same)
    ]

pub take-prefix :
    (m n : ℕ) (xs rest : Bytes) → m ≤ n → n ≤ length xs → take m (take n xs ++ rest) ≡ take m xs
take-prefix zero n xs rest le h = refl
take-prefix (suc m) zero xs rest le h = absurd (omega (arith, le))
take-prefix (suc m) (suc n) [] rest le h = absurd (omega (arith, h))
take-prefix (suc m) (suc n) (x ∷ xs) rest le h =
    ap (λ t. x ∷ t) (take-prefix m n xs rest (omega (arith, le)) (omega (arith, h)))
