-- ===== src/Http2/Adapter.antt =====
-- solvetls/http2/adapter.py: `bounded_content_length`, for the digits that its caller gives it, and the
-- size updates that the encoder keeps. `Connection` has what calls h2; what calls hpack is not modelled.
pub mod Connection
use solvetls.Base.{
  ℕ, suc, ◌+◌, ◌-◌, ◌*◌, ◌^◌, ◌≤◌, ◌<◌, ◌≡◌, refl, ap, ◌∙◌, arith, min, List, [], ◌∷◌, length, ltb,
  subst, ◌==◌, if◌then◌else◌, Bool-cases, inl, inr, All,
}
use solvetls.Base.Chars.{
  IsDigit, decimal_from, decimal, strip_zeros, or_zero, decimal-strip_zeros, decimal-or_zero,
  decimal_from_grows, significant_head,
}
use solvetls.Wire.Bytes.{Bytes}
use native.Mathlib.Nat.{pow-suc, pow-le-pow_right}

abbrev pub max_request_body : ℕ
max_request_body = 1048576

-- len(str(MAX_REQUEST_BODY)) is 7.
unfoldable pub bounded_content_length : Bytes → ℕ
bounded_content_length value =
    let significant = or_zero (strip_zeros value) in
    if ltb 7 (length significant)
    then max_request_body + 1
    else min (decimal significant) (max_request_body + 1)

-- min(changes) and changes[-1], of a list that begins with `c`
unfoldable pub smallest_from : ℕ → List ℕ → ℕ
smallest_from c [] = c
smallest_from c (d ∷ changes) = smallest_from (min c d) changes

unfoldable pub final_from : ℕ → List ℕ → ℕ
final_from c [] = c
final_from c (d ∷ changes) = final_from d changes

-- What `_ResponseEncoder.encode` leaves of the size updates of its table.
unfoldable pub shrink_changes : List ℕ → List ℕ
shrink_changes [] = []
shrink_changes (c ∷ changes) =
    let smallest = smallest_from c changes in
    let final = final_from c changes in
    if smallest == final then smallest ∷ [] else smallest ∷ final ∷ []

-- A number of more than seven digits that begins with no zero is over the maximum.
long_decimal :
    (d : ℕ) (ds : Bytes) → b'0' < d → 7 ≤ length ds → max_request_body + 1 ≤ decimal (d ∷ ds)
unfolding decimal decimal_from
long_decimal d ds h k =
    let grown =
      decimal_from_grows (length ds) 0 (10 * 0 + (d - b'0')) ds (omega arith) (omega arith) in
    omega (arith, grown, pow-le-pow_right {n = 10} (omega arith) {i = 7} {j = length ds} k)

-- The branches of `bounded_content_length`, for the digits without their zeros.
bounded_significant :
    (value significant : Bytes)
    → All IsDigit value
    → strip_zeros value ≡ significant
    → bounded_content_length value ≡ min (decimal (or_zero significant)) (max_request_body + 1)
unfolding bounded_content_length
bounded_significant value [] a e = rw e
bounded_significant value (d ∷ ds) a e = elim (Bool-cases (ltb 7 (length (d ∷ ds)))) [
  | inl long ↦
      let big = long_decimal d ds (significant_head value d ds a e) (ground (arith, long)) in
      rw (e, long) (omega (arith, big))
  | inr short ↦ rw (e, short)
]

-- Of any decimal digits, however many, `bounded_content_length` is their number, or one more than the
-- largest body if the number is larger.
pub bounded_content_length_lem :
    (value : Bytes)
    → All IsDigit value
    → bounded_content_length value ≡ min (decimal value) (max_request_body + 1)
bounded_content_length_lem value a =
    bounded_significant value (strip_zeros value) a refl
    ∙ ap (λ n. min n (max_request_body + 1))
        (decimal-or_zero (strip_zeros value) ∙ decimal-strip_zeros value)
