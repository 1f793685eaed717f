-- ===== src/Base/Chars.antt =====
-- Characters, tokens and decimal numbers, as several parts of the program test them.
use Prim.Native.Nat.{ℕ, suc, ◌+◌, ◌-◌, ◌*◌, ◌^◌, ◌≤◌, ◌<◌}
use mathlib.Core.Path.{◌≡◌, refl, subst}
use mathlib.Core.Logic.{inl, inr}
use mathlib.Core.Bool.{Bool, true, false, ◌&&◌, ◌||◌}
use mathlib.Core.List.{List, [], ◌∷◌}
use native.Mathlib.Omega.{arith}
use native.Mathlib.Nat.{pow-suc}
use solvetls.Base.Tests.{leb, ◌==◌, if◌then◌else◌, Bool-cases}
use solvetls.Base.Lists.{length, any, All}
use solvetls.Base.Text.{codes}

abbrev pub is_alpha : ℕ → Bool
is_alpha b = (leb b'A' b && leb b b'Z') || (leb b'a' b && leb b b'z')

abbrev pub is_digit : ℕ → Bool
is_digit b = leb b'0' b && leb b b'9'

-- The bytes that TOKEN matches.
unfoldable pub is_token_byte : ℕ → Bool
is_token_byte b =
    is_digit b
    || ((leb b'A' b && leb b b'Z')
        || ((leb b'a' b && leb b b'z') || any (λ c. c == b) (codes "!#$%&'*+.^_`|~-")))

unfoldable pub all_bytes : (ℕ → Bool) → List ℕ → Bool
all_bytes p [] = true
all_bytes p (b ∷ bs) = p b && all_bytes p bs

-- TOKEN.fullmatch(name)
unfoldable pub is_token : List ℕ → Bool
is_token [] = false
is_token (b ∷ bs) = all_bytes is_token_byte (b ∷ bs)

-- value.isdigit(), which is false of no bytes at all
unfoldable pub is_digits : List ℕ → Bool
is_digits [] = false
is_digits (b ∷ bs) = all_bytes is_digit (b ∷ bs)

abbrev pub is_hex : ℕ → Bool
is_hex b = is_digit b || ((leb b'A' b && leb b b'F') || (leb b'a' b && leb b b'f'))

-- The number that decimal digits show, behind the number `acc`.
unfoldable pub decimal_from : ℕ → List ℕ → ℕ
decimal_from acc [] = acc
decimal_from acc (d ∷ ds) = decimal_from (10 * acc + (d - b'0')) ds

-- int(value)
unfoldable pub decimal : List ℕ → ℕ
decimal ds = decimal_from 0 ds

-- value.lstrip(b"0")
unfoldable pub strip_zeros : List ℕ → List ℕ
strip_zeros [] = []
strip_zeros (d ∷ ds) = if d == b'0' then strip_zeros ds else d ∷ ds

-- significant or b"0"
abbrev pub or_zero : List ℕ → List ℕ
or_zero [] = b'0' ∷ []
or_zero (d ∷ ds) = d ∷ ds

pub decimal-strip_zeros : (ds : List ℕ) → decimal (strip_zeros ds) ≡ decimal ds
unfolding decimal decimal_from strip_zeros
decimal-strip_zeros [] = refl
decimal-strip_zeros (d ∷ ds) = ground (arith, decimal-strip_zeros ds)

pub decimal-or_zero : (ds : List ℕ) → decimal (or_zero ds) ≡ decimal ds
unfolding decimal decimal_from
decimal-or_zero [] = refl
decimal-or_zero (d ∷ ds) = refl

-- Each digit behind a number multiplies it by ten at least.
pub decimal_from_grows :
    (k j acc : ℕ) (ds : List ℕ) → k ≡ j + length ds → 10 ^ j ≤ acc → 10 ^ k ≤ decimal_from acc ds
unfolding decimal_from
decimal_from_grows k j acc [] e h = subst (λ i. 10 ^ i ≤ acc) (omega arith) h
decimal_from_grows k j acc (d ∷ ds) e h =
    decimal_from_grows k (suc j) (10 * acc + (d - b'0')) ds (omega arith)
      (omega (arith, pow-suc 10 j))

abbrev pub IsDigit : ℕ → Type 0
IsDigit d = (b'0' ≤ d) × (d ≤ b'9')

pub significant_head :
    (value : List ℕ) (d : ℕ) (ds : List ℕ)
    → All IsDigit value
    → strip_zeros value ≡ d ∷ ds
    → b'0' < d
unfolding strip_zeros
significant_head [] d ds a e = cc
significant_head (c ∷ value) d ds (h, a) e = elim (Bool-cases (c == b'0')) [
  | inl zero_digit ↦ significant_head value d ds a (rw zero_digit at e)
  | inr other ↦ let e' = rw other at e in let same : c ≡ d = cc e' in ground (arith, same, h, other)
]
