-- ===== src/Base/Bits.antt =====
-- The masks that the program applies to whole words, as arithmetic.
use Prim.Native.Nat.{
  ℕ, zero, suc, ◌+◌, ◌-◌, ◌*◌, ◌/◌, ◌%◌, ◌^◌, ◌≤◌, ◌<◌, min, bit_and, digits, bit_and-bitwise,
}
use mathlib.Core.Path.{◌≡◌, refl, sym, ap, ◌∙◌}
use native.Mathlib.Omega.{arith}
use native.Mathlib.Nat.{one-le-pow, pow-suc}

-- `bit_and` halves both numbers, for as many rounds as its first argument. Here the rounds are free.
abbrev rounds : ℕ → ℕ → ℕ → ℕ
rounds fuel x y = digits (λ u. zero) min fuel x y

rounds_idle : (fuel y : ℕ) → rounds fuel 0 y ≡ 0
rounds_idle zero y = refl
rounds_idle (suc fuel) y = refl

rounds_masked : (fuel x : ℕ) → rounds fuel x 0 ≡ 0
rounds_masked zero x = refl
rounds_masked (suc fuel) zero = refl
rounds_masked (suc fuel) (suc x) = omega (arith, rounds_masked fuel (suc x / 2))

rounds_spare : (spare fuel x y : ℕ) → x ≤ fuel → rounds (fuel + spare) x y ≡ rounds fuel x y
rounds_spare spare zero x y le =
    let none : x ≡ 0 = omega arith in
    ap (λ u. rounds (0 + spare) u y) none
    ∙ (rounds_idle (0 + spare) y ∙ ap (λ u. rounds 0 u y) (sym none))
rounds_spare spare (suc fuel) zero y le = rounds_idle (suc fuel + spare) y
rounds_spare spare (suc fuel) (suc x) y le =
    let more : suc fuel + spare ≡ suc (fuel + spare) = omega arith in
    ap (λ f. rounds f (suc x) y) more
    ∙ omega (arith, rounds_spare spare fuel (suc x / 2) (y / 2) (omega arith))

-- The rounds that are left when the first has been taken are enough.
rounds_left : (x y : ℕ) → rounds x (suc x / 2) y ≡ bit_and (suc x / 2) y
rounds_left x y =
    let half = suc x / 2 in
    let split : x ≡ half + (x - half) = omega arith in
    ap (λ fuel. rounds fuel half y) split
    ∙ (rounds_spare (x - half) half half y (omega arith) ∙ sym (bit_and-bitwise half y))

-- One binary digit of a conjunction.
halve : (x y : ℕ) → bit_and x y ≡ min (x % 2) (y % 2) + 2 * bit_and (x / 2) (y / 2)
halve zero y = omega (arith, bit_and-bitwise 0 (y / 2), bit_and-bitwise 0 y)
halve (suc x) y = omega (arith, rounds_left x (y / 2), bit_and-bitwise (suc x) y)

masked : (x : ℕ) → bit_and x 0 ≡ 0
masked x = bit_and-bitwise x 0 ∙ rounds_masked x x

-- A value that fits below the mask is left as it is.
bit_and_ones_fits : (k a : ℕ) → a < 2 ^ k → bit_and a (2 ^ k - 1) ≡ a
bit_and_ones_fits zero a h = omega (arith, masked a)
bit_and_ones_fits (suc k) a h =
    ground
      (arith, halve a (2 ^ suc k - 1), pow-suc 2 k, one-le-pow k 2, bit_and_ones_fits k (a / 2))

-- The reserved top bit of a 32-bit word is masked away.
pub bit_and_stream_id : (a : ℕ) → a < 2147483648 → bit_and a 0x7FFFFFFF ≡ a
bit_and_stream_id a h = bit_and_ones_fits 31 a h

-- The low nibble of a byte.
pub bit_and_nibble : (a : ℕ) → bit_and a 0x0F ≡ a % 16
bit_and_nibble a = omega (
  arith,
  halve a 15,
  halve (a / 2) 7,
  halve (a / 2 / 2) 3,
  halve (a / 2 / 2 / 2) 1,
  masked (a / 2 / 2 / 2 / 2),
)
