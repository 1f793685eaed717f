-- ===== src/Base/Text.antt =====
-- Texts as lists of code points, and the decimal and hexadecimal numbers that the program prints.
use Prim.Native.Char.{code}
use Prim.Native.String.{String}
use Prim.Native.Nat.{ℕ, zero, suc, ◌+◌, ◌-◌, ◌/◌, ◌%◌}
use mathlib.Core.Path.{◌≡◌, refl}
use mathlib.Core.List.{List, [], ◌∷◌, ◌++◌}
use solvetls.Base.Tests.{ltb, ◌==◌, if◌then◌else◌}

abbrev pub codes : String → List ℕ
codes String.[] = []
codes (String.◌∷◌ c s) = code c ∷ codes s

-- A digit of a numeral in a base up to 16, in lower case.
unfoldable pub digit : ℕ → ℕ
digit d = if ltb d 10 then b'0' + d else b'a' + (d - 10)

-- The digits of `n` in base `b`, put before `acc`. As many rounds as `n` are more than enough.
unfoldable pub numeral_loop : ℕ → ℕ → ℕ → List ℕ → List ℕ
numeral_loop b zero n acc = acc
numeral_loop b (suc fuel) n acc =
    let rest = numeral_loop b fuel (n / b) (digit (n % b) ∷ acc) in if n == 0 then acc else rest

-- `str(n)` of a number that is not negative.
unfoldable pub str : ℕ → List ℕ
unfolding numeral_loop digit
str n = if n == 0 then b'0' ∷ [] else numeral_loop 10 n n []

-- `f"{n:02x}"` of a byte.
unfoldable pub hex2 : ℕ → List ℕ
unfolding digit
hex2 n = digit (n / 16 % 16) ∷ digit (n % 16) ∷ []

-- `f"{n:04x}"`: four digits at least.
unfoldable pub hex4 : ℕ → List ℕ
unfolding digit hex2 numeral_loop
hex4 n = if ltb n 65536 then hex2 (n / 256) ++ hex2 n else numeral_loop 16 n n []

-- `sep.join(parts)`
unfoldable pub join : List ℕ → List (List ℕ) → List ℕ
join sep [] = []
join sep (x ∷ []) = x
join sep (x ∷ y ∷ ys) = x ++ (sep ++ join sep (y ∷ ys))

str_907 : str 907 ≡ codes "907"
unfolding str
str_907 = refl

hex2_9 : hex2 0xa9 ≡ codes "a9"
unfolding hex2
hex2_9 = refl
