-- ===== src/Wire/Naming.antt =====
-- solvetls/wire/naming.py: GREASE values, and raw wire values with their names.
use solvetls.Base.{
  ℕ, ◌*◌, ◌/◌, ◌%◌, ◌^◌, ◌≡◌, arith, Bool, ◌&&◌, List, [], ◌∷◌, ◌++◌, any, map, bit_or, String,
  Option, none, some, ◌==◌, if◌then◌else◌,
}
use solvetls.Base.Text.{codes, hex4}

abbrev below_16 : List ℕ
below_16 = 0 ∷ 1 ∷ 2 ∷ 3 ∷ 4 ∷ 5 ∷ 6 ∷ 7 ∷ 8 ∷ 9 ∷ 10 ∷ 11 ∷ 12 ∷ 13 ∷ 14 ∷ 15 ∷ []

unfoldable pub grease_values : List ℕ
grease_values = map (λ i. bit_or (bit_or (bit_or (i * 2 ^ 12) 0x0A00) (i * 2 ^ 4)) 0x0A) below_16

-- value in GREASE_VALUES
unfoldable pub is_grease : ℕ → Bool
unfolding grease_values
is_grease v = any (λ g. v == g) grease_values

-- A class of `IntEnum`: its members' values and names, in order.
abbrev pub EnumType : Type 0
EnumType = List (ℕ × String)

-- enum_type(value).name, or None where no member has the value.
unfoldable pub enum_name : ℕ → EnumType → Option String
enum_name v [] = none
enum_name v ((w, n) ∷ e) = if v == w then some n else enum_name v e

-- The dict that `describe` returns; `grease` is the key that is present only on GREASE values.
pub record Described : Type 0 where
  pub value : ℕ
  pub hex : List ℕ
  pub name : Option String
  pub grease : Bool

unfoldable pub describe : ℕ → EnumType → Described
unfolding enum_name is_grease
describe v e = record {
  value = v;
  hex = codes "0x" ++ hex4 v;
  name = enum_name v e;
  grease = is_grease v;
}

-- GREASE is exactly the 16-bit values whose two bytes are equal and end in the nibble A.
pub is_grease_lem : (v : ℕ) → is_grease v ≡ (v / 256 == v % 256 && v % 16 == 10)
unfolding is_grease
is_grease_lem v = ground arith
