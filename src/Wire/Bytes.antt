-- ===== src/Wire/Bytes.antt =====
-- Big-endian integers, as `struct.pack` and `struct.unpack` convert them. A byte string is a list of
-- numbers below 256.
use solvetls.Base.{
  ℕ, zero, suc, ◌+◌, ◌*◌, ◌/◌, ◌%◌, ◌^◌, ◌<◌, ◌≡◌, refl, ap, arith, List, [], ◌∷◌, ◌++◌, length,
  All, length-append,
}
use native.Mathlib.Nat.{pow-suc}

abbrev pub Bytes : Type 0
Bytes = List ℕ

abbrev pub IsByte : ℕ → Type 0
IsByte b = b < 256

unfoldable pub unpack_from : ℕ → Bytes → ℕ
unpack_from acc [] = acc
unpack_from acc (b ∷ bs) = unpack_from (acc * 256 + b) bs

-- struct.unpack(">B" | ">H" | ">I", bs)[0]
unfoldable pub unpack : Bytes → ℕ
unfolding unpack_from
unpack bs = unpack_from 0 bs

-- struct.pack(">B" | ">H" | ">I", n), at a width of k bytes.
unfoldable pub pack : ℕ → ℕ → Bytes
pack zero n = []
pack (suc k) n = pack k (n / 256) ++ (n % 256) ∷ []

pub length-pack : (k n : ℕ) → length (pack k n) ≡ k
unfolding pack
length-pack zero n = refl
length-pack (suc k) n =
    omega (arith, length-append {0} (pack k (n / 256)) (n % 256 ∷ []), length-pack k (n / 256))

pub unpack-pack1 : (n : ℕ) → n < 256 → unpack (pack 1 n) ≡ n
unfolding unpack pack
unpack-pack1 n h = omega arith

pub unpack-pack2 : (n : ℕ) → n < 65536 → unpack (pack 2 n) ≡ n
unfolding unpack pack
unpack-pack2 n h = omega arith

pub unpack-pack3 : (n : ℕ) → n < 16777216 → unpack (pack 3 n) ≡ n
unfolding unpack pack
unpack-pack3 n h = omega arith

pub unpack-pack4 : (n : ℕ) → n < 4294967296 → unpack (pack 4 n) ≡ n
unfolding unpack pack
unpack-pack4 n h = omega arith

unpack_from-lt :
    (bs : Bytes) (acc bound : ℕ)
    → acc < bound
    → All IsByte bs
    → unpack_from acc bs < bound * 256 ^ length bs
unfolding unpack_from
unpack_from-lt [] acc bound h a = omega arith
unpack_from-lt (b ∷ bs) acc bound h (p, a) = omega (
  arith,
  unpack_from-lt bs (acc * 256 + b) (bound * 256) (omega arith) a,
  ap (λ (t : ℕ). bound * t) (pow-suc 256 (length bs)),
)

-- An integer of k bytes is below 256 ^ k.
pub unpack-lt : (bs : Bytes) → All IsByte bs → unpack bs < 256 ^ length bs
unfolding unpack
unpack-lt bs a = omega (arith, unpack_from-lt bs 0 1 (omega arith) a)
