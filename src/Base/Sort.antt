-- ===== src/Base/Sort.antt =====
-- Python's `sorted` on texts: insertion into a sorted list, by the order of code points.
use solvetls.Base.Tests.{ltb, ◌==◌, if◌then◌else◌}
use Prim.Native.Nat.{ℕ}
use mathlib.Core.Path.{◌≡◌, refl, sym, ap, ap₂, ◌∙◌}
use mathlib.Core.Bool.{Bool, true, false}
use mathlib.Core.List.{List, [], ◌∷◌, Permᴰ}
use native.Mathlib.Omega.{arith}

abbrev pub Text : Type 0
Text = List ℕ

-- s <= t
unfoldable pub text_le : Text → Text → Bool
text_le [] t = true
text_le (x ∷ s) [] = false
text_le (x ∷ s) (y ∷ t) = if ltb x y then true else if x == y then text_le s t else false

unfoldable pub insert : Text → List Text → List Text
insert a [] = a ∷ []
insert a (b ∷ l) = if text_le a b then a ∷ b ∷ l else b ∷ insert a l

unfoldable pub sorted : List Text → List Text
sorted [] = []
sorted (a ∷ l) = insert a (sorted l)

text_le-total : (s t : Text) → text_le s t ≡ false → text_le t s ≡ true
unfolding text_le
text_le-total [] t h = cc
text_le-total (x ∷ s) [] h = refl
text_le-total (x ∷ s) (y ∷ t) h = ground (arith, text_le-total s t)

text_le_antisymm : (s t : Text) → text_le s t ≡ true → text_le t s ≡ true → s ≡ t
unfolding text_le
text_le_antisymm [] [] h k = refl
text_le_antisymm [] (y ∷ t) h k = cc
text_le_antisymm (x ∷ s) [] h k = cc
text_le_antisymm (x ∷ s) (y ∷ t) h k = ground (arith, text_le_antisymm s t)

text_le_trans : (s t u : Text) → text_le s t ≡ true → text_le t u ≡ true → text_le s u ≡ true
unfolding text_le
text_le_trans [] t u h k = refl
text_le_trans (x ∷ s) [] u h k = cc
text_le_trans (x ∷ s) (y ∷ t) [] h k = cc
text_le_trans (x ∷ s) (y ∷ t) (z ∷ u) h k = ground (arith, text_le_trans s t u)

-- The order in which two texts are inserted does not show.
pub insert_comm : (a b : Text) (l : List Text) → insert a (insert b l) ≡ insert b (insert a l)
unfolding insert
insert_comm a b [] = ground (arith, text_le-total a b, text_le-total b a, text_le_antisymm a b)
insert_comm a b (c ∷ l) = ground (
  arith,
  text_le-total a b,
  text_le-total b a,
  text_le_antisymm a b,
  text_le_trans a b c,
  text_le_trans b a c,
  text_le-total a c,
  text_le-total b c,
  insert_comm a b l,
)

-- A function of a list that reads it item by item, where the order of two neighbours does not show,
-- is a function of the items alone.
module _ {ℓ κ} {A : Type ℓ} {B : Type κ} (f : List A → B) (g : A → B → B) where
  pub fold-Permᴰ :
      (step : (a : A) (l : List A) → f (a ∷ l) ≡ g a (f l))
      (comm : (a b : A) (x : B) → g a (g b x) ≡ g b (g a x)) {l m : List A}
      → Permᴰ l m
      → f l ≡ f m
  fold-Permᴰ step comm Permᴰ.nil = refl
  fold-Permᴰ step comm (Permᴰ.cons {a = a} {b = b} {l₁ = l} {l₂ = m} e p) =
      step a l ∙ ap₂ g e (fold-Permᴰ step comm p) ∙ sym (step b m)
  fold-Permᴰ step comm (Permᴰ.swap {a = a} {b = b} {a' = a'} {b' = b'} {l = l} e k) =
      step a (b ∷ l)
      ∙ ap (g a) (step b l)
      ∙ comm a b (f l)
      ∙ ap₂ (λ x y. g x (g y (f l))) k e
      ∙ ap (g a') (sym (step b' l))
      ∙ sym (step a' (b' ∷ l))
  fold-Permᴰ step comm (Permᴰ.trans p q) = fold-Permᴰ step comm p ∙ fold-Permᴰ step comm q
