-- ===== src/Http1/Inversion.antt =====
-- What is known of a check of solvetls/http1.py that returned.
use solvetls.Base.{
  ℕ, ◌≡◌, ◌⊎◌, inl, inr, refl, Bool, true, false, not, ◌&&◌, ◌||◌, List, [], ◌∷◌, Option, none,
  some,
}
use solvetls.Base.Sort.{Text}
use solvetls.Exec.{Result, ok, err}
use solvetls.Http1.{HttpError, refuse, and_then}
use solvetls.Http1.Framing.{both}
use solvetls.Http1.Request.{one_host, terminated}

pub and_then_inv :
    {A B : Type 0} (r : Result HttpError A) (f : A → Result HttpError B) (b : B)
    → and_then r f ≡ ok b
    → (a : A) × (r ≡ ok a) × (f a ≡ ok b)
and_then_inv (ok a) f b h = (a, refl, h)
and_then_inv (err e) f b h = cc

pub refuse_inv : (b : Bool) (e : HttpError) (u : Unit {0}) → refuse b e ≡ ok u → b ≡ false
refuse_inv true e u h = cc
refuse_inv false e u h = refl

pub refuse_then_inv :
    {B : Type 0} (b : Bool) (e : HttpError) (f : Unit {0} → Result HttpError B) (x : B)
    → and_then (refuse b e) f ≡ ok x
    → (b ≡ false) × (f tt ≡ ok x)
refuse_then_inv true e f x h = cc
refuse_then_inv false e f x h = (refl, h)

pub not_inv : (b : Bool) → not b ≡ false → b ≡ true
not_inv true h = refl
not_inv false h = cc

pub or_inv : (a b : Bool) → (a || b) ≡ false → (a ≡ false) × (b ≡ false)
or_inv true b h = cc
or_inv false b h = (refl, h)

pub and_inv : (a b : Bool) → (a && b) ≡ true → (a ≡ true) × (b ≡ true)
and_inv true b h = (refl, h)
and_inv false b h = cc

pub terminated_inv : (o : Option ℕ) (e : ℕ) → terminated o ≡ ok e → o ≡ some e
terminated_inv none e h = cc
terminated_inv (some d) e h = cc

pub both_inv : (ls es : List Text) → both ls es ≡ false → (ls ≡ []) ⊎ (es ≡ [])
both_inv [] es h = inl refl
both_inv (l ∷ ls) [] h = inr refl
both_inv (l ∷ ls) (e ∷ es) h = cc

pub one_host_inv : (hosts : List Text) (h : Text) → one_host hosts ≡ ok h → hosts ≡ h ∷ []
one_host_inv [] h e = cc
one_host_inv (g ∷ []) h e = cc
one_host_inv (g ∷ k ∷ hosts) h e = cc
