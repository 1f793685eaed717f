-- ===== src/HttpFields/Response.antt =====
-- solvetls/http_fields.py: `prepare_response`.
pub mod Framing
use solvetls.Base.{
  ℕ, ◌+◌, ◌≡◌, refl, sym, subst, ◌∙◌, arith, Bool, true, false, ◌&&◌, ◌||◌, List, [], ◌∷◌, Option,
  none, some, length, ltb, leb, ◌==◌, if◌then◌else◌, ap, Bool-cases, inl, inr,
}
use solvetls.Base.Text.{codes, str}
use solvetls.Base.Sort.{Text}
use solvetls.Wire.Bytes.{Bytes}

-- s == t
unfoldable pub text_eq : Text → Text → Bool
text_eq [] [] = true
text_eq [] (y ∷ t) = false
text_eq (x ∷ s) [] = false
text_eq (x ∷ s) (y ∷ t) = x == y && text_eq s t

-- A dict from texts to texts, in insertion order.
abbrev pub Headers : Type 0
Headers = List (Text × Text)

unfoldable pub get : Text → Headers → Option Text
get k [] = none
get k ((j, v) ∷ d) = if text_eq j k then some v else get k d

-- d[k] = v
unfoldable pub put : Text → Text → Headers → Headers
put k v [] = (k, v) ∷ []
put k v ((j, w) ∷ d) = if text_eq j k then (j, v) ∷ d else (j, w) ∷ put k v d

-- d.pop(k, None): a key stands once in a dict.
unfoldable pub pop : Text → Headers → Headers
pop k [] = []
pop k ((j, w) ∷ d) = if text_eq j k then pop k d else (j, w) ∷ pop k d

-- `str.lower` on the ASCII letters, of which header names consist.
unfoldable pub lower_char : ℕ → ℕ
lower_char c = if leb b'A' c && leb c b'Z' then c + 32 else c

unfoldable pub lower : Text → Text
lower [] = []
lower (c ∷ t) = lower_char c ∷ lower t

-- {key.lower(): str(value) for key, value in headers.items()}, with values that are texts.
unfoldable pub normalize : Headers → Headers → Headers
normalize acc [] = acc
normalize acc ((k, v) ∷ d) = normalize (put (lower k) v acc) d

abbrev pub content_length : Text
content_length = codes "content-length"

unfoldable pub is_bodiless : ℕ → Bool
is_bodiless status = status == 204 || status == 304 || (leb 100 status && ltb status 200)

-- `headers or {}`: None is the empty dict.
unfoldable pub prepare_response : Bytes → Headers → ℕ → Bytes × Headers
prepare_response content headers status =
    let normalized = normalize [] headers in
    if is_bodiless status
    then ([], pop content_length normalized)
    else (content, put content_length (str (length content)) normalized)

pub text_eq_refl : (s : Text) → text_eq s s ≡ true
unfolding text_eq
text_eq_refl [] = refl
text_eq_refl (x ∷ s) = ground (arith, text_eq_refl s)

pub text_eq_sound : (s t : Text) → text_eq s t ≡ true → s ≡ t
unfolding text_eq
text_eq_sound [] [] h = refl
text_eq_sound [] (y ∷ t) h = cc
text_eq_sound (x ∷ s) [] h = cc
text_eq_sound (x ∷ s) (y ∷ t) h = ground (arith, text_eq_sound s t)

text_eq_trans : (s t u : Text) → text_eq s t ≡ true → text_eq s u ≡ text_eq t u
text_eq_trans s t u h = ap (λ x. text_eq x u) (text_eq_sound s t h)

text_eq-join : (s t u : Text) → text_eq s u ≡ true → text_eq t u ≡ true → text_eq s t ≡ true
text_eq-join s t u h k =
    subst (λ x. text_eq s x ≡ true) (text_eq_sound s u h ∙ sym (text_eq_sound t u k))
      (text_eq_refl s)

pub get-put :
    (j k v : Text) (d : Headers) → get j (put k v d) ≡ (if text_eq k j then some v else get j d)
unfolding get put
get-put j k v [] = refl
get-put j k v ((i, w) ∷ d) =
    ground (arith, get-put j k v d, text_eq_trans i k j, text_eq-join i k j)

pub get-pop : (j k : Text) (d : Headers) → get j (pop k d) ≡ (if text_eq k j then none else get j d)
unfolding get pop
get-pop j k [] = ground arith
get-pop j k ((i, w) ∷ d) = ground (arith, get-pop j k d, text_eq_trans i k j, text_eq-join i k j)
