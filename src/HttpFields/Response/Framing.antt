-- ===== src/HttpFields/Response/Framing.antt =====
-- What `prepare_response` makes of a content, a status and the caller's headers.
use solvetls.Base.{
  ℕ, ◌+◌, ◌≤◌, ◌<◌, ◌≡◌, ◌≢◌, ◌⊎◌, refl, sym, arith, Bool, true, false, ◌&&◌, [], ◌∷◌, Option, none,
  some, length, leb, ◌==◌, if◌then◌else◌, Bool-cases, inl, inr,
}
use solvetls.Base.Text.{str}
use solvetls.Base.Sort.{Text}
use solvetls.Wire.Bytes.{Bytes}
use solvetls.HttpFields.Response.{
  text_eq, Headers, get, put, lower_char, lower, normalize, content_length, is_bodiless,
  prepare_response, text_eq_refl, text_eq_sound, get-put, get-pop,
}

-- RFC 9110, sections 6.4.1 and 8.6: the statuses whose responses have neither content nor Content-Length.
abbrev pub IsBodiless : ℕ → Type 0
IsBodiless status = (status ≡ 204) ⊎ ((status ≡ 304) ⊎ ((100 ≤ status) × (status < 200)))

-- An octet of a given name, and one of a name in lower case.
unfoldable pub same_char : ℕ → ℕ → Bool
same_char c d = if leb 65 c && leb c 90 then d == c + 32 else d == c

unfoldable pub same_name : Text → Text → Bool
same_name [] [] = true
same_name [] (d ∷ n) = false
same_name (c ∷ k) [] = false
same_name (c ∷ k) (d ∷ n) = same_char c d && same_name k n

unfoldable pub or_else : Option Text → Option Text → Option Text
or_else none w = w
or_else (some v) w = some v

-- The value of the last header given whose name, in any case of its letters, is this one in lower case.
unfoldable pub last_given : Text → Headers → Option Text
last_given n [] = none
last_given n ((k, v) ∷ d) = or_else (last_given n d) (if same_name k n then some v else none)

same_name_lem : (k n : Text) → text_eq (lower k) n ≡ same_name k n
unfolding text_eq lower lower_char same_name same_char
same_name_lem [] [] = refl
same_name_lem [] (d ∷ n) = refl
same_name_lem (c ∷ k) [] = refl
same_name_lem (c ∷ k) (d ∷ n) = ground (arith, same_name_lem k n)

or_else-if :
    (o g : Option Text) (b : Bool) (v : Text)
    → or_else o (if b then some v else g) ≡ or_else (or_else o (if b then some v else none)) g
unfolding or_else
or_else-if none g true v = refl
or_else-if none g false v = refl
or_else-if (some w) g b v = refl

get-normalize :
    (n : Text) (acc d : Headers) → get n (normalize acc d) ≡ or_else (last_given n d) (get n acc)
unfolding normalize last_given or_else
get-normalize n acc [] = refl
get-normalize n acc ((k, v) ∷ d) =
    rw (get-normalize n (put (lower k) v acc) d, get-put n (lower k) v acc, same_name_lem k n)
      (or_else-if (last_given n d) (get n acc) (same_name k n) v)

or_else-none : (o : Option Text) → or_else o none ≡ o
unfolding or_else
or_else-none none = refl
or_else-none (some v) = refl

given : (n : Text) (d : Headers) → get n (normalize [] d) ≡ last_given n d
unfolding get
given n d = rw (get-normalize n [] d) (or_else-none (last_given n d))

is_bodiless-true : (status : ℕ) → is_bodiless status ≡ true → IsBodiless status
unfolding is_bodiless
is_bodiless-true status h = ground (arith, h)

is_bodiless-false : (status : ℕ) → is_bodiless status ≡ false → ¬ IsBodiless status
unfolding is_bodiless
is_bodiless-false status h (inl a) = ground (arith, h, a)
is_bodiless-false status h (inr (inl a)) = ground (arith, h, a)
is_bodiless-false status h (inr (inr a)) = ground (arith, h, a)

other_name : (n : Text) → n ≢ content_length → text_eq content_length n ≡ false
other_name n other = elim (Bool-cases (text_eq content_length n)) [
  | inl b ↦ absurd (other (sym (text_eq_sound content_length n b)))
  | inr b ↦ b
]

-- Whatever headers the caller gives: a response with a status of 204, 304 or 100 to 199 has no content and no
-- Content-Length; one with any other status keeps its content, and has one Content-Length to look up, which is
-- the length of that content in digits. Under every other name stands the value of the last header that the
-- caller gives by this name with its letters A to Z put in lower case, or nothing, where there is none.
pub prepare_response_framing :
    (content : Bytes) (headers : Headers) (status : ℕ)
    → ((IsBodiless status
          × ((prepare_response content headers status).0 ≡ [])
          × (get content_length (prepare_response content headers status).1 ≡ none))
        ⊎ ((¬ IsBodiless status)
            × ((prepare_response content headers status).0 ≡ content)
            × (get content_length (prepare_response content headers status).1
                ≡ some (str (length content)))))
      × ((name : Text)
          → name ≢ content_length
          → get name (prepare_response content headers status).1 ≡ last_given name headers)
unfolding prepare_response
prepare_response_framing content headers status =
    let d = normalize [] headers in
    let same = text_eq_refl content_length in
    elim (Bool-cases (is_bodiless status)) [
      | inl b ↦ rw b (
        inl (is_bodiless-true status b, refl, rw (get-pop, same)),
        λ name other. rw (get-pop, other_name name other) (given name headers),
      )
      | inr b ↦ rw b (
        inr (is_bodiless-false status b, refl, rw (get-put, same)),
        λ name other. rw (get-put, other_name name other) (given name headers),
      )
    ]
