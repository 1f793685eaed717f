-- ===== src/Http1/Smuggling.antt =====
-- What is true of a request that solvetls/http1.py accepts.
use solvetls.Base.{
  ℕ, ◌+◌, ◌≤◌, ◌≡◌, ◌≢◌, ◌⊎◌, refl, sym, ap, subst, ◌∙◌, arith, true, false, not, ◌&&◌, ◌||◌, List,
  [], ◌∷◌, ◌++◌, All, any, length, length-take, take, Option, some, ◌==◌, ltb, ltb_false→le,
}
use solvetls.Base.Chars.{
  is_token, is_digits, decimal, strip_zeros, or_zero, decimal-strip_zeros, decimal-or_zero,
}
use solvetls.Base.Text.{codes}
use solvetls.Base.Sort.{Text}
use solvetls.Exec.{Result, ok, err}
use solvetls.Wire.Bytes.{Bytes}
use solvetls.HttpFields.Response.{text_eq, text_eq_refl, text_eq_sound, Headers}
use solvetls.Uri.{UriError, validate_authority, partition, starts_with}
use solvetls.Uri.Normalize.{SplitResult}
use solvetls.Http1.{
  refuse, head_end, find, head_size, size_at, too_large, check_head_size, split_on, split_lines,
}
use solvetls.Http1.Framing.{
  chunked, read_codings, ends_chunked, coding_values, validate_encodings, length_values,
  some_other_length, conflicting, validate_lengths, values_of, validate_framing,
}
use solvetls.Http1.Request.{
  HttpRequest, or_bad, is_ascii, one_host, parse_field, parse_fields, check_fields,
  check_request_line, parse_lines, parse_request, terminated, first_line, skip_empty, three_parts,
}
use solvetls.Http1.Inversion.{
  and_then_inv, refuse_inv, refuse_then_inv, not_inv, or_inv, and_inv, terminated_inv, both_inv,
  one_host_inv,
}
use solvetls.Http1.Prefix.{find-fits, find-prefix, take-prefix}

same_lengths :
    (first : Text) (vs : List Text)
    → some_other_length first vs ≡ false
    → All (λ v. decimal v ≡ decimal first) vs
unfolding some_other_length
same_lengths first [] h = tt
same_lengths first (v ∷ vs) h =
    let (here, others) =
      or_inv (not (text_eq (or_zero (strip_zeros v)) (or_zero (strip_zeros first)))) _ h in
    let same = text_eq_sound _ _ (not_inv _ here) in
    (
      sym (decimal-or_zero (strip_zeros v) ∙ decimal-strip_zeros v)
          ∙ (ap decimal same ∙ (decimal-or_zero (strip_zeros first) ∙ decimal-strip_zeros first)),
      same_lengths first vs others,
    )

All-digits :
    (vs : List Text) → any (λ v. not (is_digits v)) vs ≡ false → All (λ v. is_digits v ≡ true) vs
All-digits [] h = tt
All-digits (v ∷ vs) h =
    let (here, others) = or_inv (not (is_digits v)) _ h in (not_inv _ here, All-digits vs others)

-- Of a list of lengths, what makes them one length.
abbrev pub OneLength : List Text → Type 0
OneLength [] = ⊥
OneLength (v ∷ vs) = All (λ w. is_digits w ≡ true) (v ∷ vs) × All (λ w. decimal w ≡ decimal v) vs

one_length :
    (vs : List Text)
    → any (λ v. not (is_digits v)) vs ≡ false
    → conflicting vs ≡ false
    → OneLength vs
one_length [] h k = cc
one_length (v ∷ vs) h k = (All-digits (v ∷ vs) h, same_lengths v vs k)

-- Where Content-Length fields are accepted, their members over all fields and commas, of which there is one
-- at least, consist of digits and denote one and the same number.
pub validate_lengths-OneLength :
    (l : Text) (ls : List Text)
    → validate_lengths (l ∷ ls) ≡ ok tt
    → OneLength (length_values (l ∷ ls))
unfolding validate_lengths
validate_lengths-OneLength l ls h =
    let (u, digits, agree) = and_then_inv (refuse _ _) _ tt h in
    one_length (length_values (l ∷ ls)) (refuse_inv _ _ u digits) (refuse_inv _ _ tt agree)

text_differs : (c : Text) → not (text_eq c chunked) ≡ true → c ≢ chunked
text_differs c h e = cc (rw (e, text_eq_refl chunked) at h)

-- The last of the codings is "chunked", and no other is.
ends_chunked_lem :
    (cs : List Text)
    → ends_chunked cs ≡ true
    → (front : List Text) × (cs ≡ front ++ chunked ∷ []) × All (λ c. c ≢ chunked) front
unfolding ends_chunked
ends_chunked_lem [] h = cc
ends_chunked_lem (c ∷ []) h = ([], ap (λ t. t ∷ []) (text_eq_sound c chunked h), tt)
ends_chunked_lem (c ∷ d ∷ cs) h =
    let (other, rest) = and_inv (not (text_eq c chunked)) _ h in
    let (front, same, differ) = ends_chunked_lem (d ∷ cs) rest in
    (c ∷ front, ap (λ t. c ∷ t) same, (text_differs c other, differ))

-- Where Transfer-Encoding fields are accepted, their members are transfer codings that end with "chunked",
-- and no coding before it is "chunked".
pub validate_encodings-chunked :
    (e : Text) (es : List Text)
    → validate_encodings (e ∷ es) ≡ ok tt
    → (values front : List Text) × (coding_values (e ∷ es) ≡ ok values)
      × (read_codings values ≡ ok (front ++ chunked ∷ []))
      × All (λ c. c ≢ chunked) front
unfolding validate_encodings
validate_encodings-chunked e es h =
    let (values, listed, h2) = and_then_inv (coding_values (e ∷ es)) _ tt h in
    let (codings, read, h3) = and_then_inv (read_codings values) _ tt h2 in
    let (u, ends, known) = and_then_inv (refuse _ _) _ tt h3 in
    let (front, same, differ) = ends_chunked_lem codings (not_inv _ (refuse_inv _ _ u ends)) in
    (values, front, listed, subst (λ cs. read_codings values ≡ ok cs) same read, differ)

parse_field-name : (line : Text) (f : Text × Text) → parse_field line ≡ ok f → is_token f.0 ≡ true
unfolding parse_field
parse_field-name line f h =
    let name = (partition b':' line).before in
    let (_, h2) = refuse_then_inv (starts_with b' ' line || starts_with 9 line) _ _ f h in
    let (_, h3) = refuse_then_inv (not (partition b':' line).found) _ _ f h2 in
    let (named, h4) = refuse_then_inv (not (is_ascii name) || not (is_token name)) _ _ f h3 in
    let (_, h5) =
      refuse_then_inv
        (any (λ c. (ltb c 32 && not (c == 9)) || c == 127) (partition b':' line).after) _ _ f h4 in
    let (ascii, token) = or_inv (not (is_ascii name)) (not (is_token name)) named in
    let same : name ≡ f.0 = cc h5 in
    subst (λ n. is_token n ≡ true) same (not_inv (is_token name) token)

parse_fields-names :
    (lines : List Text) (fields : Headers)
    → parse_fields lines ≡ ok fields
    → All (λ f. is_token f.0 ≡ true) fields
unfolding parse_fields
parse_fields-names [] fields h =
    let same : [] ≡ fields = cc h in subst (All (λ f. is_token f.0 ≡ true)) same tt
parse_fields-names (line ∷ lines) fields h =
    let (f, first, h2) = and_then_inv (parse_field line) _ fields h in
    let (fs, others, h3) = and_then_inv (parse_fields lines) _ fields h2 in
    let same : f ∷ fs ≡ fields = cc h3 in
    subst (All (λ f. is_token f.0 ≡ true)) same
      (parse_field-name line f first, parse_fields-names lines fs others)

module _ (ipv6 : Text → Option Text) (urlsplit : Text → Result UriError SplitResult) where
  -- What keeps the message's end from being read in two ways, and its host.
  pub record IsFramed (r : HttpRequest) : Type 0 where
    pub method : is_token r.method ≡ true
    pub host :
        (h k : Text) × (values_of (codes "host") r.headers ≡ h ∷ [])
        × (validate_authority ipv6 false h ≡ ok k)
    pub exclusive :
        (values_of (codes "content-length") r.headers ≡ [])
        ⊎ (values_of (codes "transfer-encoding") r.headers ≡ [])
    pub lengths : validate_lengths (values_of (codes "content-length") r.headers) ≡ ok tt
    pub encodings : validate_encodings (values_of (codes "transfer-encoding") r.headers) ≡ ok tt
    pub names : All (λ f. is_token f.0 ≡ true) r.headers

  or_bad_inv : (x : Result UriError Text) (h : Text) → or_bad x ≡ ok h → x ≡ ok h
  or_bad_inv (ok g) h e = cc
  or_bad_inv (err x) h e = cc

  check_fields_inv :
      (headers : Headers)
      → check_fields ipv6 urlsplit headers ≡ ok tt
      → ((h k : Text) × (values_of (codes "host") headers ≡ h ∷ [])
          × (validate_authority ipv6 false h ≡ ok k))
        × (validate_framing headers ≡ ok tt)
  unfolding check_fields
  check_fields_inv headers h =
      let (host, one, h2) = and_then_inv (one_host (values_of (codes "host") headers)) _ tt h in
      let (k, valid, framing) =
        and_then_inv (or_bad (validate_authority ipv6 false host)) _ tt h2 in
      ((host, k, one_host_inv _ host one, or_bad_inv _ k valid), framing)

  validate_framing_inv :
      (headers : Headers)
      → validate_framing headers ≡ ok tt
      → ((values_of (codes "content-length") headers ≡ [])
          ⊎ (values_of (codes "transfer-encoding") headers ≡ []))
        × (validate_lengths (values_of (codes "content-length") headers) ≡ ok tt)
        × (validate_encodings (values_of (codes "transfer-encoding") headers) ≡ ok tt)
  unfolding validate_framing
  validate_framing_inv headers h =
      let (u, apart, h2) = and_then_inv (refuse _ _) _ tt h in
      let (v, lengths, encodings) = and_then_inv (validate_lengths _) _ tt h2 in
      (both_inv _ _ (refuse_inv _ _ u apart), lengths, encodings)

  check_request_line-method :
      (method target version : Text)
      → check_request_line ipv6 urlsplit method target version ≡ ok tt
      → is_token method ≡ true
  unfolding check_request_line
  check_request_line-method method target version h =
      let (_, h2) = refuse_then_inv (not (is_ascii method) || not (is_ascii target)) _ _ tt h in
      let (token, h3) = refuse_then_inv (not (is_token method)) _ _ tt h2 in
      not_inv (is_token method) token

  parse_lines-IsFramed :
      (raw : Bytes) (lines : Text × List Text) (r : HttpRequest)
      → parse_lines ipv6 urlsplit raw lines ≡ ok r
      → IsFramed r × (r.raw_head ≡ raw)
  unfolding parse_lines
  parse_lines-IsFramed raw (line, lines) r h =
      let (p, parts, h2) = and_then_inv (three_parts (split_on b' ' line)) _ r h in
      let (u, checked, h3) = and_then_inv (check_request_line ipv6 urlsplit p.0 p.1 p.2) _ r h2 in
      let (headers, fields, h4) = and_then_inv (parse_fields lines) _ r h3 in
      let (v, safe, h5) = and_then_inv (check_fields ipv6 urlsplit headers) _ r h4 in
      let (host, framing) = check_fields_inv headers safe in
      let (apart, lengths, encodings) = validate_framing_inv headers framing in
      let made : HttpRequest = record {
        method = p.0;
        path = p.1;
        headers = headers;
        raw_head = raw;
      } in
      let same : made ≡ r = cc h5 in
      subst (λ q. IsFramed q × (q.raw_head ≡ raw)) same
        (
          record {
            method = check_request_line-method p.0 p.1 p.2 checked;
            host = host;
            exclusive = apart;
            lengths = lengths;
            encodings = encodings;
            names = parse_fields-names lines headers fields;
          },
          refl,
        )

  head_small :
      (raw : Bytes) (e : ℕ)
      → find head_end raw ≡ some e
      → too_large raw false ≡ false
      → length (take (e + 4) raw) ≤ 65536
  unfolding too_large head_size
  head_small raw e found small =
      let (fits, _) = or_inv (ltb 65536 (size_at raw (find head_end raw))) _ small in
      let fits' : ltb 65536 (e + 4) ≡ false = rw found at fits in
      omega (arith, length-take (e + 4) raw, ltb_false→le 65536 (e + 4) fits')

  -- What follows the blank line plays no part.
  parse_request_rest :
      (raw rest : Bytes) (e : ℕ) (lines : Text × List Text) (r : HttpRequest)
      → find head_end raw ≡ some e
      → length (take (e + 4) raw) ≤ 65536
      → first_line (skip_empty (split_lines (take e raw))) ≡ ok lines
      → parse_lines ipv6 urlsplit (take (e + 4) raw) lines ≡ ok r
      → parse_request ipv6 urlsplit (take (e + 4) raw ++ rest) ≡ ok r
  unfolding parse_request check_head_size too_large head_size
  parse_request_rest raw rest e lines r found fits first read =
      let whole = find-fits raw e found in
      let fits' : ltb 65536 (e + 4) ≡ false =
        ground (arith, fits, length-take (e + 4) raw, whole) in
      rw (find-prefix raw rest e found) (
        rw
          (
            fits',
            take-prefix e (e + 4) raw rest (omega arith) whole,
            take-prefix (e + 4) (e + 4) raw rest (omega arith) whole,
            first,
          )
          read)

  -- Of a head that `parse_request` accepts: the request's bytes are those up to and with the first blank
  -- line and at most 65536, and with any others behind them it is read as the same request; the method and
  -- all names are tokens; there is one Host field, with an authority that is accepted; and Content-Length and
  -- Transfer-Encoding are not both there, and each is accepted where it is.
  pub parse_request-IsFramed :
      (raw : Bytes) (r : HttpRequest)
      → parse_request ipv6 urlsplit raw ≡ ok r
      → IsFramed r
        × ((e : ℕ) × (find head_end raw ≡ some e) × (r.raw_head ≡ take (e + 4) raw))
        × (length r.raw_head ≤ 65536)
        × ((rest : Bytes) → parse_request ipv6 urlsplit (r.raw_head ++ rest) ≡ ok r)
  unfolding parse_request check_head_size too_large head_size
  parse_request-IsFramed raw r h =
      let (u, small, h2) = and_then_inv (refuse _ _) _ r h in
      let (e, ended, h3) = and_then_inv (terminated (find head_end raw)) _ r h2 in
      let (lines, first, h4) =
        and_then_inv (first_line (skip_empty (split_lines (take e raw)))) _ r h3 in
      let (framed, same) = parse_lines-IsFramed (take (e + 4) raw) lines r h4 in
      let found = terminated_inv (find head_end raw) e ended in
      let fits = head_small raw e found (refuse_inv _ _ u small) in
      (
        framed,
        (e, found, same),
        subst (λ (w : Bytes). length w ≤ 65536) (sym same) fits,
        λ rest.
            subst (λ (w : Bytes). parse_request ipv6 urlsplit (w ++ rest) ≡ ok r) (sym same)
              (parse_request_rest raw rest e lines r found fits first h4),
      )
