-- ===== src/Http2/Validation/Safe.antt =====
-- What the fields of a request satisfy when solvetls/http2/validation.py has raised nothing.
use solvetls.Base.Chars.{strip_zeros, decimal, decimal-strip_zeros, is_token, is_digits}
use solvetls.Base.{
  ◌≤◌, ◌≡◌, ◌≢◌, refl, sym, ap, ◌∙◌, subst, arith, Bool, true, false, not, ◌&&◌, ◌||◌, List, [],
  ◌∷◌, All, length, ltb, Bool-cases, inl, inr,
}
use solvetls.Base.Text.{codes}
use solvetls.Base.Sort.{Text}
use solvetls.Exec.{Result, ok, err}
use solvetls.Wire.Bytes.{Bytes}
use solvetls.HttpFields.Response.{text_eq, text_eq_refl, text_eq_sound, lower}
use solvetls.HttpFields.Lists.{ListError, parse_http_list}
use solvetls.Http2.Validation.{
  Fields, ProtocolError, refuse_if, and_also, is_control, some_byte, ends_blank, starts_blank,
  is_pseudo, content_length, validate_raw_field, validate_raw_fields, values_named, differs,
  some_differs, lengths_conflict, some_not_trailers, validate_te, validate_field_lists,
}

pub and_also_inv :
    (r s : Result ProtocolError (Unit {0})) → and_also r s ≡ ok tt → (r ≡ ok tt) × (s ≡ ok tt)
and_also_inv (ok u) s h = (refl, h)
and_also_inv (err e) s h = cc

pub refuse_if_inv : (b : Bool) (e : ProtocolError) → refuse_if b e ≡ ok tt → b ≡ false
refuse_if_inv true e h = cc
refuse_if_inv false e h = refl

pub or_inv : (a b : Bool) → (a || b) ≡ false → (a ≡ false) × (b ≡ false)
or_inv true b h = cc
or_inv false b h = (refl, h)

no_control_lem :
    (value : Bytes)
    → some_byte is_control value ≡ false
    → All (λ b. (b ≢ 0) × ((b ≢ 10) × (b ≢ 13))) value
unfolding some_byte
no_control_lem [] h = tt
no_control_lem (b ∷ value) h =
    let (here, others) = or_inv (is_control b) (some_byte is_control value) h in
    ((ground arith, (ground arith, ground arith)), no_control_lem value others)

-- What an accepted field satisfies.
pub record IsSafe (trailers : Bool) (field : Bytes × Bytes) : Type 0 where
  pub no_control : All (λ b. (b ≢ 0) × ((b ≢ 10) × (b ≢ 13))) field.1
  pub no_edge : (starts_blank field.1 ≡ false) × (ends_blank field.1 ≡ false)
  pub named : is_pseudo field.0 ≡ false → is_token field.0 ≡ true
  pub measured : field.0 ≡ content_length → (is_digits field.1 ≡ true) × (trailers ≡ false)

name_lem : (a b : Bool) → (not a && not b) ≡ false → a ≡ false → b ≡ true
name_lem a true h k = refl
name_lem true false h k = cc
name_lem false false h k = cc

length_lem : (a b c : Bool) → (a && (not b || c)) ≡ false → a ≡ true → (b ≡ true) × (c ≡ false)
length_lem true true false h k = (refl, refl)
length_lem true true true h k = cc
length_lem true false c h k = cc
length_lem false b c h k = cc

validate_raw_field-IsSafe :
    (trailers : Bool) (name value : Bytes)
    → validate_raw_field trailers name value ≡ ok tt
    → IsSafe trailers (name, value)
unfolding validate_raw_field
validate_raw_field-IsSafe trailers name value h =
    let (first, behind) = and_also_inv (refuse_if _ _) _ h in
    let (second, third) = and_also_inv (refuse_if _ _) (refuse_if _ _) behind in
    let (controls, edges) = or_inv (some_byte is_control value) _ (refuse_if_inv _ _ first) in
    record {
      no_control = no_control_lem value controls;
      no_edge = or_inv (starts_blank value) (ends_blank value) edges;
      named = name_lem (is_pseudo name) (is_token name) (refuse_if_inv _ _ second);
      measured = λ e.
          length_lem (text_eq name content_length) (is_digits value) trailers
            (refuse_if_inv _ _ third)
            (subst (λ t. text_eq t content_length ≡ true) (sym e) (text_eq_refl content_length));
    }

-- Of fields that `_validate_raw_fields` accepts, no value has a NUL, a line feed or a carriage return,
-- nor a blank at an end; every name that does not begin with a colon is a token; and a Content-Length
-- is of digits, at least one, and not among trailers.
pub validate_raw_fields-IsSafe :
    (trailers : Bool) (headers : Fields)
    → validate_raw_fields trailers headers ≡ ok tt
    → All (IsSafe trailers) headers
unfolding validate_raw_fields
validate_raw_fields-IsSafe trailers [] h = tt
validate_raw_fields-IsSafe trailers ((name, value) ∷ headers) h =
    let (here, others) =
      and_also_inv (validate_raw_field trailers name value) (validate_raw_fields trailers headers)
        h in
    (
      validate_raw_field-IsSafe trailers name value here,
      validate_raw_fields-IsSafe trailers headers others,
    )

same_number : (first value : Bytes) → differs first value ≡ false → decimal value ≡ decimal first
same_number first value h = elim (Bool-cases (text_eq (strip_zeros value) (strip_zeros first))) [
  | inl e ↦
      sym (decimal-strip_zeros value)
      ∙ ap decimal (text_eq_sound (strip_zeros value) (strip_zeros first) e)
      ∙ decimal-strip_zeros first
  | inr e ↦ cc (rw e at h)
]

same_numbers :
    (first : Bytes) (values : List Bytes)
    → some_differs first values ≡ false
    → All (λ v. decimal v ≡ decimal first) values
unfolding some_differs
same_numbers first [] h = tt
same_numbers first (v ∷ values) h =
    let (here, others) = or_inv (differs first v) (some_differs first values) h in
    (same_number first v here, same_numbers first values others)

no_conflict :
    (first : Bytes) (values : List Bytes)
    → lengths_conflict (first ∷ values) ≡ false
    → All (λ v. decimal v ≡ decimal first) values
unfolding lengths_conflict
no_conflict first values h = (same_numbers first (first ∷ values) h).1

-- Values that denote one number, as many as there are.
abbrev pub OneNumber : List Bytes → Type 0
OneNumber [] = Unit
OneNumber (first ∷ others) = All (λ v. decimal v ≡ decimal first) others

agreed : (values : List Bytes) → lengths_conflict values ≡ false → OneNumber values
agreed [] h = tt
agreed (first ∷ others) h = no_conflict first others h

not-false : (b : Bool) → not b ≡ false → b ≡ true
not-false true h = refl
not-false false h = cc

only_trailers :
    (members : List Text)
    → some_not_trailers members ≡ false
    → All (λ m. lower m ≡ codes "trailers") members
unfolding some_not_trailers
only_trailers [] h = tt
only_trailers (m ∷ ms) h =
    let (here, others) = or_inv (not (text_eq (lower m) (codes "trailers"))) _ h in
    (text_eq_sound _ _ (not-false _ here), only_trailers ms others)

te_members :
    (r : Result ListError (List Text))
    → validate_te r ≡ ok tt
    → (members : List Text) × (r ≡ ok members) × All (λ m. lower m ≡ codes "trailers") members
te_members (ok ms) h = (ms, refl, only_trailers ms (refuse_if_inv _ _ h))
te_members (err e) h = cc

-- Of fields that `_validate_field_lists` accepts, all Content-Length values, if there are any, are the
-- same number; at most one field is Host, whether or not there is a Content-Length; and the TE fields are
-- a list whose members are all "trailers", in any case.
pub validate_field_lists_lem :
    (headers : Fields)
    → validate_field_lists headers ≡ ok tt
    → OneNumber (values_named content_length headers)
      × (length (values_named (codes "host") headers) ≤ 1)
      × ((members : List Text) × (parse_http_list (values_named (codes "te") headers) ≡ ok members)
          × All (λ m. lower m ≡ codes "trailers") members)
unfolding validate_field_lists
validate_field_lists_lem headers h =
    let (lengths, behind) = and_also_inv (refuse_if _ _) _ h in
    let (hosts, te) = and_also_inv (refuse_if _ _) _ behind in
    let agree = refuse_if_inv (lengths_conflict (values_named content_length headers)) _ lengths in
    let one = refuse_if_inv (ltb 1 (length (values_named (codes "host") headers))) _ hosts in
    (agreed (values_named content_length headers) agree, ground (arith, one), te_members _ te)
