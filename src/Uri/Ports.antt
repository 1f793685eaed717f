-- ===== src/Uri/Ports.antt =====
-- The ports of authorities in solvetls/uri.py: their range, and the ports that schemes imply.
use solvetls.Base.{
  ℕ, zero, ◌+◌, ◌*◌, ◌-◌, ◌≤◌, ◌<◌, ◌≡◌, ◌≢◌, refl, sym, ap, subst, ◌∙◌, arith, Bool, true, false,
  not, ◌||◌, [], ◌∷◌, ◌++◌, All, length, Option, none, some, ltb, ◌==◌, if◌then◌else◌, Bool-cases,
  inl, inr, lt→ltb, ltb_false→le, le→ltb,
}
use solvetls.Base.Chars.{
  is_digit, all_bytes, IsDigit, decimal_from, decimal, strip_zeros, or_zero, decimal-strip_zeros,
  decimal-or_zero, decimal_from_grows, significant_head,
}
use solvetls.Base.Sort.{Text}
use solvetls.Exec.{Result, ok, err}
use solvetls.HttpFields.Response.{text_eq, lower}
use solvetls.Uri.{
  UriError, is_name_char, uri_chars, partition, Authority, check_port, check_host_port, answer_host,
  port_out_of_range, split_name, split_authority, then_check, validate_authority,
}
use solvetls.Uri.Normalize.{
  sub_escapes, normalize_host, port_number, default_port, normalize_authority,
}
use native.Mathlib.Nat.{pow-le-pow_right}

All-digits : (port : Text) → all_bytes is_digit port ≡ true → All IsDigit port
unfolding all_bytes
All-digits [] h = tt
All-digits (c ∷ port) h = elim (Bool-cases (is_digit c)) [
  | inl here ↦ ((ground (arith, here), ground (arith, here)), All-digits port (rw here at h))
  | inr other ↦ cc (rw other at h)
]

-- More than five digits that begin with no zero are over the range.
long_port : (d : ℕ) (ds : Text) → b'0' < d → 5 ≤ length ds → 65535 < decimal (d ∷ ds)
unfolding decimal decimal_from
long_port d ds h k =
    let grown =
      decimal_from_grows (length ds) 0 (10 * 0 + (d - b'0')) ds (omega arith) (omega arith) in
    omega (arith, grown, pow-le-pow_right {n = 10} (omega arith) {i = 5} {j = length ds} k)

range_significant :
    (port significant : Text)
    → All IsDigit port
    → strip_zeros port ≡ significant
    → (ltb 5 (length (or_zero significant)) || ltb 65535 (decimal (or_zero significant)))
      ≡ ltb 65535 (decimal (or_zero significant))
range_significant port [] a e = refl
range_significant port (d ∷ ds) a e = elim (Bool-cases (ltb 5 (length (d ∷ ds)))) [
  | inl long ↦ rw (
    long,
    lt→ltb 65535 (decimal (d ∷ ds))
        (long_port d ds (significant_head port d ds a e) (ground (arith, long))),
  )
  | inr short ↦ rw short
]

port_out_of_range_lem :
    (port : Text) → All IsDigit port → port_out_of_range port ≡ ltb 65535 (decimal port)
unfolding port_out_of_range
port_out_of_range_lem port a =
    range_significant port (strip_zeros port) a refl
    ∙ ap (ltb 65535) (decimal-or_zero (strip_zeros port) ∙ decimal-strip_zeros port)

-- The port that is accepted.
pub record IsPort (port : Text) : Type 0 where
  pub digits : All IsDigit port
  pub within : decimal port ≤ 65535

check_port-IsPort : (connect : Bool) (port : Text) → check_port connect port ≡ ok tt → IsPort port
unfolding check_port
check_port-IsPort connect port h = elim (Bool-cases (all_bytes is_digit port)) [
  | inr bad ↦ cc (rw bad at h)
  | inl good ↦ elim (Bool-cases (port_out_of_range port)) [
    | inl over ↦ cc (rw (good, over) at h)
    | inr within ↦
        let a = All-digits port good in
        record {
          digits = a;
          within = ltb_false→le 65535 (decimal port) (sym (port_out_of_range_lem port a) ∙ within);
        }
  ]
]

nonzero_significant :
    (port significant : Text)
    → All IsDigit port
    → strip_zeros port ≡ significant
    → text_eq (or_zero significant) (b'0' ∷ []) ≡ false
    → decimal (or_zero significant) ≢ 0
unfolding decimal decimal_from text_eq
nonzero_significant port [] a e h = cc h
nonzero_significant port (d ∷ ds) a e h = λ z.
    let grown =
      decimal_from_grows (length ds) 0 (10 * 0 + (d - b'0')) ds (omega arith)
        (omega (arith, significant_head port d ds a e)) in
    omega (
      arith,
      grown,
      z,
      pow-le-pow_right {n = 10} (omega arith) {i = 0} {j = length ds} (omega arith),
    )

check_port_nonzero : (port : Text) → check_port true port ≡ ok tt → decimal port ≢ 0
unfolding check_port
check_port_nonzero port h =
    let p = check_port-IsPort true port (unfold check_port in h) in
    elim (Bool-cases (text_eq (or_zero (strip_zeros port)) (b'0' ∷ []))) [
      | inl z ↦ elim (Bool-cases (all_bytes is_digit port)) [
        | inr bad ↦ cc (rw bad at h)
        | inl good ↦ elim (Bool-cases (port_out_of_range port)) [
          | inl over ↦ cc (rw (good, over) at h)
          | inr within ↦ cc (rw (good, within, z) at h)
        ]
      ]
      | inr n ↦ λ z.
          nonzero_significant port (strip_zeros port) p.digits refl n
            (decimal-or_zero (strip_zeros port) ∙ (decimal-strip_zeros port ∙ z))
    ]

-- What `validate_authority` has checked of the host and the port.
pub record IsAccepted (connect : Bool) (a : Authority) : Type 0 where
  pub ports : (port : Text) → a.1 ≡ some port → IsPort port
  pub connects :
      connect ≡ true → (port : Text) × (a.1 ≡ some port) × (a.0 ≢ []) × (decimal port ≢ 0)

answer_host_inv :
    (host h : Text) (r : Result UriError (Unit {0}))
    → answer_host host r ≡ ok h
    → (r ≡ ok tt) × (host ≡ h)
answer_host_inv host h (ok u) e = (refl, cc e)
answer_host_inv host h (err x) e = cc

check_host_port-IsAccepted :
    (connect : Bool) (a : Authority) (host : Text)
    → check_host_port connect a ≡ ok host
    → IsAccepted connect a × (a.0 ≡ host)
check_host_port-IsAccepted true (h, none) host e = cc
check_host_port-IsAccepted false (h, none) host e =
    (record { ports = λ port p. cc; connects = λ p. cc }, cc e)
check_host_port-IsAccepted true ([], some port) host e = cc
check_host_port-IsAccepted true (c ∷ h, some []) host e = cc
check_host_port-IsAccepted true (c ∷ h, some (d ∷ port)) host e =
    let (checked, same) = answer_host_inv (c ∷ h) host (check_port true (d ∷ port)) e in
    (
      record {
        ports = λ p q. subst IsPort (cc q) (check_port-IsPort true (d ∷ port) checked);
        connects = λ _. (d ∷ port, refl, λ q. cc q, check_port_nonzero (d ∷ port) checked);
      },
      same,
    )
check_host_port-IsAccepted false (h, some port) host e =
    let (checked, same) = answer_host_inv h host (check_port false port) e in
    (
      record {
        ports = λ p q. subst IsPort (cc q) (check_port-IsPort false port checked);
        connects = λ q. cc;
      },
      same,
    )

module _ (ipv6 : Text → Option Text) where
  then_check_inv :
      (connect : Bool) (r : Result UriError Authority) (host : Text)
      → then_check ipv6 connect r ≡ ok host
      → (a : Authority) × (r ≡ ok a) × (check_host_port connect a ≡ ok host)
  then_check_inv connect (ok a) host e = (a, refl, e)
  then_check_inv connect (err x) host e = cc

  -- An authority that is accepted splits into the host that is returned and a port, whose characters, if
  -- it is there, are digits and whose number is at most 65535. For CONNECT the port is there and is not
  -- zero, and the host is not empty.
  pub validate_authority-IsAccepted :
      (connect : Bool) (authority host : Text)
      → validate_authority ipv6 connect authority ≡ ok host
      → (a : Authority) × (split_authority ipv6 authority ≡ ok a)
        × (a.0 ≡ host)
        × IsAccepted connect a
  unfolding validate_authority
  validate_authority-IsAccepted connect authority host h =
      let (a, split, checked) = then_check_inv connect (split_authority ipv6 authority) host h in
      let (accepted, same) = check_host_port-IsAccepted connect a host checked in
      (a, split, same, accepted)

digits-All : (port : Text) → All IsDigit port → all_bytes is_digit port ≡ true
unfolding all_bytes
digits-All [] a = refl
digits-All (c ∷ port) (h, a) = ground (arith, h, digits-All port a)

check_port_accepts : (port : Text) → IsPort port → check_port false port ≡ ok tt
unfolding check_port
check_port_accepts port p = rw (
  digits-All port p.digits,
  port_out_of_range_lem port p.digits,
  le→ltb 65535 (decimal port) p.within,
)

-- A registered name: no colon, and no bracket in front.
abbrev pub IsName : Text → Type 0
IsName host = All (λ c. (c ≢ b':') × (c ≢ b'[')) host

partition-colon :
    (host port : Text)
    → IsName host
    → partition b':' (host ++ b':' ∷ port) ≡ record { before = host; found = true; after = port }
unfolding partition
partition-colon [] port a = refl
partition-colon (c ∷ host) port (h, a) = ground (arith, partition-colon host port a)

partition-none :
    (host : Text)
    → IsName host
    → partition b':' host ≡ record { before = host; found = false; after = [] }
unfolding partition
partition-none [] a = refl
partition-none (c ∷ host) (h, a) = ground (arith, partition-none host a)

port_number_lem : (port : Text) → port ≢ [] → port_number port ≡ some (decimal port)
unfolding port_number
port_number_lem [] h = absurd (h refl)
port_number_lem (c ∷ port) h =
    ap some (decimal-or_zero (strip_zeros (c ∷ port)) ∙ decimal-strip_zeros (c ∷ port))

-- The answer of `split_authority` on a name, with or without a port.
abbrev name_answer : Text → Option Text → Result UriError Authority
name_answer host port =
    if not (uri_chars is_name_char zero host) then err UriError.invalid_host else ok (host, port)

module _ (ipv6 : Text → Option Text) where
  split_with_port :
      (host port : Text)
      → IsName host
      → split_authority ipv6 (host ++ b':' ∷ port) ≡ name_answer host (some port)
  unfolding split_authority split_name
  split_with_port [] port a = rw (partition-colon [] port a)
  split_with_port (c ∷ host) port (h, a) =
      let other : (c == b'[') ≡ false = ground (arith, h.1) in
      rw (other, partition-colon (c ∷ host) port (h, a))

  split_without_port :
      (host : Text) → IsName host → split_authority ipv6 host ≡ name_answer host none
  unfolding split_authority split_name
  split_without_port [] a = rw (partition-none [] a)
  split_without_port (c ∷ host) (h, a) =
      let other : (c == b'[') ≡ false = ground (arith, h.1) in
      rw (other, partition-none (c ∷ host) (h, a))

  host_with_port :
      (host port : Text)
      → IsName host
      → normalize_host ipv6 host (host ++ b':' ∷ port) ≡ (sub_escapes (lower host), port)
  unfolding normalize_host
  host_with_port [] port a = rw (partition-colon [] port a)
  host_with_port (c ∷ host) port (h, a) =
      let other : (c == b'[') ≡ false = ground (arith, h.1) in
      rw (other, partition-colon (c ∷ host) port (h, a))

  host_without_port :
      (host : Text) → IsName host → normalize_host ipv6 host host ≡ (sub_escapes (lower host), [])
  unfolding normalize_host
  host_without_port [] a = refl
  host_without_port (c ∷ host) (h, a) =
      let other : (c == b'[') ≡ false = ground (arith, h.1) in
      rw (other, partition-none (c ∷ host) (h, a))

  -- Outside CONNECT, a registered name followed by a colon and the port that the scheme implies, however many zeros the
  -- port begins with, has the same normal form as the name alone; where the name is refused, so it is
  -- with the port.
  pub normalize_authority-default_port :
      (host port scheme : Text)
      → IsName host
      → port ≢ []
      → IsPort port
      → default_port scheme ≡ some (decimal port)
      → normalize_authority ipv6 (host ++ b':' ∷ port) scheme false
        ≡ normalize_authority ipv6 host scheme false
  unfolding normalize_authority validate_authority
  normalize_authority-default_port host port scheme named filled p implied =
      elim (Bool-cases (uri_chars is_name_char zero host)) [
        | inr bad ↦ rw (split_with_port host port named, split_without_port host named, bad)
        | inl good ↦
            rw
              (
                split_with_port host port named,
                split_without_port host named,
                good,
                check_port_accepts port p,
                host_with_port host port named,
                host_without_port host named,
                port_number_lem port filled,
                implied,
              )
              (unfold port_number in refl)
      ]
