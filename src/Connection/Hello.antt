-- ===== src/Connection/Hello.antt =====
-- The end of the loop that reads a ClientHello, and what it returns.
use solvetls.Base.{
  ℕ, zero, suc, ◌+◌, ◌≤◌, ◌<◌, ◌≡◌, refl, sym, subst, arith, Bool, true, false, ◌&&◌, length,
  length-append, length-take, take, drop, String, Option, none, some, ltb, leb, ltb_false→le, ◌==◌,
  if◌then◌else◌, Bool-cases, inl, inr,
}
use solvetls.Exec.{Result, ok, err, Exec, pure, raise, ◌>>=◌, ◌>>◌}
use solvetls.Exec.Run.{bind_at}
use solvetls.Wire.Bytes.{Bytes, unpack}
use solvetls.Wire.Reader.{ReadError}
use solvetls.Tls.ClientHello.{ClientHello, parse_client_hello}
use solvetls.Connection.{
  HelloError, ssl_error, connection_error, stuck, Handshake, reaches, is_complete, add_payload,
  refuse, check_type, check_length, measure_first, measure_if, next_record, read_records, size_of,
  body_of, answer, start, read_client_hello, max_client_hello_size, tls_client_hello_type,
  max_tls_record_size, tls_handshake_content_type,
}

abbrev pub IsPython : HelloError → Type 0
IsPython (ssl_error m) = Unit
IsPython (connection_error m) = Unit
IsPython stuck = ⊥

-- What is known of a result, and that an error is one of Python's.
abbrev pub Post : {A : Type 0} → (A → Type 0) → Result HelloError A → Type 0
Post P (ok a) = P a
Post P (err e) = IsPython e

-- A message without a length has no header yet; a length is at most that of a ClientHello.
abbrev pub IsMeasured : Option ℕ → ℕ → Type 0
IsMeasured none size = size < 4
IsMeasured (some n) size = n ≤ max_client_hello_size

-- A message that the loop goes on with is short.
incomplete_lt :
    (o : Option ℕ) (size : ℕ) → IsMeasured o size → reaches o size ≡ false → size < 65540
incomplete_lt none size m h = omega (arith, m)
incomplete_lt (some n) size m h = ground (arith, m, h)

size_small : (o : Option ℕ) (size : ℕ) → IsMeasured o size → size_of o ≤ max_client_hello_size
size_small none size m = omega arith
size_small (some n) size m = m

module _ {S : Type 0} (read_exactly : ℕ → Exec S HelloError Bytes)
    (send_alert : ℕ → Exec S HelloError (Unit {0}))
    (exact : (n : ℕ) (s : S) → Post (λ xs. length xs ≡ n) (read_exactly n s).0)
    (sends : (n : ℕ) (s : S) → Post (λ u. Unit) (send_alert n s).0) where
  bind_Post :
      {A B : Type 0} (P : A → Type 0) (Q : B → Type 0) (m : Exec S HelloError A)
      (f : A → Exec S HelloError B) (s : S)
      → Post P (m s).0
      → ((a : A) (t : S) → P a → Post Q (f a t).0)
      → Post Q ((m >>= f) s).0
  bind_Post {A} P Q m f s h k =
      bind_at (λ x. Post Q x.0) m f s
        (λ e t p. subst (λ (x : Result HelloError A × S). Post P x.0) p h)
        (λ a t p. k a t (subst (λ (x : Result HelloError A × S). Post P x.0) p h))

  then_Post :
      {A B : Type 0} (P : A → Type 0) (Q : B → Type 0) (m : Exec S HelloError A)
      (n : Exec S HelloError B) (s : S)
      → Post P (m s).0
      → ((a : A) (t : S) → P a → Post Q (n t).0)
      → Post Q ((m >> n) s).0
  unfolding ◌>>◌
  then_Post P Q m n s h k = bind_Post P Q m (λ _. n) s h k

  refuse_Post :
      {A : Type 0} (P : A → Type 0) (b : Bool) (n : ℕ) (m : String) (s : S)
      → Post P (refuse read_exactly send_alert b n m s).0
  unfolding refuse
  refuse_Post P true n m s =
      then_Post (λ u. Unit) P (send_alert n) (raise (ssl_error m)) s (sends n s) (λ u t p. tt)
  refuse_Post P false n m s =
      then_Post (λ u. Unit) P (pure tt) (raise (ssl_error m)) s tt (λ u t p. tt)

  check_type_Post : (n : ℕ) (s : S) → Post (λ u. Unit) (check_type read_exactly send_alert n s).0
  unfolding check_type
  check_type_Post n s = elim (Bool-cases (n == tls_handshake_content_type)) [
    | inl same ↦ rw same tt
    | inr other ↦ rw other (refuse_Post (λ u. Unit) _ _ _ s)
  ]

  check_length_Post :
      (n : ℕ) (s : S) → Post (λ u. 0 < n) (check_length read_exactly send_alert n s).0
  unfolding check_length
  check_length_Post n s = elim (Bool-cases (ltb 0 n && leb n max_tls_record_size)) [
    | inl fits ↦ rw fits (ground (arith, fits))
    | inr bad ↦ rw bad (refuse_Post (λ u. 0 < n) _ _ _ s)
  ]

  -- A record is measured, and its message is as long as before.
  abbrev Measured : ℕ → Handshake → Type 0
  Measured size h = IsMeasured h.message_length (length h.message) × (size ≡ length h.message)

  measure_first_Post :
      (h : Handshake) (s : S)
      → Post (Measured (length h.message)) (measure_first read_exactly send_alert h s).0
  unfolding measure_first
  measure_first_Post h s = elim (Bool-cases (unpack (take 1 h.message) == tls_client_hello_type)) [
    | inr other ↦ rw other (refuse_Post (Measured (length h.message)) _ _ _ s)
    | inl hello ↦
        elim (Bool-cases (ltb max_client_hello_size (unpack (take 3 (drop 1 h.message))))) [
          | inl large ↦ rw (hello, large) tt
          | inr small ↦
              rw (hello, small)
                (
                  ltb_false→le max_client_hello_size (unpack (take 3 (drop 1 h.message))) small,
                  refl,
                )
        ]
  ]

  measure_if_Post :
      (o : Option ℕ) (h : Handshake) (s : S)
      → h.message_length ≡ o
      → ((n : ℕ) → o ≡ some n → n ≤ max_client_hello_size)
      → Post (Measured (length h.message)) (measure_if read_exactly send_alert o h s).0
  measure_if_Post none h s e k = elim (Bool-cases (leb 4 (length h.message))) [
    | inl there ↦ rw there (measure_first_Post h s)
    | inr short ↦
        rw short
          (subst (λ o. IsMeasured o (length h.message)) (sym e) (ground (arith, short)), refl)
  ]
  measure_if_Post (some n) h s e k =
      (subst (λ o. IsMeasured o (length h.message)) (sym e) (k n refl), refl)

  bounded : (o : Option ℕ) (size n : ℕ) → IsMeasured o size → o ≡ some n → n ≤ max_client_hello_size
  bounded none size n m e = cc
  bounded (some k) size n m e = let e' : k ≡ n = cc e in omega (arith, m, e')

  -- A record makes the message longer.
  abbrev Longer : Handshake → Handshake → Type 0
  Longer h g =
      IsMeasured g.message_length (length g.message) × (length h.message < length g.message)

  Longer-Post :
      (h g : Handshake) (r : Result HelloError Handshake)
      → length h.message < length g.message
      → Post (Measured (length g.message)) r
      → Post (Longer h) r
  Longer-Post h g (ok a) more (m, same) = (m, omega (arith, more, same))
  Longer-Post h g (err e) more p = p

  next_record_Post :
      (h : Handshake) (s : S)
      → IsMeasured h.message_length (length h.message)
      → Post (Longer h) (next_record read_exactly send_alert h s).0
  unfolding next_record
  next_record_Post h s m =
      bind_Post (λ xs. length xs ≡ 5) (Longer h) (read_exactly 5) _ s (exact 5 s)
        (λ header t _.
          then_Post (λ u. Unit) (Longer h)
            (check_type read_exactly send_alert (unpack (take 1 header))) _ t
            (check_type_Post (unpack (take 1 header)) t)
            (λ u v _.
              let n = unpack (take 2 (drop 3 header)) in
              then_Post (λ w. 0 < n) (Longer h) (check_length read_exactly send_alert n) _ v
                (check_length_Post n v)
                (λ w x positive.
                  bind_Post (λ xs. length xs ≡ n) (Longer h) (read_exactly n) _ x (exact n x)
                    (λ payload y size.
                      Longer-Post h (add_payload header payload h) _
                        (omega (arith, length-append h.message payload, size, positive))
                        (measure_if_Post h.message_length (add_payload header payload h) y refl
                          (λ k e. bounded h.message_length (length h.message) k m e))))))

  -- The loop is over, with a message of the length that it declared.
  abbrev Complete : Handshake → Type 0
  Complete h = IsMeasured h.message_length (length h.message) × (is_complete h ≡ true)

  records_round :
      (fuel : ℕ) (h : Handshake) (s : S) (b : Bool)
      → is_complete h ≡ b
      → IsMeasured h.message_length (length h.message)
      → 65541 < length h.message + suc fuel
      → ((g : Handshake) (t : S)
          → IsMeasured g.message_length (length g.message)
          → (0 < fuel) × (65541 < length g.message + fuel)
          → Post Complete (read_records read_exactly send_alert fuel g t).0)
      → Post Complete
          ((if b
              then pure h
              else next_record read_exactly send_alert h
                >>= read_records read_exactly send_alert fuel)
            s).0
  records_round fuel h s true done m le k = (m, done)
  records_round fuel h s false open_end m le k =
      let small = incomplete_lt h.message_length (length h.message) m open_end in
      bind_Post (Longer h) Complete (next_record read_exactly send_alert h) _ s
        (next_record_Post h s m)
        (λ g t (n, more). k g t n (omega (arith, le, small), omega (arith, le, more)))

  read_records_Post :
      (fuel : ℕ) (h : Handshake) (s : S)
      → IsMeasured h.message_length (length h.message)
      → (0 < fuel) × (65541 < length h.message + fuel)
      → Post Complete (read_records read_exactly send_alert fuel h s).0
  unfolding read_records
  read_records_Post zero h s m (le, _) = absurd (omega (arith, le))
  read_records_Post (suc fuel) h s m (_, le) =
      records_round fuel h s (is_complete h) refl m le (read_records_Post fuel)

  -- What is returned is the ClientHello of a complete message.
  abbrev pub IsHello : ClientHello × Bytes → Type 0
  IsHello (hello, raw) =
      (body : Bytes) × (length body ≤ max_client_hello_size) × (parse_client_hello body ≡ ok hello)

  answer_Post :
      (raw body : Bytes) (r : Result ReadError ClientHello) (s : S)
      → length body ≤ max_client_hello_size
      → parse_client_hello body ≡ r
      → Post IsHello (answer read_exactly send_alert raw r s).0
  answer_Post raw body (ok hello) s small e = (body, small, e)
  answer_Post raw body (err x) s small e = refuse_Post IsHello true 50 "Malformed ClientHello" s

  body_small :
      (h : Handshake)
      → IsMeasured h.message_length (length h.message)
      → length (body_of h) ≤ max_client_hello_size
  unfolding body_of
  body_small h m = omega (
    arith,
    length-take (size_of h.message_length) (drop 4 h.message),
    size_small h.message_length (length h.message) m,
  )

  -- Where reading n bytes gives n bytes or an exception of Python, and alerts raise no others, reading a
  -- ClientHello comes to its end, however long the records are; and what it returns is the answer of the
  -- parser on a body of at most 65536 bytes.
  pub read_client_hello-IsHello :
      (s : S) → Post IsHello (read_client_hello read_exactly send_alert s).0
  unfolding read_client_hello
  read_client_hello-IsHello s =
      bind_Post Complete IsHello (read_records read_exactly send_alert 65542 start) _ s
        (read_records_Post 65542 _ s (omega arith) (omega arith, omega arith))
        (λ h t (m, done). answer_Post h.raw (body_of h) _ t (body_small h m) refl)
