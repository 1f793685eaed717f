-- ===== src/Tests/Records.antt =====
-- A run of the reader of TLS records, over bytes that are all there.
use solvetls.Base.{
  ℕ, ◌≡◌, arith, [], ◌∷◌, length, length-take, take, drop, ltb, ltb_false→le, Bool-cases, inl, inr,
  if◌then◌else◌,
}
use solvetls.Exec.{ok, err, Exec}
use solvetls.Wire.Bytes.{Bytes}
use solvetls.Connection.{HelloError, connection_error, read_client_hello}
use solvetls.Connection.Hello.{Post, IsHello, read_client_hello-IsHello}

abbrev read_list : ℕ → Exec Bytes HelloError Bytes
read_list n xs =
    if ltb (length xs) n
    then (err (connection_error "Incomplete handshake data"), xs)
    else (ok (take n xs), drop n xs)

abbrev no_alert : ℕ → Exec Bytes HelloError (Unit {0})
no_alert n xs = (ok tt, xs)

read_list-exact : (n : ℕ) (xs : Bytes) → Post (λ ys. length ys ≡ n) (read_list n xs).0
read_list-exact n xs = elim (Bool-cases (ltb (length xs) n)) [
  | inl short ↦ rw short tt
  | inr long ↦ rw long (omega (arith, length-take n xs, ltb_false→le (length xs) n long))
]

-- A record of a handshake with the first two bytes of a body.
read_client_hello-IsHello_example :
    Post
      (IsHello read_list no_alert read_list-exact (λ n s. tt))
      (read_client_hello read_list no_alert (0x16 ∷ 3 ∷ 3 ∷ 0 ∷ 6 ∷ 1 ∷ 0 ∷ 0 ∷ 2 ∷ 3 ∷ 3 ∷ [])).0
read_client_hello-IsHello_example =
    read_client_hello-IsHello read_list no_alert read_list-exact (λ n s. tt)
      (0x16 ∷ 3 ∷ 3 ∷ 0 ∷ 6 ∷ 1 ∷ 0 ∷ 0 ∷ 2 ∷ 3 ∷ 3 ∷ [])
