-- ===== src/Connection.antt =====
-- solvetls/connection.py: `_read_client_hello`. The stream and the alerts that are written to it are
-- parameters; the rest of the connection is not modelled.
pub mod Hello
use solvetls.Base.{
  ℕ, zero, suc, ◌+◌, Bool, true, false, not, ◌&&◌, ◌||◌, List, [], ◌∷◌, ◌++◌, length, take, drop,
  Option, none, some, String, ltb, leb, ◌==◌, if◌then◌else◌,
}
use solvetls.Exec.{Result, ok, err, Exec, pure, raise, ◌>>=◌, ◌>>◌}
use solvetls.Wire.Bytes.{Bytes, unpack}
use solvetls.Wire.Reader.{ReadError}
use solvetls.Tls.ClientHello.{ClientHello, parse_client_hello}

abbrev pub tls_alert_content_type : ℕ
tls_alert_content_type = 0x15

abbrev pub tls_handshake_content_type : ℕ
tls_handshake_content_type = 0x16

abbrev pub tls_client_hello_type : ℕ
tls_client_hello_type = 1

abbrev pub max_tls_record_size : ℕ
max_tls_record_size = 16384

abbrev pub max_client_hello_size : ℕ
max_client_hello_size = 65536

-- An SSLError, and an exception of the stream. `stuck` is none of Python's: a loop ran out of fuel.
pub data HelloError : Type 0 where
  ssl_error : String → HelloError
  connection_error : String → HelloError
  stuck : HelloError

-- The local variables of the loop.
pub record Handshake : Type 0 where
  pub raw : Bytes
  pub message : Bytes
  pub message_length : Option ℕ

abbrev pub reaches : Option ℕ → ℕ → Bool
reaches none size = false
reaches (some n) size = leb (n + 4) size

-- Whether the loop is over.
abbrev pub is_complete : Handshake → Bool
is_complete h = reaches h.message_length (length h.message)

abbrev pub add_payload : Bytes → Bytes → Handshake → Handshake
add_payload header payload h = record {
  raw = h.raw ++ (header ++ payload);
  message = h.message ++ payload;
  message_length = h.message_length;
}

abbrev pub size_of : Option ℕ → ℕ
size_of none = 0
size_of (some n) = n

unfoldable pub body_of : Handshake → Bytes
body_of h = take (size_of h.message_length) (drop 4 h.message)

abbrev pub start : Handshake
start = record { raw = []; message = []; message_length = none }

-- `_read_exactly` and `_send_plaintext_alert`, on states of type `S`.
module _ {S : Type 0} (read_exactly : ℕ → Exec S HelloError Bytes)
    (send_alert : ℕ → Exec S HelloError (Unit {0})) where
  -- The alert, if the test holds, and the SSLError.
  unfoldable pub refuse : {A : Type 0} → Bool → ℕ → String → Exec S HelloError A
  refuse alerts alert message =
      (if alerts then send_alert alert else pure tt) >> raise (ssl_error message)

  unfoldable pub check_type : ℕ → Exec S HelloError (Unit {0})
  check_type content_type =
      if content_type == tls_handshake_content_type
      then pure tt
      else refuse (not (content_type == tls_alert_content_type)) 10 "Invalid SSL handshake"

  unfoldable pub check_length : ℕ → Exec S HelloError (Unit {0})
  check_length n =
      if ltb 0 n && leb n max_tls_record_size
      then pure tt
      else refuse (ltb max_tls_record_size n) 22 "Invalid handshake record length"

  -- The type and the length of the message, once its header is there.
  unfoldable pub measure_first : Handshake → Exec S HelloError Handshake
  measure_first h =
      let n = unpack (take 3 (drop 1 h.message)) in
      if not (unpack (take 1 h.message) == tls_client_hello_type)
      then refuse true 10 "Not Client Hello"
      else if ltb max_client_hello_size n
      then raise (ssl_error "Client Hello too large")
      else pure (record h { message_length = some n })

  abbrev pub measure_if : Option ℕ → Handshake → Exec S HelloError Handshake
  measure_if none h = if leb 4 (length h.message) then measure_first h else pure h
  measure_if (some n) h = pure h

  -- The body of the loop.
  unfoldable pub next_record : Handshake → Exec S HelloError Handshake
  next_record h = do
    header ← read_exactly 5
    check_type (unpack (take 1 header))
    check_length (unpack (take 2 (drop 3 header)))
    payload ← read_exactly (unpack (take 2 (drop 3 header)))
    measure_if h.message_length (add_payload header payload h)

  -- The `while` loop, on fuel.
  unfoldable pub read_records : ℕ → Handshake → Exec S HelloError Handshake
  read_records zero h = raise stuck
  read_records (suc fuel) h =
      let rest = read_records fuel in if is_complete h then pure h else next_record h >>= rest

  abbrev pub answer : Bytes → Result ReadError ClientHello → Exec S HelloError (ClientHello × Bytes)
  answer raw (ok hello) = pure (hello, raw)
  answer raw (err e) = refuse true 50 "Malformed ClientHello"

  -- Each record has a byte at least, and the message at most 65540 bytes when it goes on.
  unfoldable pub read_client_hello : Exec S HelloError (ClientHello × Bytes)
  read_client_hello =
      read_records 65542 start >>= λ h. answer h.raw (parse_client_hello (body_of h))
