-- ===== src/Wire/Reader.antt =====
-- solvetls/wire/reader.py: `ByteReader`, a sequential big-endian reader over a fixed buffer.
pub mod Bounds
pub mod Ends
pub mod Parses
use solvetls.Base.{
  ℕ, zero, suc, ◌+◌, ◌-◌, Bool, true, false, List, [], ◌∷◌, length, take, drop, ltb, ◌==◌,
  if◌then◌else◌, ◌++◌,
}
use solvetls.Exec.{Result, ok, err, Exec, pure, raise, gets, ◌>>=◌}
use solvetls.Wire.Bytes.{Bytes, unpack}

-- The `ValueError`s of the readers and of the decoders that use them. `stuck` is none of Python's:
-- a loop ran out of fuel.
pub data ReadError : Type 0 where
  insufficient_data invalid_length_bytes trailing_bytes trailing_alpn record_size_limit stuck :
      ReadError

pub record ByteReader : Type 0 where
  pub dat : Bytes
  pub pos : ℕ

abbrev pub Read : Type 0 → Type 0
Read A = Exec ByteReader ReadError A

-- ByteReader(data)
unfoldable pub new_reader : Bytes → ByteReader
new_reader xs = record { dat = xs; pos = 0 }

unfoldable pub has_more : ByteReader → Bool
has_more r = ltb r.pos (length r.dat)

-- No caller passes a negative length: each is a literal or was unpacked from unsigned bytes, so the
-- check on `n < 0` is the type's.
unfoldable pub read : ℕ → Read Bytes
read n r =
    if ltb (length r.dat) (r.pos + n)
    then (err insufficient_data, r)
    else (ok (take n (drop r.pos r.dat)), record r { pos = r.pos + n })

unfoldable pub read_remaining : Read Bytes
read_remaining r = read (length r.dat - r.pos) r

unfoldable pub read_uint8 : Read ℕ
read_uint8 = do bs ← read 1; pure (unpack bs)

unfoldable pub read_uint16 : Read ℕ
read_uint16 = do bs ← read 2; pure (unpack bs)

unfoldable pub read_uint24 : Read ℕ
read_uint24 = do bs ← read 3; pure (unpack (0 ∷ bs))

unfoldable pub read_uint32 : Read ℕ
read_uint32 = do bs ← read 4; pure (unpack bs)

unfoldable pub read_length : ℕ → Read ℕ
read_length length_bytes =
    if length_bytes == 1
    then read_uint8
    else if length_bytes == 2
    then read_uint16
    else if length_bytes == 3
    then read_uint24
    else raise invalid_length_bytes

-- A length-prefixed blob.
unfoldable pub read_vector : ℕ → Read Bytes
read_vector length_bytes = do n ← read_length length_bytes; read n

-- `while reader.has_more(): items.append(item())`, on fuel.
unfoldable pub while_more : {A : Type 0} → ℕ → Read A → Read (List A)
while_more zero item = do more ← gets has_more; if more then raise stuck else pure []
while_more (suc fuel) item =
    let rest = while_more fuel item in
    let round = (do x ← item; xs ← rest; pure (x ∷ xs)) in
    do more ← gets has_more; if more then round else pure []

-- A round takes a byte at least, so as many rounds as bytes are enough.
unfoldable pub read_all : {A : Type 0} → Read A → Read (List A)
read_all item r = while_more (length r.dat) item r

-- Tests run the reader by unfolding this name.
unfoldable pub reader_code : Unit {0}
unfolding ◌>>=◌ unpack new_reader has_more read read_remaining read_uint8 read_uint16 read_uint24
    read_uint32 read_length read_vector while_more read_all
reader_code = tt
