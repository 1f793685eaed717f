-- ===== src/Tls/ClientHello.antt =====
-- solvetls/tls/clienthello.py: the fields of a ClientHello, in wire order.
pub mod RoundTrip
pub mod Ends
use solvetls.Base.{ℕ, List, [], if◌then◌else◌}
use solvetls.Exec.{Result, pure, gets, ◌>>=◌, on_new}
use solvetls.Wire.Bytes.{Bytes}
use solvetls.Wire.Reader.{
  ReadError, Read, new_reader, has_more, read, read_uint16, read_vector, read_all,
}

pub record Extension : Type 0 where
  pub type : ℕ
  pub payload : Bytes

pub record ClientHello : Type 0 where
  pub version : ℕ
  pub random : Bytes
  pub session_id : Bytes
  pub cipher_suites : List ℕ
  pub compression_methods : List ℕ
  pub extensions : List Extension

-- One round of the loop over the extensions.
unfoldable pub read_extension : Read Extension
read_extension = do
  ext_type ← read_uint16
  payload ← read_vector 2
  pure (record { type = ext_type; payload = payload })

-- The block of extensions, where any byte is left.
unfoldable pub read_extensions : Read (List Extension)
read_extensions = do
  more ← gets has_more
  if more
      then (do block ← read_vector 2; on_new (new_reader block) (read_all read_extension))
      else pure []

-- `ClientHelloReader.parse`
unfoldable pub parse : Read ClientHello
parse = do
  client_version ← read_uint16
  random ← read 32
  session_id ← read_vector 1
  suites ← read_vector 2
  cipher_suites ← on_new (new_reader suites) (read_all read_uint16)
  compression_methods ← read_vector 1
  extensions ← read_extensions
  pure (record {
    version = client_version;
    random = random;
    session_id = session_id;
    cipher_suites = cipher_suites;
    compression_methods = compression_methods;
    extensions = extensions;
  })

-- ClientHelloReader(body).parse()
unfoldable pub parse_client_hello : Bytes → Result ReadError ClientHello
parse_client_hello body = (parse (new_reader body)).0
