-- ===== src/Tls/ClientHello/Ends.antt =====
-- The loops of `ClientHelloReader.parse`.
use solvetls.Base.{◌≢◌}
use solvetls.Exec.{err}
use solvetls.Exec.Steps.{Steps}
use solvetls.Wire.Bytes.{Bytes}
use solvetls.Wire.Reader.{stuck, new_reader, read_uint16, read_all}
use solvetls.Wire.Reader.Bounds.{Forward, forward_rules}
use solvetls.Wire.Reader.Ends.{
  Consumes, Ends, ends_rules, read_uint16-Ends, read_vector-Ends, read_uint16-Consumes,
  bind-Consumes, read_all-Ends,
}
use solvetls.Tls.ClientHello.{read_extension, read_extensions, parse, parse_client_hello}

read_extension-Forward : Steps Forward read_extension
unfolding read_extension
read_extension-Forward = search forward_rules

read_extension-Consumes : Consumes read_extension
unfolding read_extension
read_extension-Consumes =
    bind-Consumes read_uint16 _ read_uint16-Consumes (λ t. search forward_rules)

read_extension-Ends : Ends read_extension
unfolding read_extension
read_extension-Ends = search (ends_rules, read_uint16-Ends, read_vector-Ends)

all_extensions-Ends : Ends (read_all read_extension)
all_extensions-Ends =
    read_all-Ends read_extension read_extension-Forward read_extension-Consumes read_extension-Ends

pub uint16s-Ends : Ends (read_all read_uint16)
uint16s-Ends =
    read_all-Ends read_uint16 (search forward_rules) read_uint16-Consumes read_uint16-Ends

read_extensions-Ends : Ends read_extensions
unfolding read_extensions
read_extensions-Ends = search (ends_rules, read_vector-Ends, all_extensions-Ends) depth 9

parse-Ends : Ends parse
unfolding parse
parse-Ends =
    search (ends_rules, read_uint16-Ends, read_vector-Ends, uint16s-Ends, read_extensions-Ends)
      depth 12

-- On every input, well formed or not, the reader of a ClientHello returns or raises one of its
-- `ValueError`s: none of its loops runs on.
pub parse_client_hello-ne-stuck : (body : Bytes) → parse_client_hello body ≢ err stuck
unfolding parse_client_hello
parse_client_hello-ne-stuck body = parse-Ends.ends (new_reader body)
