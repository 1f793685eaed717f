-- ===== src/Tcpip.antt =====
-- solvetls/tcpip/syn.py: the IP and TCP headers of a saved SYN. The sockets' options, which fetch it,
-- are not modelled.
pub mod Layout
use solvetls.Base.{
  ℕ, ◌*◌, ◌/◌, ◌-◌, ◌^◌, Option, none, some, List, [], ◌∷◌, length, bit_and, ◌==◌, if◌then◌else◌,
}
use solvetls.Exec.{Result, ok, err, Exec, pure, raise, ◌>>=◌, ◌>>◌}
use solvetls.Wire.Bytes.{Bytes}
use solvetls.Wire.Reader.{
  ReadError, ByteReader, Read, new_reader, read, read_uint8, read_uint16, read_uint32,
}

abbrev pub ipv4_header_size : ℕ
ipv4_header_size = 20

abbrev pub ipproto_tcp : ℕ
ipproto_tcp = 6

-- The dict of an IP header. An address stays the bytes that `socket.inet_ntop` prints.
pub record IpHeader : Type 0 where
  pub id : Option ℕ
  pub ttl : ℕ
  pub ip_version : ℕ
  pub dst_ip : Bytes
  pub src_ip : Bytes

-- What is left of the TCP header when its ports have been popped.
pub record TcpHeader : Type 0 where
  pub ack : ℕ
  pub checksum : ℕ
  pub seq : ℕ
  pub window : ℕ

-- The dict of `_parse_tcp`.
pub record TcpFields : Type 0 where
  pub src_port : ℕ
  pub dst_port : ℕ
  pub rest : TcpHeader

pub record Syn : Type 0 where
  pub cap_length : ℕ
  pub dst_port : ℕ
  pub src_port : ℕ
  pub ip : IpHeader
  pub tcp : TcpHeader

-- `max(header_length - IPV4_HEADER_SIZE, 0)` is the truncated difference.
unfoldable pub parse_ipv4 : Read IpHeader
parse_ipv4 = do
  first ← read_uint8
  read_uint8
  read_uint16
  identification ← read_uint16
  read_uint16
  ttl ← read_uint8
  read_uint8
  read_uint16
  src ← read 4
  dst ← read 4
  read (bit_and first 0x0F * 4 - ipv4_header_size)
  pure (record { id = some identification; ttl = ttl; ip_version = 4; dst_ip = dst; src_ip = src })

unfoldable pub parse_ipv6 : Read (Option IpHeader)
parse_ipv6 = do
  read 4
  read_uint16
  next_header ← read_uint8
  hop_limit ← read_uint8
  src ← read 16
  dst ← read 16
  if next_header == ipproto_tcp
      then pure
          (some (record { id = none; ttl = hop_limit; ip_version = 6; dst_ip = dst; src_ip = src }))
      else pure none

unfoldable pub parse_tcp : Read TcpFields
parse_tcp = do
  src_port ← read_uint16
  dst_port ← read_uint16
  seq ← read_uint32
  ack ← read_uint32
  read_uint8
  read_uint8
  window ← read_uint16
  checksum ← read_uint16
  read_uint16
  pure (record {
    src_port = src_port;
    dst_port = dst_port;
    rest = record { ack = ack; checksum = checksum; seq = seq; window = window };
  })

unfoldable pub parse_ip : ℕ → Read (Option IpHeader)
parse_ip version =
    if version == 4
    then (do ip ← parse_ipv4; pure (some ip))
    else if version == 6
    then parse_ipv6
    else pure none

unfoldable pub parse_after_ip : Bytes → Option IpHeader → Read (Option Syn)
parse_after_ip xs none = pure none
parse_after_ip xs (some ip) = do
  tcp ← parse_tcp
  pure (
      some (record {
        cap_length = length xs;
        dst_port = tcp.dst_port;
        src_port = tcp.src_port;
        ip = ip;
        tcp = tcp.rest;
      }))

-- `_parse` over the reader of `xs`, whose first byte is given.
unfoldable pub parse_packet : Bytes → ℕ → Read (Option Syn)
parse_packet xs first = do ip ← parse_ip (first / 2 ^ 4); parse_after_ip xs ip

-- try: ...  except (ValueError, ...): return None
abbrev pub or_none : {A : Type 0} → Result ReadError (Option A) → Option A
or_none (ok r) = r
or_none (err e) = none

-- `if not data: return None`; a saved SYN that cannot be read is None too.
unfoldable pub parse_syn : Option Bytes → Option Syn
parse_syn none = none
parse_syn (some []) = none
parse_syn (some (b ∷ bs)) = or_none (parse_packet (b ∷ bs) b (new_reader (b ∷ bs))).0
