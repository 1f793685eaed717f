-- ===== src/Tcpip/Layout.antt =====
-- `parse_syn` against the layout of an IPv4 packet with a TCP header (RFC 791, 3.1; RFC 9293, 3.1).
use solvetls.Base.{
  ℕ, ◌+◌, ◌*◌, ◌-◌, ◌/◌, ◌%◌, ◌^◌, ◌≤◌, ◌<◌, ◌≡◌, ap, arith, ◌++◌, length, some, true, bit_and,
  ◌==◌,
}
use solvetls.Base.Bits.{bit_and_nibble}
use solvetls.Wire.Bytes.{Bytes, pack}
use solvetls.Wire.Reader.{new_reader}
use solvetls.Wire.Reader.Parses.{
  Parses, read-Parses, pure-Parses, bind-Parses, map-Parses, then-Parses, map_then-Parses, Rest-new,
  read_uint8-Parses, read_uint16-Parses, read_uint32-Parses,
}
use solvetls.Tcpip.{
  IpHeader, TcpHeader, Syn, parse_ipv4, parse_tcp, parse_ip, parse_after_ip, parse_packet,
  parse_syn, or_none,
}

-- Every field of the two headers, those that the code skips too.
pub record Packet : Type 0 where
  pub words : ℕ
  pub service : ℕ
  pub total : ℕ
  pub id : ℕ
  pub fragment : ℕ
  pub ttl : ℕ
  pub protocol : ℕ
  pub ip_checksum : ℕ
  pub src : Bytes
  pub dst : Bytes
  pub options : Bytes
  pub src_port : ℕ
  pub dst_port : ℕ
  pub seq : ℕ
  pub ack : ℕ
  pub offset : ℕ
  pub flags : ℕ
  pub window : ℕ
  pub tcp_checksum : ℕ
  pub urgent : ℕ

pub record Fits (p : Packet) : Type 0 where
  pub words_fit : (5 ≤ p.words) × (p.words < 16)
  pub options_fit : length p.options ≡ p.words * 4 - 20
  pub service_fits : p.service < 256
  pub total_fits : p.total < 65536
  pub id_fits : p.id < 65536
  pub fragment_fits : p.fragment < 65536
  pub ttl_fits : p.ttl < 256
  pub protocol_fits : p.protocol < 256
  pub ip_checksum_fits : p.ip_checksum < 65536
  pub src_fits : length p.src ≡ 4
  pub dst_fits : length p.dst ≡ 4
  pub src_port_fits : p.src_port < 65536
  pub dst_port_fits : p.dst_port < 65536
  pub seq_fits : p.seq < 4294967296
  pub ack_fits : p.ack < 4294967296
  pub offset_fits : p.offset < 256
  pub flags_fit : p.flags < 256
  pub window_fits : p.window < 65536
  pub tcp_checksum_fits : p.tcp_checksum < 65536
  pub urgent_fits : p.urgent < 65536

abbrev first_byte : Packet → ℕ
first_byte p = 64 + p.words

unfoldable pub ip_wire : Packet → Bytes
ip_wire p =
    pack 1 (first_byte p)
    ++ (pack 1 p.service
        ++ (pack 2 p.total
            ++ (pack 2 p.id
                ++ (pack 2 p.fragment
                    ++ (pack 1 p.ttl
                        ++ (pack 1 p.protocol
                            ++ (pack 2 p.ip_checksum ++ (p.src ++ (p.dst ++ p.options)))))))))

unfoldable pub tcp_wire : Packet → Bytes
tcp_wire p =
    pack 2 p.src_port
    ++ (pack 2 p.dst_port
        ++ (pack 4 p.seq
            ++ (pack 4 p.ack
                ++ (pack 1 p.offset
                    ++ (pack 1 p.flags
                        ++ (pack 2 p.window ++ (pack 2 p.tcp_checksum ++ pack 2 p.urgent)))))))

abbrev pub ip_of : Packet → IpHeader
ip_of p = record { id = some p.id; ttl = p.ttl; ip_version = 4; dst_ip = p.dst; src_ip = p.src }

abbrev tcp_of : Packet → TcpHeader
tcp_of p = record { ack = p.ack; checksum = p.tcp_checksum; seq = p.seq; window = p.window }

parse_ipv4-Parses : (p : Packet) → Fits p → Parses parse_ipv4 (ip_wire p) (ip_of p)
unfolding parse_ipv4 ip_wire
parse_ipv4-Parses p f =
    let size : bit_and (first_byte p) 0x0F * 4 - 20 ≡ length p.options =
      omega (arith, bit_and_nibble (first_byte p), f.options_fit) in
    bind-Parses _ (read_uint8-Parses (first_byte p) (omega arith)) (
      then-Parses (read_uint8-Parses p.service f.service_fits) (
        then-Parses (read_uint16-Parses p.total f.total_fits) (
          bind-Parses _ (read_uint16-Parses p.id f.id_fits) (
            then-Parses (read_uint16-Parses p.fragment f.fragment_fits) (
              bind-Parses _ (read_uint8-Parses p.ttl f.ttl_fits) (
                then-Parses (read_uint8-Parses p.protocol f.protocol_fits) (
                  then-Parses (read_uint16-Parses p.ip_checksum f.ip_checksum_fits) (
                    bind-Parses _ (rw f.src_fits at (read-Parses p.src)) (
                      bind-Parses _ (rw f.dst_fits at (read-Parses p.dst)) (
                        map_then-Parses (rw (← size) at (read-Parses p.options))
                          (pure-Parses (ip_of p))))))))))))

parse_tcp-Parses :
    (p : Packet)
    → Fits p
    → Parses parse_tcp
        (tcp_wire p)
        (record { src_port = p.src_port; dst_port = p.dst_port; rest = tcp_of p })
unfolding parse_tcp tcp_wire
parse_tcp-Parses p f = bind-Parses _ (read_uint16-Parses p.src_port f.src_port_fits) (
    bind-Parses _ (read_uint16-Parses p.dst_port f.dst_port_fits) (
      bind-Parses _ (read_uint32-Parses p.seq f.seq_fits) (
        bind-Parses _ (read_uint32-Parses p.ack f.ack_fits) (
          then-Parses (read_uint8-Parses p.offset f.offset_fits) (
            then-Parses (read_uint8-Parses p.flags f.flags_fit) (
              bind-Parses _ (read_uint16-Parses p.window f.window_fits) (
                bind-Parses _ (read_uint16-Parses p.tcp_checksum f.tcp_checksum_fits) (
                  map_then-Parses (read_uint16-Parses p.urgent f.urgent_fits)
                    (pure-Parses _)))))))))

abbrev pub syn_of : Packet → ℕ → Syn
syn_of p n = record {
  cap_length = n;
  dst_port = p.dst_port;
  src_port = p.src_port;
  ip = ip_of p;
  tcp = tcp_of p;
}

parse_ip-Parses :
    (p : Packet) (b : ℕ)
    → Fits p
    → b / 2 ^ 4 ≡ 4
    → Parses (parse_ip (b / 2 ^ 4)) (ip_wire p) (some (ip_of p))
unfolding parse_ip
parse_ip-Parses p b f v =
    let four : (b / 2 ^ 4 == 4) ≡ true = rw v in
    rw four (map-Parses _ (parse_ipv4-Parses p f) (pure-Parses (some (ip_of p))))

parse_packet-Parses :
    (p : Packet) (xs : Bytes) (b : ℕ)
    → Fits p
    → b / 2 ^ 4 ≡ 4
    → Parses (parse_packet xs b) (ip_wire p ++ tcp_wire p) (some (syn_of p (length xs)))
unfolding parse_packet parse_after_ip
parse_packet-Parses p xs b f v =
    bind-Parses (parse_after_ip xs) (parse_ip-Parses p b f v)
      (map-Parses _ (parse_tcp-Parses p f) (pure-Parses _))

-- Of a saved SYN over IPv4 whose fields fit their places, `parse_syn` reports the identification, the
-- time to live, the addresses, the ports and the TCP numbers of the packet, past any IP options, and
-- the length of all that was saved, whatever follows the fixed TCP header.
pub parse_syn-ipv4 :
    (p : Packet) (rest : Bytes)
    → Fits p
    → parse_syn (some ((ip_wire p ++ tcp_wire p) ++ rest))
      ≡ some (syn_of p (length ((ip_wire p ++ tcp_wire p) ++ rest)))
unfolding parse_syn ip_wire pack
parse_syn-ipv4 p rest f =
    let xs = (ip_wire p ++ tcp_wire p) ++ rest in
    ap (λ x. or_none x.0)
      ((parse_packet-Parses p xs (first_byte p % 256) f (omega (arith, f.words_fit))).at
        (new_reader xs) rest (Rest-new xs))
