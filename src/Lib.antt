-- ===== src/Lib.antt =====
-- solvetls: a server that captures what a client shows of itself, in TCP, TLS and HTTP, and answers
-- with a report of it. This library models the readers of that data, the frames of HTTP/2, and the
-- fingerprints that are computed from them.
--
-- The parts and how they interact. `solvetls/wire/reader.py` is a cursor over a buffer. The ClientHello
-- reader, the decoders of its extensions and the reader of a saved SYN use it; `solvetls/http2/frames.py`
-- has a cursor of its own, which also ends at the payload of the current frame. The session of HTTP/2
-- buffers what it reads, cuts it into frames, collects them in a capture, and gives them to h2 through its
-- adapter; the events that h2 returns make up the one request, whose fields the validation checks. The
-- fingerprints take a ClientHello or such a capture. The parser of HTTP/1 heads and the redirect share the
-- checks on URIs with it.
--
-- Base: lists, bits, texts and sorting that the parts share. A text is a list of character codes.
-- Exec: a method that reads and changes a state and may raise, and what it means for all its runs to
--   relate their states (Steps), to raise certain errors only (Raises), or to be inverted (Run).
-- Wire.Bytes: octets, and `struct.pack` and `struct.unpack` in network order.
-- Wire.Reader: `ByteReader` in solvetls/wire/reader.py. Each `ValueError` is a constructor.
-- Wire.Naming: solvetls/wire/naming.py. Tls.Enums: solvetls/tls/enums.py.
-- Tls.ClientHello: `ClientHelloReader.parse` in solvetls/tls/clienthello.py; the field `data` of an
--   extension is `payload`.
-- Tls.Extensions: solvetls/tls/extensions.py. A decoder is a method of the reader; the dict that it
--   returns is a value of `Decoded`, and the dict with the key `error` is the result `err`.
-- Http2.Frames: solvetls/http2/frames.py. Codes are its constants, Data its dataclasses, Cursor the
--   fields and the methods `_read...` of `HTTP2FrameReader`, Payloads and Settings its methods
--   `_parse_...`, Parse `parse_frame`, and Build `HTTP2FrameBuilder`; Classes
--   say which class a payload has. The field `_payload_end` is `payload_end`, and so on.
-- Http2.Adapter: `bounded_content_length` and what `_ResponseEncoder` does to its size updates, in
--   solvetls/http2/adapter.py; Connection is `H2Adapter`. Http2.Validation: solvetls/http2/validation.py;
--   Request is the target of a request and `validate_fields`.
-- Http2.Library: the operations of h2 that the adapter and the session call, as a parameter.
-- Http2.Session: solvetls/http2/session.py, with `HTTP2Capture` in Http2.Capture. Its state is the fields
--   of `HTTP2Session`, without the underscores; Events is `_process_event`, Process `_process_frame`, Receive
--   `_receive` and the public methods but `close`. Calls are the public methods in any order. Keeps, Ends and
--   Limits have the lemmas on what each method changes, raises and captures. An exception is a value of
--   `SessionError`: that of h2 or the transport, the session's own, or one that Python raises in its code.
-- Http1: solvetls/http1.py; Framing is `_validate_framing`, Request `parse_request`; Inversion and Prefix
--   have the lemmas on checks that return and on what follows a head. Redirect:
--   `redirect_location` and `_read_head` in solvetls/redirect.py.
-- Connection: `_read_client_hello` in solvetls/connection.py.
-- Uri: solvetls/uri.py; Normalize is `normalize_authority` and `split_absolute_uri`.
-- Fingerprints: solvetls/fingerprints.py. Hello is what it reads of a ClientHello; Ja3, Ja4 and Akamai
--   are `build_ja3`, `build_ja4` and `build_akamai_fingerprint`.
-- Tcpip: `parse_syn` in solvetls/tcpip/syn.py. HttpFields: solvetls/http_fields.py.
-- Tests: runs at concrete inputs, and the theorems applied to such.
--
-- Bounds and fuel. Python's integers are natural numbers here, which is faithful because no value in the
-- modelled code is negative, apart from differences that the source compares with zero; those are
-- written out. Octets are numbers; `unpack` takes each modulo 256. A loop over a reader has as fuel the
-- length of its buffer, since each round takes a byte; the loop of ORIGIN frames has the declared length,
-- since each round takes two. The loops of the session have the length of its buffer, the limit on captured
-- bytes, and that limit and the length of the content, each with one more: a frame takes nine bytes, a read
-- counts a byte, a write sends one. The loop over a head has the limit on its size, since each chunk
-- has a byte; and so has that over the records of a ClientHello. Out of fuel they answer the error `stuck`, which stands for no error of
-- Python; some results are about it. Recursion elsewhere is structural.
--
-- Not modelled: the digests of `hashlib`, which are parameters of the fingerprints; h2, the transport,
-- `ipaddress` and `urlsplit`, which are parameters; the text that `decode` and `inet_ntop` make of octets,
-- which stay octets; letters other than ASCII in `str.lower`; the socket options of solvetls/tcpip/syn.py;
-- the pauses and timeouts of asyncio; and the rest of the server: the decoder that the adapter gives to h2,
-- the answer of a redirect, the report, the storage, the rest of a TLS connection, the server, logging and the entry point.
pub mod Base
pub mod Exec
pub mod Wire
pub mod Tls
pub mod Http2
pub mod Fingerprints
pub mod Tcpip
pub mod HttpFields
pub mod Uri
pub mod Tests
pub mod Http1
pub mod Redirect
pub mod Connection
