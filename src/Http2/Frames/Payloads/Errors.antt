-- ===== src/Http2/Frames/Payloads/Errors.antt =====
-- What the payload parsers of solvetls/http2/frames.py may raise.
use solvetls.Base.{
  ℕ, zero, suc, ◌+◌, ◌≤◌, ◌≡◌, ◌≢◌, refl, arith, Bool, String, List, [], ◌∷◌, All, if◌then◌else◌,
  Bool-cases, inl, inr, ◌==◌, ltb, le→ltb,
}
use solvetls.Exec.{pure, gets, raise_if, ◌>>=◌, ◌>>◌}
use solvetls.Exec.Raises.{
  OnError, Raises, Raises-pure, Raises-gets, Raises-if, Raises-bind, Raises-then, Raises-raise_if,
}
use solvetls.Http2.Frames.Codes.{enhance_your_calm, flow_control_error}
use solvetls.Http2.Frames.Data.{FrameHeader, FrameError, Message, plain, stuck, Payload, Settings}
use solvetls.Http2.Frames.Cursor.{
  FrameReader, Read, protocol_fault, size_fault, entry_limit_fault, reserve_entries, read,
  read_uint8, read_uint16, read_uint24, read_uint32, read_uint32_with_reserved, read_priority,
  read_padding_length, skip_padding, limit, over_budget,
}
use solvetls.Http2.Frames.Settings.{
  check_setting, read_settings, read_settings_payload, acknowledge_settings, parse_settings,
}
use solvetls.Http2.Frames.Payloads.{
  parse_data, read_priority_if, parse_headers, parse_priority, parse_rst_stream, parse_push_promise,
  parse_ping, parse_goaway, parse_window_update, parse_continuation, parse_altsvc, read_origins,
  parse_origin, parse_priority_update, keep_unknown, parsers, find_parser, parse_payload_by_type,
}

-- An error of the program: no loop ran out of fuel, and ENHANCE_YOUR_CALM is the entry limit.
abbrev pub Known : FrameError → Type 0
Known e = (e.message ≢ stuck) × (e.code ≡ enhance_your_calm → e ≡ entry_limit_fault)

pub protocol_fault-Known : (s : String) → Known (protocol_fault (plain s))
protocol_fault-Known s = (λ p. cc p, λ p. absurd (omega arith))

pub size_fault-Known : (m : Message) → m ≢ stuck → Known (size_fault m)
size_fault-Known m h = (h, λ p. absurd (omega arith))

pub plain-size_fault-Known : (s : String) → Known (size_fault (plain s))
plain-size_fault-Known s = size_fault-Known (plain s) (λ p. cc p)

pub flow_control-Known :
    (s : String) → Known (record { message = plain s; code = flow_control_error })
flow_control-Known s = (λ p. cc p, λ p. absurd (omega arith))

pub entry_limit-Known : Known entry_limit_fault
entry_limit-Known = (λ p. cc p, λ p. refl)

pub read-Known : (n : ℕ) → Raises Known (read n)
unfolding read
read-Known n = record { at = λ s. read-at n s }
  where
    read-at : (n : ℕ) (s : FrameReader) → OnError Known (read n s).0
    read-at n s = elim (Bool-cases (ltb (limit s) (s.pos + n))) [
      | inl short ↦ rw short (size_fault-Known _ (λ p. cc p))
      | inr fits ↦ rw fits tt
    ]

pub reserve_entries-Known : (n : ℕ) → Raises Known (reserve_entries n)
unfolding reserve_entries
reserve_entries-Known n = record { at = λ s. reserve-at n s }
  where
    reserve-at : (n : ℕ) (s : FrameReader) → OnError Known (reserve_entries n s).0
    reserve-at n s = elim (Bool-cases (over_budget s.max_entries (s.entries_read + n))) [
      | inl over ↦ rw over entry_limit-Known
      | inr fits ↦ rw fits tt
    ]

module _ {A B : Type 0} where
  pub bind-Known :
      {m : Read A} {f : A → Read B}
      → Raises Known m
      → ((a : A) → Raises Known (f a))
      → Raises Known (m >>= f)
  bind-Known = Raises-bind

  pub then-Known :
      {m : Read A} {n : Read B} → Raises Known m → Raises Known n → Raises Known (m >> n)
  then-Known = Raises-then

module _ {A : Type 0} where
  pub pure-Known : (a : A) → Raises {S = FrameReader} Known (pure a)
  pure-Known = Raises-pure

  pub gets-Known : (f : FrameReader → A) → Raises Known (gets f)
  gets-Known = Raises-gets

  pub if-Known :
      (b : Bool) {m n : Read A}
      → Raises Known m
      → Raises Known n
      → Raises Known (if b then m else n)
  if-Known = Raises-if

pub raise_if-Known :
    (b : Bool) (e : FrameError) → Known e → Raises {S = FrameReader} Known (raise_if b e)
raise_if-Known b e h = Raises-raise_if b e h

pub ruleset block_rules = (
  read-Known, reserve_entries-Known, bind-Known, then-Known, pure-Known, gets-Known, if-Known,
  raise_if-Known, protocol_fault-Known, plain-size_fault-Known, flow_control-Known,
)

pub read_uint8-Known : Raises Known read_uint8
unfolding read_uint8
read_uint8-Known = search block_rules

pub read_uint16-Known : Raises Known read_uint16
unfolding read_uint16
read_uint16-Known = search block_rules

pub read_uint24-Known : Raises Known read_uint24
unfolding read_uint24
read_uint24-Known = search block_rules

pub read_uint32-Known : Raises Known read_uint32
unfolding read_uint32
read_uint32-Known = search block_rules

pub read_uint32_with_reserved-Known : Raises Known read_uint32_with_reserved
unfolding read_uint32_with_reserved
read_uint32_with_reserved-Known = search (block_rules, read_uint32-Known)

pub read_priority-Known : Raises Known read_priority
unfolding read_priority
read_priority-Known = search (block_rules, read_uint32-Known, read_uint8-Known)

pub read_padding_length-Known : (h : FrameHeader) → Raises Known (read_padding_length h)
unfolding read_padding_length
read_padding_length-Known h = search (block_rules, read_uint8-Known) depth 8

pub skip_padding-Known : (n : ℕ) → Raises Known (skip_padding n)
unfolding skip_padding
skip_padding-Known n = search block_rules depth 8

pub ruleset known_rules = (
  block_rules, read_uint8-Known, read_uint16-Known, read_uint24-Known, read_uint32-Known,
  read_uint32_with_reserved-Known, read_priority-Known, read_padding_length-Known,
  skip_padding-Known,
)

read_priority_if-Known : (b : Bool) → Raises Known (read_priority_if b)
unfolding read_priority_if
read_priority_if-Known b = search known_rules

check_setting-Known : (k v : ℕ) → Raises Known (check_setting k v)
unfolding check_setting
check_setting-Known k v = search known_rules

read_settings-Known :
    (n : ℕ) (d : Settings) (es : List (ℕ × ℕ)) → Raises Known (read_settings n d es)
unfolding read_settings
read_settings-Known zero d es = search known_rules
read_settings-Known (suc n) d es =
    search (known_rules, check_setting-Known, read_settings-Known n) depth 8

read_settings_payload-Known : (h : FrameHeader) → Raises Known (read_settings_payload h)
unfolding read_settings_payload
read_settings_payload-Known h = search (known_rules, read_settings-Known) depth 8

acknowledge_settings-Known : (h : FrameHeader) → Raises Known (acknowledge_settings h)
unfolding acknowledge_settings
acknowledge_settings-Known h = search known_rules

parse_settings-Known : (h : FrameHeader) → Raises Known (parse_settings h)
unfolding parse_settings
parse_settings-Known h =
    search (known_rules, acknowledge_settings-Known, read_settings_payload-Known)

read_origins-Known : (fuel size k : ℕ) → size ≤ k + fuel → Raises Known (read_origins fuel size k)
unfolding read_origins
read_origins-Known zero size k h = rw (le→ltb k size (omega arith)) (search known_rules)
read_origins-Known (suc fuel) size k h =
    search (known_rules, λ (n : ℕ). read_origins-Known fuel size (k + 2 + n) (omega arith)) depth 16

all_origins-Known : (n : ℕ) → Raises Known (read_origins n n 0)
all_origins-Known n = read_origins-Known n n 0 (omega arith)

parse_origin-Known : (h : FrameHeader) → Raises Known (parse_origin h)
unfolding parse_origin
parse_origin-Known h = search (known_rules, all_origins-Known)

keep_unknown-Known : (h : FrameHeader) → Raises Known (keep_unknown h)
unfolding keep_unknown
keep_unknown-Known h = search known_rules

parse_data-Known : (h : FrameHeader) → Raises Known (parse_data h)
unfolding parse_data
parse_data-Known h = search (known_rules) depth 14

parse_headers-Known : (h : FrameHeader) → Raises Known (parse_headers h)
unfolding parse_headers
parse_headers-Known h = search (known_rules, read_priority_if-Known) depth 14

parse_priority-Known : (h : FrameHeader) → Raises Known (parse_priority h)
unfolding parse_priority
parse_priority-Known h = search (known_rules) depth 14

parse_rst_stream-Known : (h : FrameHeader) → Raises Known (parse_rst_stream h)
unfolding parse_rst_stream
parse_rst_stream-Known h = search (known_rules) depth 14

parse_push_promise-Known : (h : FrameHeader) → Raises Known (parse_push_promise h)
unfolding parse_push_promise
parse_push_promise-Known h = search (known_rules) depth 14

parse_ping-Known : (h : FrameHeader) → Raises Known (parse_ping h)
unfolding parse_ping
parse_ping-Known h = search (known_rules) depth 14

parse_goaway-Known : (h : FrameHeader) → Raises Known (parse_goaway h)
unfolding parse_goaway
parse_goaway-Known h = search (known_rules) depth 14

parse_window_update-Known : (h : FrameHeader) → Raises Known (parse_window_update h)
unfolding parse_window_update
parse_window_update-Known h = search (known_rules) depth 14

parse_continuation-Known : (h : FrameHeader) → Raises Known (parse_continuation h)
unfolding parse_continuation
parse_continuation-Known h = search (known_rules) depth 14

parse_altsvc-Known : (h : FrameHeader) → Raises Known (parse_altsvc h)
unfolding parse_altsvc
parse_altsvc-Known h = search (known_rules) depth 14

parse_priority_update-Known : (h : FrameHeader) → Raises Known (parse_priority_update h)
unfolding parse_priority_update
parse_priority_update-Known h = search (known_rules) depth 14

abbrev RaisesKnown : ℕ × (FrameHeader → Read Payload) → Type 0
RaisesKnown p = (h : FrameHeader) → Raises Known (p.1 h)

parsers-RaisesKnown : All RaisesKnown parsers
unfolding parsers
parsers-RaisesKnown = (
  parse_data-Known,
  (
    parse_headers-Known,
    (
      parse_priority-Known,
      (
        parse_rst_stream-Known,
        (
          parse_settings-Known,
          (
            parse_push_promise-Known,
            (
              parse_ping-Known,
              (
                parse_goaway-Known,
                (
                  parse_window_update-Known,
                  (
                    parse_continuation-Known,
                    (parse_altsvc-Known, (parse_origin-Known, (parse_priority_update-Known, tt))),
                  ),
                ),
              ),
            ),
          ),
        ),
      ),
    ),
  ),
)

find_parser-Known :
    (t : ℕ) (ps : List (ℕ × (FrameHeader → Read Payload))) (h : FrameHeader)
    → All RaisesKnown ps
    → Raises Known (find_parser t ps h)
unfolding find_parser
find_parser-Known t [] h a = keep_unknown-Known h
find_parser-Known t ((u, p) ∷ ps) h (m, a) = elim (Bool-cases (t == u)) [
  | inl e ↦ rw e (m h)
  | inr e ↦ rw e (find_parser-Known t ps h a)
]

-- Whatever the header and the bytes are, an error that a payload parser raises is never that a loop
-- ran out of fuel, and one with the code ENHANCE_YOUR_CALM is the error of the entry limit.
pub parse_payload_by_type-Known : (h : FrameHeader) → Raises Known (parse_payload_by_type h)
unfolding parse_payload_by_type
parse_payload_by_type-Known h = find_parser-Known h.type parsers h parsers-RaisesKnown
