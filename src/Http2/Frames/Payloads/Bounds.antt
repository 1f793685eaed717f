-- ===== src/Http2/Frames/Payloads/Bounds.antt =====
-- The reads and the entries of each payload parser in solvetls/http2/frames.py.
use solvetls.Base.{ℕ, zero, suc, Bool, List, [], ◌∷◌, All, Bool-cases, inl, inr, ◌==◌}
use solvetls.Exec.Steps.{Steps}
use solvetls.Http2.Frames.Data.{FrameHeader, Payload, Settings}
use solvetls.Http2.Frames.Cursor.{Read}
use solvetls.Http2.Frames.Cursor.Bounds.{Moves, moves_rules}
use solvetls.Http2.Frames.Settings.{
  check_setting, read_settings, read_settings_payload, acknowledge_settings, parse_settings,
}
use solvetls.Http2.Frames.Payloads.{
  parse_data, read_priority_if, parse_headers, parse_priority, parse_rst_stream, parse_push_promise,
  parse_ping, parse_goaway, parse_window_update, parse_continuation, parse_altsvc, read_origins,
  parse_origin, parse_priority_update, keep_unknown, parsers, find_parser, parse_payload_by_type,
}

read_priority_if-Moves : (b : Bool) → Steps Moves (read_priority_if b)
unfolding read_priority_if
read_priority_if-Moves b = search moves_rules

check_setting-Moves : (k v : ℕ) → Steps Moves (check_setting k v)
unfolding check_setting
check_setting-Moves k v = search moves_rules

read_settings-Moves :
    (n : ℕ) (d : Settings) (es : List (ℕ × ℕ)) → Steps Moves (read_settings n d es)
unfolding read_settings
read_settings-Moves zero d es = search moves_rules
read_settings-Moves (suc n) d es =
    search (moves_rules, check_setting-Moves, read_settings-Moves n) depth 8

read_settings_payload-Moves : (h : FrameHeader) → Steps Moves (read_settings_payload h)
unfolding read_settings_payload
read_settings_payload-Moves h = search (moves_rules, read_settings-Moves) depth 8

acknowledge_settings-Moves : (h : FrameHeader) → Steps Moves (acknowledge_settings h)
unfolding acknowledge_settings
acknowledge_settings-Moves h = search moves_rules

parse_settings-Moves : (h : FrameHeader) → Steps Moves (parse_settings h)
unfolding parse_settings
parse_settings-Moves h =
    search (moves_rules, acknowledge_settings-Moves, read_settings_payload-Moves)

read_origins-Moves : (fuel size k : ℕ) → Steps Moves (read_origins fuel size k)
unfolding read_origins
read_origins-Moves zero size k = search moves_rules
read_origins-Moves (suc fuel) size k = search (moves_rules, read_origins-Moves fuel) depth 14

parse_origin-Moves : (h : FrameHeader) → Steps Moves (parse_origin h)
unfolding parse_origin
parse_origin-Moves h = search (moves_rules, read_origins-Moves)

keep_unknown-Moves : (h : FrameHeader) → Steps Moves (keep_unknown h)
unfolding keep_unknown
keep_unknown-Moves h = search moves_rules

parse_data-Moves : (h : FrameHeader) → Steps Moves (parse_data h)
unfolding parse_data
parse_data-Moves h = search (moves_rules) depth 14

parse_headers-Moves : (h : FrameHeader) → Steps Moves (parse_headers h)
unfolding parse_headers
parse_headers-Moves h = search (moves_rules, read_priority_if-Moves) depth 14

parse_priority-Moves : (h : FrameHeader) → Steps Moves (parse_priority h)
unfolding parse_priority
parse_priority-Moves h = search (moves_rules) depth 14

parse_rst_stream-Moves : (h : FrameHeader) → Steps Moves (parse_rst_stream h)
unfolding parse_rst_stream
parse_rst_stream-Moves h = search (moves_rules) depth 14

parse_push_promise-Moves : (h : FrameHeader) → Steps Moves (parse_push_promise h)
unfolding parse_push_promise
parse_push_promise-Moves h = search (moves_rules) depth 14

parse_ping-Moves : (h : FrameHeader) → Steps Moves (parse_ping h)
unfolding parse_ping
parse_ping-Moves h = search (moves_rules) depth 14

parse_goaway-Moves : (h : FrameHeader) → Steps Moves (parse_goaway h)
unfolding parse_goaway
parse_goaway-Moves h = search (moves_rules) depth 14

parse_window_update-Moves : (h : FrameHeader) → Steps Moves (parse_window_update h)
unfolding parse_window_update
parse_window_update-Moves h = search (moves_rules) depth 14

parse_continuation-Moves : (h : FrameHeader) → Steps Moves (parse_continuation h)
unfolding parse_continuation
parse_continuation-Moves h = search (moves_rules) depth 14

parse_altsvc-Moves : (h : FrameHeader) → Steps Moves (parse_altsvc h)
unfolding parse_altsvc
parse_altsvc-Moves h = search (moves_rules) depth 14

parse_priority_update-Moves : (h : FrameHeader) → Steps Moves (parse_priority_update h)
unfolding parse_priority_update
parse_priority_update-Moves h = search (moves_rules) depth 14

abbrev Moving : ℕ × (FrameHeader → Read Payload) → Type 0
Moving p = (h : FrameHeader) → Steps Moves (p.1 h)

parsers-Moving : All Moving parsers
unfolding parsers
parsers-Moving = (
  parse_data-Moves,
  (
    parse_headers-Moves,
    (
      parse_priority-Moves,
      (
        parse_rst_stream-Moves,
        (
          parse_settings-Moves,
          (
            parse_push_promise-Moves,
            (
              parse_ping-Moves,
              (
                parse_goaway-Moves,
                (
                  parse_window_update-Moves,
                  (
                    parse_continuation-Moves,
                    (parse_altsvc-Moves, (parse_origin-Moves, (parse_priority_update-Moves, tt))),
                  ),
                ),
              ),
            ),
          ),
        ),
      ),
    ),
  ),
)

find_parser-Moves :
    (t : ℕ) (ps : List (ℕ × (FrameHeader → Read Payload))) (h : FrameHeader)
    → All Moving ps
    → Steps Moves (find_parser t ps h)
unfolding find_parser
find_parser-Moves t [] h a = keep_unknown-Moves h
find_parser-Moves t ((u, p) ∷ ps) h (m, a) = elim (Bool-cases (t == u)) [
  | inl e ↦ rw e (m h)
  | inr e ↦ rw e (find_parser-Moves t ps h a)
]

-- Whatever the header and the bytes are, and whether it returns or raises, a payload parser keeps the
-- buffer, the maximum, the forensic mode, the entry limit and the payload's end, moves the cursor
-- forwards and never over that end, and keeps the count of entries from falling and from rising over
-- the limit.
pub parse_payload_by_type-Moves : (h : FrameHeader) → Steps Moves (parse_payload_by_type h)
unfolding parse_payload_by_type
parse_payload_by_type-Moves h = find_parser-Moves h.type parsers h parsers-Moving
