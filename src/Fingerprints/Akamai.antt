-- ===== src/Fingerprints/Akamai.antt =====
-- solvetls/fingerprints.py: `build_akamai_fingerprint`. Octets and the characters that `as_text` makes
-- of them are the same numbers.
pub mod Prefix
use solvetls.Base.{
  ℕ, Bool, true, false, not, ◌&&◌, List, [], ◌∷◌, ◌++◌, map, Option, none, some, ◌==◌,
  if◌then◌else◌,
}
use solvetls.Base.Text.{codes, str, join}
use solvetls.Base.Sort.{Text}
use solvetls.Exec.{Result, ok, err}
use solvetls.Wire.Bytes.{Bytes}
use solvetls.Http2.Capture.{Capture}
use solvetls.Http2.Frames.Codes.{headers_type, priority_type, window_update_type}
use solvetls.Http2.Frames.Data.{
  ParsedFrame, FrameHeader, PriorityInfo, Payload, priority_info, window_update_payload,
  unknown_payload,
}

-- `frame.payload.increment` or `.exclusive` of a payload that has no such attribute.
pub data AttributeError : Type 0 where
  no_attribute : AttributeError

pub record Akamai : Type 0 where
  pub akamai_fingerprint : Option Text
  pub akamai_fingerprint_hash : Option Text

-- The local variables of the loop over the frames.
pub record Gathered : Type 0 where
  pub window_update : Text
  pub window_update_seen : Bool
  pub priorities : List Text

abbrev pub is_unknown : Payload → Bool
is_unknown (unknown_payload u) = true
is_unknown _ = false

abbrev pub int_of : Bool → ℕ
int_of true = 1
int_of false = 0

unfoldable pub priority_text : ℕ → PriorityInfo → Text
priority_text stream_id p =
    str stream_id
    ++ (codes ":"
        ++ (str (int_of p.exclusive)
            ++ (codes ":" ++ (str p.dependency ++ (codes ":" ++ str p.weight)))))

abbrev pub note_window : Payload → Gathered → Result AttributeError Gathered
note_window (window_update_payload w) g =
    ok (record g { window_update = str w.increment; window_update_seen = true })
note_window _ g = err no_attribute

abbrev pub note_priority : ℕ → Payload → Gathered → Result AttributeError Gathered
note_priority stream_id (priority_info p) g =
    ok (record g { priorities = g.priorities ++ priority_text stream_id p ∷ [] })
note_priority stream_id _ g = err no_attribute

-- The body of the loop behind its `break`.
unfoldable pub gather_frame : ParsedFrame → Gathered → Result AttributeError Gathered
gather_frame f g =
    if is_unknown f.payload
    then ok g
    else if f.header.type == window_update_type
        && (f.header.stream_id == 0 && not g.window_update_seen)
    then note_window f.payload g
    else if f.header.type == priority_type
    then note_priority f.header.stream_id f.payload g
    else ok g

abbrev pub and_then :
    {A B : Type 0}
    → Result AttributeError A
    → (A → Result AttributeError B)
    → Result AttributeError B
and_then (ok a) k = k a
and_then (err e) k = err e

-- The loop, up to the first HEADERS frame.
unfoldable pub gather : List ParsedFrame → Gathered → Result AttributeError Gathered
gather [] g = ok g
gather (f ∷ fs) g =
    let others = and_then (gather_frame f g) (gather fs) in
    if f.header.type == headers_type then ok g else others

-- [f"{setting_id}:{value}" for setting_id, value in initial_settings or []]
unfoldable pub setting_lines : List (ℕ × ℕ) → List Text
setting_lines [] = []
setting_lines ((k, v) ∷ es) = (str k ++ (codes ":" ++ str v)) ∷ setting_lines es

unfoldable pub settings_text : Option (List (ℕ × ℕ)) → List Text
settings_text none = []
settings_text (some es) = setting_lines es

-- The letter behind the colon of a pseudo-header; a lone colon has none.
unfoldable pub pseudo_letters : List (Bytes × Bytes) → List Text
pseudo_letters [] = []
pseudo_letters ((c ∷ d ∷ name, v) ∷ hs) =
    if c == 58 then (d ∷ []) ∷ pseudo_letters hs else pseudo_letters hs
pseudo_letters (_ ∷ hs) = pseudo_letters hs

-- headers or []
abbrev pub or_empty : Option (List (Bytes × Bytes)) → List (Bytes × Bytes)
or_empty none = []
or_empty (some hs) = hs

-- ",".join(priorities) if priorities else "0"
abbrev pub priorities_text : List Text → Text
priorities_text [] = codes "0"
priorities_text (p ∷ ps) = join (codes ",") (p ∷ ps)

abbrev pub start : Gathered
start = record { window_update = codes "00"; window_update_seen = false; priorities = [] }

unfoldable pub akamai_text : Capture → Gathered → Text
akamai_text c g = join (codes "|") (
    join (codes ";") (settings_text c.initial_settings)
    ∷ g.window_update
    ∷ priorities_text g.priorities
    ∷ join (codes ",") (pseudo_letters (or_empty c.headers))
    ∷ [])

abbrev pub hashed : (Text → Text) → Text → Akamai
hashed md5 t = record { akamai_fingerprint = some t; akamai_fingerprint_hash = some (md5 t) }

abbrev pub no_akamai : Akamai
no_akamai = record { akamai_fingerprint = none; akamai_fingerprint_hash = none }

unfoldable pub akamai_of : (Text → Text) → Capture → List ParsedFrame → Result AttributeError Akamai
akamai_of md5 c [] = ok no_akamai
akamai_of md5 c (f ∷ fs) = and_then (gather (f ∷ fs) start) (λ g. ok (hashed md5 (akamai_text c g)))

-- `md5` is `hashlib.md5(value.encode()).hexdigest()`.
unfoldable pub build_akamai_fingerprint :
    (Text → Text) → Option Capture → Result AttributeError Akamai
build_akamai_fingerprint md5 none = ok no_akamai
build_akamai_fingerprint md5 (some c) = akamai_of md5 c c.frames
