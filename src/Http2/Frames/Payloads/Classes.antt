-- ===== src/Http2/Frames/Payloads/Classes.antt =====
-- The class of the payload that solvetls/http2/frames.py makes of a frame of a type whose payload's
-- attributes solvetls/http2/session.py reads.
use solvetls.Base.{ℕ, ◌≡◌, sym, subst, Bool, true, false, if◌then◌else◌}
use solvetls.Exec.{Result, ok, err, pure, continue, ◌>>=◌, ◌>>◌}
use solvetls.Http2.Frames.Codes.{headers_type, settings_type, goaway_type, priority_update_type}
use solvetls.Http2.Frames.Data.{
  FrameHeader, HeadersPayload, SettingsPayload, GoawayPayload, PriorityUpdatePayload, Payload,
  headers_payload, settings_payload, goaway_payload, priority_update_payload, FrameError,
}
use solvetls.Http2.Frames.Cursor.{FrameReader, Read}
use solvetls.Http2.Frames.Settings.{acknowledge_settings, read_settings_payload, parse_settings}
use solvetls.Http2.Frames.Payloads.{
  parse_headers, parse_goaway, parse_priority_update, parsers, find_parser, parse_payload_by_type,
}

abbrev pub IsHeaders : Payload → Type 0
IsHeaders (headers_payload p) = Unit
IsHeaders _ = ⊥

abbrev pub IsSettings : Payload → Type 0
IsSettings (settings_payload p) = Unit
IsSettings _ = ⊥

abbrev pub IsGoaway : Payload → Type 0
IsGoaway (goaway_payload p) = Unit
IsGoaway _ = ⊥

abbrev pub IsPriorityUpdate : Payload → Type 0
IsPriorityUpdate (priority_update_payload p) = Unit
IsPriorityUpdate _ = ⊥

abbrev pub OnOk : {E A : Type 0} → (A → Type 0) → Result E A → Type 0
OnOk P (ok a) = P a
OnOk P (err e) = Unit

any-OnOk : {E A : Type 0} (x : Result E A) → OnOk (λ a. Unit {0}) x
any-OnOk (ok a) = tt
any-OnOk (err e) = tt

-- Whatever `m` returns satisfies `P`.
pub record Makes {A : Type 0} (P : A → Type 0) (m : Read A) : Type 0 where
  pub at : (s : FrameReader) → OnOk P (m s).0

module _ {A B : Type 0} {P : A → Type 0} {Q : B → Type 0} where
  continue-OnOk :
      (f : A → Read B) (x : Result FrameError A × FrameReader)
      → OnOk P x.0
      → ((a : A) → P a → Makes Q (f a))
      → OnOk Q (continue f x).0
  continue-OnOk f (ok a, s) h k = (k a h).at s
  continue-OnOk f (err e, s) h k = tt

  -- What follows knows what was returned.
  pub Makes-from :
      (m : Read A) (f : A → Read B)
      → Makes P m
      → ((a : A) → P a → Makes Q (f a))
      → Makes Q (m >>= f)
  unfolding ◌>>=◌
  Makes-from m f h k = record { at = λ s. continue-OnOk f (m s) (h.at s) k }

module _ {B : Type 0} {Q : B → Type 0} where
  pub Makes-bind :
      {A : Type 0} (m : Read A) (f : A → Read B) → ((a : A) → Makes Q (f a)) → Makes Q (m >>= f)
  Makes-bind m f k =
      Makes-from {P = λ a. Unit {0}} m f (record { at = λ s. any-OnOk (m s).0 }) (λ a u. k a)

  pub Makes-then : {A : Type 0} (m : Read A) (n : Read B) → Makes Q n → Makes Q (m >> n)
  unfolding ◌>>◌
  Makes-then m n h = Makes-bind m (λ a. n) (λ a. h)

  pub Makes-if : (b : Bool) (m n : Read B) → Makes Q m → Makes Q n → Makes Q (if b then m else n)
  Makes-if true m n h k = h
  Makes-if false m n h k = k

pub Makes-pure : {A : Type 0} {P : A → Type 0} (a : A) → P a → Makes P (pure a)
Makes-pure a p = record { at = λ s. p }

IsHeaders-made : (p : HeadersPayload) → Makes IsHeaders (pure (headers_payload p))
IsHeaders-made p = Makes-pure (headers_payload p) tt

IsSettings-made : (p : SettingsPayload) → Makes IsSettings (pure (settings_payload p))
IsSettings-made p = Makes-pure (settings_payload p) tt

IsGoaway-made : (p : GoawayPayload) → Makes IsGoaway (pure (goaway_payload p))
IsGoaway-made p = Makes-pure (goaway_payload p) tt

IsPriorityUpdate-made :
    (p : PriorityUpdatePayload) → Makes IsPriorityUpdate (pure (priority_update_payload p))
IsPriorityUpdate-made p = Makes-pure (priority_update_payload p) tt

ruleset makes_rules = (
  Makes-bind, Makes-then, Makes-if, IsHeaders-made, IsSettings-made, IsGoaway-made,
  IsPriorityUpdate-made,
)

parse_headers-IsHeaders : (h : FrameHeader) → Makes IsHeaders (parse_headers h)
unfolding parse_headers
parse_headers-IsHeaders h = search makes_rules depth 10

parse_settings-IsSettings : (h : FrameHeader) → Makes IsSettings (parse_settings h)
unfolding parse_settings acknowledge_settings read_settings_payload
parse_settings-IsSettings h = search makes_rules depth 10

parse_goaway-IsGoaway : (h : FrameHeader) → Makes IsGoaway (parse_goaway h)
unfolding parse_goaway
parse_goaway-IsGoaway h = search makes_rules depth 10

parse_priority_update-IsPriorityUpdate :
    (h : FrameHeader) → Makes IsPriorityUpdate (parse_priority_update h)
unfolding parse_priority_update
parse_priority_update-IsPriorityUpdate h = search makes_rules depth 10

module _ (h : FrameHeader) where
  -- The parser that the type chooses.
  chosen :
      (t : ℕ) (P : Payload → Type 0)
      → h.type ≡ t
      → Makes P (find_parser t parsers h)
      → Makes P (parse_payload_by_type h)
  unfolding parse_payload_by_type
  chosen t P e k = subst (λ u. Makes P (find_parser u parsers h)) (sym e) k

  pub IsHeaders-class : h.type ≡ headers_type → Makes IsHeaders (parse_payload_by_type h)
  unfolding parsers find_parser
  IsHeaders-class e = chosen headers_type IsHeaders e (parse_headers-IsHeaders h)

  pub IsSettings-class : h.type ≡ settings_type → Makes IsSettings (parse_payload_by_type h)
  unfolding parsers find_parser
  IsSettings-class e = chosen settings_type IsSettings e (parse_settings-IsSettings h)

  pub IsGoaway-class : h.type ≡ goaway_type → Makes IsGoaway (parse_payload_by_type h)
  unfolding parsers find_parser
  IsGoaway-class e = chosen goaway_type IsGoaway e (parse_goaway-IsGoaway h)

  pub IsPriorityUpdate-class :
      h.type ≡ priority_update_type → Makes IsPriorityUpdate (parse_payload_by_type h)
  unfolding parsers find_parser
  IsPriorityUpdate-class e =
      chosen priority_update_type IsPriorityUpdate e (parse_priority_update-IsPriorityUpdate h)
