-- ===== src/Http2/Frames/Settings/Valid.antt =====
-- The parameters that `_parse_settings` accepts, and its dict of effective values.
use solvetls.Base.{
  ℕ, zero, suc, ◌+◌, ◌*◌, ◌/◌, ◌≤◌, ◌≡◌, refl, sym, subst, subst₂, arith, false, List, [], ◌∷◌,
  ◌++◌, All, Option, none, some, length, length-append, ◌==◌, if◌then◌else◌,
}
use solvetls.Exec.{ok, raise_if, ◌>>=◌, ◌>>◌}
use solvetls.Exec.Run.{bind_inv, then_inv, raise_if_inv}
use solvetls.Http2.Frames.Codes.{
  enable_push, initial_window_size, max_frame_size_setting, default_max_frame_size,
  max_allowed_frame_size, max_stream_id, ack_flag,
}
use solvetls.Http2.Frames.Data.{FrameHeader, Payload, Settings, SettingsPayload, settings_payload}
use solvetls.Http2.Frames.Cursor.{FrameReader, has_flag, reserve_entries, read_uint16, read_uint32}
use solvetls.Http2.Frames.Settings.{
  dict_set, check_setting, read_settings, read_settings_payload, parse_settings,
}

-- RFC 9113, 6.5.2: the values that a parameter may have.
pub record IsValid (entry : ℕ × ℕ) : Type 0 where
  pub push_fits : entry.0 ≡ enable_push → entry.1 ≤ 1
  pub window_fits : entry.0 ≡ initial_window_size → entry.1 ≤ max_stream_id
  pub frame_fits :
      entry.0 ≡ max_frame_size_setting
      → (default_max_frame_size ≤ entry.1) × (entry.1 ≤ max_allowed_frame_size)

check_setting_inv :
    (k v : ℕ) (s t : FrameReader) (u : Unit {0})
    → check_setting k v s ≡ (ok u, t)
    → IsValid (k, v) × (t ≡ s)
unfolding check_setting ◌>>◌ ◌>>=◌ raise_if
check_setting_inv k v s t u e = ground arith

-- settings.get(k)
unfoldable pub lookup : ℕ → Settings → Option ℕ
lookup k [] = none
lookup k ((j, v) ∷ d) = if j == k then some v else lookup k d

-- The value of the last occurrence of `k`, or `acc`.
unfoldable pub last_value : ℕ → Option ℕ → List (ℕ × ℕ) → Option ℕ
last_value k acc [] = acc
last_value k acc ((j, v) ∷ es) = last_value k (if j == k then some v else acc) es

pub lookup-dict_set :
    (j k v : ℕ) (d : Settings) → lookup j (dict_set k v d) ≡ (if k == j then some v else lookup j d)
unfolding lookup dict_set
lookup-dict_set j k v [] = refl
lookup-dict_set j k v ((i, w) ∷ d) = ground (arith, lookup-dict_set j k v d)

last_value-append :
    (k j v : ℕ) (acc : Option ℕ) (es : List (ℕ × ℕ))
    → last_value k acc (es ++ (j, v) ∷ []) ≡ (if j == k then some v else last_value k acc es)
unfolding last_value
last_value-append k j v acc [] = refl
last_value-append k j v acc ((i, w) ∷ es) =
    last_value-append k j v (if i == k then some w else acc) es

All-append :
    (es : List (ℕ × ℕ)) (e : ℕ × ℕ) → All IsValid es → IsValid e → All IsValid (es ++ e ∷ [])
All-append [] e a v = (v, tt)
All-append (x ∷ es) e (w, a) v = (w, All-append es e a v)

-- The dict holds of each parameter the value of its last entry.
abbrev pub Agrees : Settings → List (ℕ × ℕ) → Type 0
Agrees d es = (k : ℕ) → lookup k d ≡ last_value k none es

Agrees-append :
    (d : Settings) (es : List (ℕ × ℕ)) (j v : ℕ)
    → Agrees d es
    → Agrees (dict_set j v d) (es ++ (j, v) ∷ [])
Agrees-append d es j v h k = rw (lookup-dict_set, last_value-append, h k)

-- What the loop has gathered, with `n` rounds before it.
record Gathered (n : ℕ) (d : Settings) (es : List (ℕ × ℕ)) : Type 0 where
  valid : All IsValid es
  agrees : Agrees d es
  count : length es ≡ n

read_settings-Gathered :
    (n m : ℕ) (d d' : Settings) (es es' : List (ℕ × ℕ)) (s t : FrameReader)
    → Gathered m d es
    → read_settings n d es s ≡ (ok (d', es'), t)
    → Gathered (m + n) d' es'
unfolding read_settings
read_settings-Gathered zero m d d' es es' s t g e =
    let same_d : d ≡ d' = cc e in
    let same_es : es ≡ es' = cc e in
    subst₂ (Gathered (m + 0)) same_d same_es
      (record { valid = g.valid; agrees = g.agrees; count = omega (arith, g.count) })
read_settings-Gathered (suc n) m d d' es es' s t g e =
    let (k, s1, e1, r1) = bind_inv read_uint16 _ s t e in
    let (v, s2, e2, r2) = bind_inv read_uint32 _ s1 t r1 in
    let (u, s3, e3, r3) = then_inv (check_setting k v) _ s2 t r2 in
    let (valid, _) = check_setting_inv k v s2 s3 u e3 in
    subst (λ c. Gathered c d' es') (omega arith)
      (read_settings-Gathered n (m + 1) (dict_set k v d) d' (es ++ (k, v) ∷ []) es' s3 t
        (record {
          valid = All-append es (k, v) g.valid valid;
          agrees = Agrees-append d es k v g.agrees;
          count = omega (arith, length-append {0} es ((k, v) ∷ []), g.count);
        })
        r3)

-- What an accepted SETTINGS payload without ACK holds.
pub record IsAccepted (header : FrameHeader) (p : SettingsPayload) (d : Settings) : Type 0 where
  pub not_ack : p.ack ≡ false
  pub all_valid : All IsValid p.entries
  pub all_read : 6 * length p.entries ≡ header.length
  pub effective : p.settings ≡ some d
  pub agrees : Agrees d p.entries

payload_inv :
    (h : FrameHeader) (s t : FrameReader) (q : Payload)
    → read_settings_payload h s ≡ (ok q, t)
    → (p : SettingsPayload) × (d : Settings) × (q ≡ settings_payload p) × IsAccepted h p d
unfolding read_settings_payload lookup last_value
payload_inv h s t q e =
    let (u, s1, e1, r1) = then_inv (raise_if _ _) _ s t e in
    let (sixfold, _) = raise_if_inv _ _ s s1 e1 in
    let (v, s2, e2, r2) = then_inv (reserve_entries (h.length / 6)) _ s1 t r1 in
    let (x, s3, e3, r3) = bind_inv (read_settings (h.length / 6) [] []) _ s2 t r2 in
    let g =
      read_settings-Gathered (h.length / 6) 0 [] x.0 [] x.1 s2 s3
        (record { valid = tt; agrees = λ k. refl; count = refl }) e3 in
    (
      record { ack = false; settings = some x.0; entries = x.1 },
      x.0,
      sym (cc r3),
      record {
        not_ack = refl;
        all_valid = g.valid;
        all_read = ground (arith, g.count);
        effective = refl;
        agrees = g.agrees;
      },
    )

-- A SETTINGS payload that `_parse_settings` returns for a header without ACK: every entry, one that is
-- overwritten later too, has a value that RFC 9113 allows; the entries, of six bytes each, fill the
-- declared length; and the dict gives each identifier the value of its last entry, and no other.
pub parse_settings-IsAccepted :
    (h : FrameHeader) (s t : FrameReader) (q : Payload)
    → has_flag h.flags ack_flag ≡ false
    → parse_settings h s ≡ (ok q, t)
    → (p : SettingsPayload) × (d : Settings) × (q ≡ settings_payload p) × IsAccepted h p d
unfolding parse_settings
parse_settings-IsAccepted h s t q no_ack e =
    let (u, s1, e1, r1) = then_inv (raise_if _ _) _ s t e in payload_inv h s1 t q (rw no_ack at r1)
