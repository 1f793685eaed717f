-- ===== src/Http2/Frames/Parse/Exact.antt =====
-- The bytes that `parse_frame` takes, and the state that it leaves.
use solvetls.Base.{
  ℕ, ◌+◌, ◌-◌, ◌≤◌, ◌≡◌, refl, sym, ap, ap₂, subst, ◌∙◌, arith, not, none, some, length, take, drop,
  ltb, ltb_false→le, ◌==◌, Bool-cases, inl, inr,
}
use solvetls.Exec.{
  Result, ok, err, pure, gets, raise_if, handle, try_except, try_finally, ◌>>=◌, ◌>>◌,
}
use solvetls.Exec.Steps.{Steps}
use solvetls.Exec.Run.{bind_inv, Result-cases}
use solvetls.Wire.Bytes.{Bytes}
use solvetls.Http2.Frames.Data.{FrameHeader, Payload, ParsedFrame, FrameError, expected_read}
use solvetls.Http2.Frames.Cursor.{FrameReader, size_fault}
use solvetls.Http2.Frames.Cursor.Bounds.{Moves, Keeps, Keeps-trans, Moves-Keeps, moves_rules}
use solvetls.Http2.Frames.Payloads.{parse_payload_by_type}
use solvetls.Http2.Frames.Payloads.Bounds.{parse_payload_by_type-Moves}
use solvetls.Http2.Frames.Parse.{
  available, read_header, set_end, read_payload, keep_malformed, recover, parse_body, parse_frame,
  slice,
}
use solvetls.Http2.Frames.Parse.Header.{advance, header_at, read_header_lem}

pub read_payload-Moves : (h : FrameHeader) (start : ℕ) → Steps Moves (read_payload h start)
unfolding read_payload
read_payload-Moves h start = search (moves_rules, parse_payload_by_type-Moves)

-- A payload that is returned ends where its frame ends.
size_inv :
    (h : FrameHeader) (start : ℕ) (p q : Payload) (u t : FrameReader) (f : ℕ → ℕ → FrameError)
    → start ≤ u.pos
    → (gets (λ r. r.pos) >>= λ pos.
          raise_if (not (pos - start == h.length)) (f h.length (pos - start)) >> pure p)
        u
      ≡ (ok q, t)
    → (p ≡ q) × (t ≡ u) × (u.pos ≡ start + h.length)
unfolding ◌>>=◌ ◌>>◌ raise_if
size_inv h start p q u t f le e = elim (Bool-cases (u.pos - start == h.length)) [
  | inl same ↦
      let e' = rw same at e in
      (cc e', sym (ap (λ (x : Result FrameError Payload × FrameReader). x.1) e'), ground arith)
  | inr other ↦ cc (rw other at e)
]

read_payload_exact :
    (h : FrameHeader) (start : ℕ) (s t : FrameReader) (q : Payload)
    → start ≤ s.pos
    → read_payload h start s ≡ (ok q, t)
    → t.pos ≡ start + h.length
unfolding read_payload
read_payload_exact h start s t q le e =
    let (p, u, a, b) = bind_inv (parse_payload_by_type h) _ s t e in
    let k : Moves s u = rw a at ((parse_payload_by_type-Moves h).run s) in
    let (_, same, place) =
      size_inv h start p q u t (λ n k. size_fault (expected_read n k)) (omega (arith, le, k.ahead))
        b in
    ap (λ (r : FrameReader). r.pos) same ∙ place

recover_exact :
    (h : FrameHeader) (start : ℕ) (error : FrameError) (s t : FrameReader) (q : Payload)
    → recover h start error s ≡ (ok q, t)
    → t.pos ≡ start + h.length
unfolding recover keep_malformed ◌>>=◌ ◌>>◌
recover_exact h start error s t q e = ground arith

recover-Keeps :
    (h : FrameHeader) (start : ℕ) (error : FrameError) (s : FrameReader)
    → Keeps s (recover h start error s).1
unfolding recover keep_malformed ◌>>=◌ ◌>>◌
recover-Keeps h start error s = ground arith

module _ (h : FrameHeader) (start : ℕ) (s : FrameReader) where
  -- The state in which the payload is parsed.
  abbrev inner : FrameReader
  inner = set_end (some (start + h.length)) s

  handled_exact :
      (x : Result FrameError Payload × FrameReader) (t : FrameReader) (q : Payload)
      → read_payload h start inner ≡ x
      → start ≤ s.pos
      → handle (recover h start) x ≡ (ok q, t)
      → t.pos ≡ start + h.length
  handled_exact (ok p, u) t q e le r = read_payload_exact h start inner t q le (e ∙ r)
  handled_exact (err f, u) t q e le r = recover_exact h start f u t q r

  handled-Keeps :
      (x : Result FrameError Payload × FrameReader)
      → Keeps inner x.1
      → Keeps inner (handle (recover h start) x).1
  handled-Keeps (ok p, u) k = k
  handled-Keeps (err f, u) k = Keeps-trans inner u _ k (recover-Keeps h start f u)

  parse_body-Keeps : Keeps s (parse_body h start s).1
  unfolding parse_body try_finally try_except ◌>>=◌ ◌>>◌
  parse_body-Keeps =
      let k =
        handled-Keeps (read_payload h start inner)
          (Moves-Keeps inner _ ((read_payload-Moves h start).run inner)) in
      record {
        same_dat = k.same_dat;
        same_size = k.same_size;
        same_forensic = k.same_forensic;
        same_budget = k.same_budget;
        grows = k.grows;
        budget = k.budget;
      }

  parse_body_end : (parse_body h start s).1.payload_end ≡ none
  unfolding parse_body try_finally try_except ◌>>=◌ ◌>>◌
  parse_body_end = refl

  parse_body_exact :
      (t : FrameReader) (q : Payload)
      → start ≤ s.pos
      → parse_body h start s ≡ (ok q, t)
      → t.pos ≡ start + h.length
  unfolding parse_body try_finally try_except ◌>>=◌ ◌>>◌
  parse_body_exact t q le e =
      let x = handle (recover h start) (read_payload h start inner) in
      let place : x.1.pos ≡ t.pos =
        ap (λ (y : Result FrameError Payload × FrameReader). y.1.pos) e in
      sym place
      ∙ handled_exact (read_payload h start inner) x.1 q refl le
          (ap (λ (y : Result FrameError Payload × FrameReader). (y.0, x.1)) e)

Keeps-advance : (s t : FrameReader) (n : ℕ) → Keeps (advance s n) t → Keeps s t
Keeps-advance s t n k = record {
  same_dat = k.same_dat;
  same_size = k.same_size;
  same_forensic = k.same_forensic;
  same_budget = k.same_budget;
  grows = k.grows;
  budget = k.budget;
}

-- What is true of a frame that `parse_frame` returned from the state `s`, leaving the state `t`.
pub record Exact (s : FrameReader) (f : ParsedFrame) (t : FrameReader) : Type 0 where
  pub header : f.header ≡ header_at s
  pub within_maximum : f.header.length ≤ s.max_frame_size
  pub ends_at : t.pos ≡ s.pos + 9 + f.header.length
  pub inside : t.pos ≤ length s.dat
  pub raw : f.raw ≡ take (9 + f.header.length) (drop s.pos s.dat)
  pub closed : t.payload_end ≡ none
  pub keeps : Keeps s t

pub header_inv :
    (s u : FrameReader) (h : FrameHeader)
    → s.payload_end ≡ none
    → read_header s ≡ (ok h, u)
    → (h ≡ header_at s)
      × (u ≡ advance s 9)
      × (h.length ≤ s.max_frame_size)
      × (s.pos + 9 + h.length ≤ length s.dat)
header_inv s u h o e =
    let e' = sym (read_header_lem s o) ∙ e in
    elim (Bool-cases (ltb (available s) 9)) [
      | inl short ↦ cc (rw short at e')
      | inr long ↦ elim (Bool-cases (ltb s.max_frame_size (header_at s).length)) [
        | inl big ↦ cc (rw (long, big) at e')
        | inr fits ↦ elim (Bool-cases (ltb (available (advance s 9)) (header_at s).length)) [
          | inl cut ↦ cc (rw (long, fits, cut) at e')
          | inr whole ↦
              let e'' = rw (long, fits, whole) at e' in
              let same : header_at s ≡ h = cc e'' in
              (
                sym same,
                sym (ap (λ (x : Result FrameError FrameHeader × FrameReader). x.1) e''),
                subst (λ k. k.length ≤ s.max_frame_size) same
                    (ltb_false→le s.max_frame_size (header_at s).length fits),
                subst (λ k. s.pos + 9 + k.length ≤ length s.dat) same
                    (omega (
                      arith,
                      ltb_false→le (available s) 9 long,
                      ltb_false→le (available (advance s 9)) (header_at s).length whole,
                    )),
              )
        ]
      ]
    ]

-- A frame is its header, its payload and the bytes between the two positions.
pub frame_inv :
    (s t : FrameReader) (f : ParsedFrame)
    → parse_frame s ≡ (ok f, t)
    → (u : FrameReader) × (read_header s ≡ (ok f.header, u))
      × (parse_body f.header u.pos u ≡ (ok f.payload, t))
      × (f.raw ≡ slice s.pos (u.pos + f.header.length) t.dat)
unfolding parse_frame ◌>>=◌
frame_inv s t f e = elim (Result-cases (read_header s)) [
  | inr (x, u, e1) ↦ cc (rw e1 at e)
  | inl (h, u, e1) ↦
      let e' = rw e1 at e in
      elim (Result-cases (parse_body h u.pos u)) [
        | inr (x, v, e2) ↦ cc (rw e2 at e')
        | inl (p, v, e2) ↦
            let e'' = rw e2 at e' in
            let same_end : v ≡ t =
              ap (λ (x : Result FrameError ParsedFrame × FrameReader). x.1) e'' in
            let same_frame : record {
              header = h;
              payload = p;
              raw = slice s.pos (u.pos + h.length) v.dat;
            }
                ≡ f =
              cc e'' in
            let same_header : h ≡ f.header = ap (λ (x : ParsedFrame). x.header) same_frame in
            let same_payload : p ≡ f.payload = ap (λ (x : ParsedFrame). x.payload) same_frame in
            (
              u,
              subst (λ k. read_header s ≡ (ok k, u)) same_header e1,
              subst (λ k. parse_body k u.pos u ≡ (ok f.payload, t)) same_header
                  (e2 ∙ ap₂ (λ a b. (ok a, b)) same_payload same_end),
              sym (ap (λ (x : ParsedFrame). x.raw) same_frame)
                  ∙ ap₂
                      (λ (k : FrameHeader) (r : FrameReader). slice s.pos (u.pos + k.length) r.dat)
                      same_header same_end,
            )
      ]
]

-- A frame that `parse_frame` returns, from a reader that is between two frames: its header is what the
-- nine bytes at the cursor say; its declared length is within the maximum; the cursor ends behind the
-- nine bytes and the declared length, inside the buffer; `raw` is exactly the bytes in between; the
-- payload's end is reset; the buffer, the maximum, the forensic mode and the entry limit are kept; and
-- the count of entries does not fall, nor rise over the limit.
pub parse_frame-Exact :
    (s t : FrameReader) (f : ParsedFrame)
    → s.payload_end ≡ none
    → parse_frame s ≡ (ok f, t)
    → Exact s f t
unfolding parse_frame
parse_frame-Exact s t f o e =
    let (u, e1, e2, raw) = frame_inv s t f e in
    let (same, moved, small, fits) = header_inv s u f.header o e1 in
    let k : Keeps u t = rw e2 at (parse_body-Keeps f.header u.pos u) in
    let start : u.pos ≡ s.pos + 9 = ap (λ (r : FrameReader). r.pos) moved in
    let ends = parse_body_exact f.header u.pos u t f.payload (omega arith) e2 in
    let place : t.pos ≡ s.pos + 9 + f.header.length = omega (arith, ends, start) in
    let keeps = Keeps-advance s t 9 (subst (λ r. Keeps r t) moved k) in
    record {
      header = same;
      within_maximum = small;
      ends_at = place;
      inside = omega (arith, place, fits);
      raw =
          raw ∙ ap₂ (λ n (d : Bytes). take n (drop s.pos d)) (omega (arith, start)) keeps.same_dat;
      closed = rw e2 at (parse_body_end f.header u.pos u);
      keeps = keeps;
    }
