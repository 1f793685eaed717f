-- ===== src/Http2/Session/Requests.antt =====
-- The end of the request that a session serves.
use solvetls.Base.{ℕ, ◌≡◌, refl, sym, ap, ◌∙◌, arith, Bool, true, false, Option, none, some}
use solvetls.Exec.{Result, ok, modify, ◌>>=◌, ◌>>◌}
use solvetls.Exec.Run.{then_inv}
use solvetls.Http2.Session.{Session, SessionError, Environment, when, fail_protocol}
use solvetls.Http2.Session.Keeps.{fail_never}
use solvetls.Http2.Session.Events.{
  same_stream, differs_from, set_ready, finish_request, process_end,
}

same_length : (o : Option ℕ) (n k : ℕ) → differs_from o n ≡ false → o ≡ some k → n ≡ k
same_length none n k h e = cc
same_length (some m) n k h e = let e' : m ≡ k = cc in ground (arith, h, e')

same_stream_refl : (i : ℕ) → same_stream (some i) i ≡ true
same_stream_refl i = ground arith

module _ {C T : Type 0} (env : Environment C T) where
  finish_checked :
      (s t : Session C T) (b : Bool) (u : Unit {0})
      → (when b (fail_protocol env "HTTP/2 Content-Length does not match request body")
            >> modify set_ready)
          s
        ≡ (ok u, t)
      → (b ≡ false) × (set_ready s ≡ t)
  unfolding ◌>>=◌ ◌>>◌
  finish_checked s t true u e =
      let (v, w, failed, rest) =
        then_inv (fail_protocol env "HTTP/2 Content-Length does not match request body")
          (modify set_ready) s t e in
      absurd (fail_never env _ _ s w failed)
  finish_checked s t false u e =
      (refl, ap (λ (x : Result SessionError (Unit {0}) × Session C T). x.1) e)

  ended_checked :
      (i : ℕ) (s t : Session C T) (b : Bool) (u : Unit {0})
      → b ≡ true
      → when b (finish_request env) s ≡ (ok u, t)
      → (differs_from s.expected_length s.request_bytes ≡ false) × (set_ready s ≡ t)
  unfolding finish_request ◌>>=◌
  ended_checked i s t true u e p =
      finish_checked s t (differs_from s.expected_length s.request_bytes) u p
  ended_checked i s t false u e p = cc

  -- When the end of the request's stream is processed without an exception, and the request declared a
  -- Content-Length, then the body that was received has that length, and the request becomes ready, which
  -- is all that changes.
  pub process_end-set_ready :
      (i k : ℕ) (s t : Session C T)
      → s.capture.stream_id ≡ some i
      → s.expected_length ≡ some k
      → process_end env i s ≡ (ok tt, t)
      → (t ≡ set_ready s) × (s.request_bytes ≡ k)
  unfolding process_end ◌>>=◌
  process_end-set_ready i k s t e q p =
      let (same, ready) =
        ended_checked i s t (same_stream s.capture.stream_id i) tt
          (ap (λ o. same_stream o i) e ∙ same_stream_refl i) p in
      (sym ready, same_length s.expected_length s.request_bytes k same q)
