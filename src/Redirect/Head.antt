-- ===== src/Redirect/Head.antt =====
-- The head that `_read_head` returns.
use solvetls.Base.{
  ℕ, zero, suc, ◌+◌, ◌≤◌, ◌<◌, ◌≡◌, ◌⊎◌, inl, inr, refl, subst, ap, ◌∙◌, arith, Bool, true, false,
  [], ◌∷◌, ◌++◌, length, length-append, take, Option, none, some, ◌==◌, if◌then◌else◌,
}
use solvetls.Exec.{Result, ok, err, Exec}
use solvetls.Exec.Run.{bind_at}
use solvetls.Wire.Bytes.{Bytes}
use solvetls.Http1.{
  max_head_size, head_end, find, head_size, too_large, size_error, check_head_size, refuse,
}
use solvetls.Redirect.{
  RedirectError, http_error, stuck, stream_error, value_error, stop_iteration, end_head, found_head,
  checked_head, read_head_from, read_head,
}

-- The loop has not run out of fuel: what an error of the stream is not.
abbrev pub IsStreamError : Result RedirectError Bytes → Type 0
IsStreamError (ok chunk) = Unit
IsStreamError (err stuck) = ⊥
IsStreamError (err (http_error e)) = Unit
IsStreamError (err (value_error e)) = Unit
IsStreamError (err stop_iteration) = Unit
IsStreamError (err (stream_error t)) = Unit

length-zero : (xs : Bytes) → length xs ≡ 0 → xs ≡ []
length-zero [] h = refl
length-zero (x ∷ xs) h = absurd (omega (arith, h))

-- What the size check lets through.
small_found :
    (xs : Bytes) (e : ℕ)
    → find head_end xs ≡ some e
    → too_large xs true ≡ false
    → e + 4 ≤ max_head_size
unfolding too_large head_size
small_found xs e found h = let h' = rw found at h in ground (arith, h')

small_open :
    (xs : Bytes) → find head_end xs ≡ none → too_large xs true ≡ false → length xs < max_head_size
unfolding too_large head_size
small_open xs unended h = let h' = rw unended at h in ground (arith, h')

module _ {S : Type 0} (read : Exec S RedirectError Bytes) where
  -- The bytes that the stream gives, chunk by chunk, from one state to another.
  pub data Reads (s : S) : Bytes → S → Type 0 where
    no_chunk : Reads s [] s
    then_chunk :
        (xs chunk : Bytes) (t u : S)
        → Reads s xs t
        → read t ≡ (ok chunk, u)
        → Reads s (xs ++ chunk) u

  -- Nothing, where the stream's end came before any byte; or, of the bytes that have been read, those up to
  -- and with the first blank line, within the maximum. The loop has not run out of fuel.
  abbrev pub IsHead : S → Result RedirectError Bytes × S → Type 0
  IsHead s (ok head, t) =
      ((head ≡ []) × ((u : S) × Reads s [] u × (read u ≡ (ok [], t))))
      ⊎ ((xs : Bytes) × (e : ℕ) × Reads s xs t
          × (find head_end xs ≡ some e)
          × (head ≡ take (e + 4) xs)
          × (e + 4 ≤ max_head_size))
  IsHead s (err stuck, t) = ⊥
  IsHead s (err (http_error e), t) = Unit
  IsHead s (err (value_error e), t) = Unit
  IsHead s (err stop_iteration, t) = Unit
  IsHead s (err (stream_error u), t) = Unit

  raised : (s : S) (e : RedirectError) (t : S) → IsStreamError (err e) → IsHead s (err e, t)
  raised s (http_error e) t h = tt
  raised s (value_error e) t h = tt
  raised s stop_iteration t h = tt
  raised s (stream_error u) t h = tt
  raised s stuck t h = h

module _ {S : Type 0} (read : Exec S RedirectError Bytes)
    (safe : (s : S) → IsStreamError (read s).0) where
  end_head-IsHead :
      (s : S) (xs chunk : Bytes) (u t : S)
      → Reads read s xs u
      → read u ≡ (ok chunk, t)
      → length chunk ≡ 0
      → IsHead read s (end_head read xs t)
  unfolding end_head
  end_head-IsHead s [] chunk u t seen p none_left =
      inl (refl, (u, seen, p ∙ ap (λ c. (ok c, t)) (length-zero chunk none_left)))
  end_head-IsHead s (x ∷ xs) chunk u t seen p none_left =
      let more : (length (x ∷ xs) == 0) ≡ false = ground arith in rw more tt

  found_head-IsHead :
      (s : S) (xs : Bytes) (o : Option ℕ) (rest : Exec S RedirectError Bytes) (t : S)
      → Reads read s xs t
      → find head_end xs ≡ o
      → too_large xs true ≡ false
      → (length xs < max_head_size → IsHead read s (rest t))
      → IsHead read s (found_head read xs o rest t)
  found_head-IsHead s xs none rest t seen found small k = k (small_open xs found small)
  found_head-IsHead s xs (some e) rest t seen found small k =
      inr (xs, e, seen, found, refl, small_found xs e found small)

  checked_head-IsHead :
      (s : S) (xs : Bytes) (b : Bool) (rest : Exec S RedirectError Bytes) (t : S)
      → Reads read s xs t
      → too_large xs true ≡ b
      → (length xs < max_head_size → IsHead read s (rest t))
      → IsHead read s (checked_head read xs (refuse b (size_error xs)) rest t)
  checked_head-IsHead s xs true rest t seen large k = tt
  checked_head-IsHead s xs false rest t seen small k =
      found_head-IsHead s xs (find head_end xs) rest t seen refl small k

  chunk-IsHead :
      (fuel : ℕ) (s : S) (xs chunk : Bytes) (b : Bool) (u t : S)
      → Reads read s xs u
      → read u ≡ (ok chunk, t)
      → (length chunk == 0) ≡ b
      → max_head_size < length xs + suc fuel
      → ((ys : Bytes)
          → Reads read s ys t
          → length ys ≤ max_head_size
          → max_head_size < length ys + fuel
          → IsHead read s (read_head_from read fuel ys t))
      → IsHead read s (
          (if b
              then end_head read xs
              else checked_head read
                  (xs ++ chunk)
                  (check_head_size (xs ++ chunk) true)
                  (read_head_from read fuel (xs ++ chunk)))
            t)
  unfolding check_head_size
  chunk-IsHead fuel s xs chunk true u t seen p ended le k =
      end_head-IsHead s xs chunk u t seen p (ground (arith, ended))
  chunk-IsHead fuel s xs chunk false u t seen p more le k =
      let further = then_chunk xs chunk u t seen p in
      checked_head-IsHead s (xs ++ chunk) (too_large (xs ++ chunk) true) _ t further refl (λ small.
        k (xs ++ chunk) further (omega (arith, small))
          (ground (arith, more, le, length-append xs chunk)))

  read_head_from-IsHead :
      (fuel : ℕ) (s : S) (xs : Bytes) (u : S)
      → Reads read s xs u
      → length xs ≤ max_head_size
      → max_head_size < length xs + fuel
      → IsHead read s (read_head_from read fuel xs u)
  unfolding read_head_from
  read_head_from-IsHead zero s xs u seen small le = absurd (omega (arith, small, le))
  read_head_from-IsHead (suc fuel) s xs u seen small le =
      bind_at (IsHead read s) read _ u
        (λ e t p.
          raised read s e t
            (subst (λ (x : Result RedirectError Bytes × S). IsStreamError x.0) p (safe u)))
        (λ chunk t p.
          chunk-IsHead fuel s xs chunk (length chunk == 0) u t seen p refl le
            (λ ys more fits enough. read_head_from-IsHead fuel s ys t more fits enough))

  -- However the stream is cut into chunks, where reading it raises an exception of Python or gives a chunk,
  -- the loop comes to its end. Where it returns, the stream ended before any byte, and the head is empty; or
  -- the bytes of the chunks that were read, in their order, have a blank line, and the head is those up to and
  -- with the first one, and at most 65536.
  pub read_head-IsHead : (s : S) → IsHead read s (read_head read s)
  unfolding read_head
  read_head-IsHead s = read_head_from-IsHead 65537 s [] s no_chunk (omega arith) (omega arith)
