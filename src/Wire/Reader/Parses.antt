-- ===== src/Wire/Reader/Parses.antt =====
-- What a method reads, as the exact bytes that it takes: for round trips with a description of the
-- wire format.
use solvetls.Base.{
  ℕ, zero, suc, ◌+◌, ◌≤◌, ◌<◌, ◌≡◌, refl, sym, ap, ◌∙◌, arith, true, false, List, [], ◌∷◌, ◌++◌,
  length, drop, ltb, length-append, drop-append, drop-drop, length-drop, take-append, append_assoc,
  append-nil, All, le→ltb, lt→ltb,
}
use solvetls.Exec.{ok, pure, ◌>>=◌, ◌>>◌, on_new}
use solvetls.Exec.Run.{bind-ok}
use solvetls.Wire.Bytes.{
  Bytes, unpack_from, unpack, pack, length-pack, unpack-pack1, unpack-pack2, unpack-pack3,
  unpack-pack4,
}
use solvetls.Wire.Reader.{
  ByteReader, Read, new_reader, has_more, read, read_uint8, read_uint16, read_uint24, read_uint32,
  read_length, read_vector, while_more, read_all,
}

-- The bytes that are still to be read are `ys`.
pub record Rest (r : ByteReader) (ys : Bytes) : Type 0 where
  pub left : drop r.pos r.dat ≡ ys
  pub inside : r.pos ≤ length r.dat

-- The reader, `n` bytes further on.
abbrev pub advance : ByteReader → ℕ → ByteReader
advance r n = record r { pos = r.pos + n }

-- In front of `xs`, whatever follows, `m` returns `a` and stops behind `xs`.
pub record Parses {A : Type 0} (m : Read A) (xs : Bytes) (a : A) : Type 0 where
  pub at : (r : ByteReader) (ys : Bytes) → Rest r (xs ++ ys) → m r ≡ (ok a, advance r (length xs))

length-Rest : (r : ByteReader) (ys : Bytes) → Rest r ys → length r.dat ≡ r.pos + length ys
length-Rest r ys h =
    omega (arith, h.inside, length-drop {0} r.pos r.dat, ap (λ (d : Bytes). length d) h.left)

pub Rest-advance :
    (r : ByteReader) (xs ys : Bytes) → Rest r (xs ++ ys) → Rest (advance r (length xs)) ys
Rest-advance r xs ys h = record {
  left = sym (drop-drop (length xs) r.pos r.dat) ∙ ap (drop (length xs)) h.left ∙ drop-append xs ys;
  inside = omega (arith, length-Rest r (xs ++ ys) h, length-append {0} xs ys);
}

pub Rest-new : (xs : Bytes) → Rest (new_reader xs) xs
unfolding new_reader
Rest-new xs = record { left = refl; inside = omega arith }

pub read-Parses : (xs : Bytes) → Parses (read (length xs)) xs xs
unfolding read
read-Parses xs = record {
  at = λ r ys h.
      let fits =
        le→ltb (length r.dat) (r.pos + length xs)
          (omega (arith, length-Rest r (xs ++ ys) h, length-append {0} xs ys)) in
      rw (fits, h.left, take-append xs ys);
}

pub pure-Parses : {A : Type 0} (a : A) → Parses (pure a) [] a
pure-Parses a = record { at = λ r ys h. ap (λ n. (ok a, record r { pos = n })) (omega arith) }

module _ {A B : Type 0} where
  pub bind-Parses :
      {m : Read A} (f : A → Read B) {xs ys : Bytes} {a : A} {b : B}
      → Parses m xs a
      → Parses (f a) ys b
      → Parses (m >>= f) (xs ++ ys) b
  bind-Parses {m} f {xs} {ys} {a} {b} h k = record {
    at = λ r zs p.
        let q = rw append_assoc at p in
        bind-ok m f (h.at r (ys ++ zs) q)
        ∙ k.at (advance r (length xs)) zs (Rest-advance r xs (ys ++ zs) q)
        ∙ ap (λ n. (ok b, record r { pos = n })) (omega (arith, length-append {0} xs ys));
  }

  -- A last step that reads nothing.
  pub map-Parses :
      {m : Read A} (f : A → Read B) {xs : Bytes} {a : A} {b : B}
      → Parses m xs a
      → Parses (f a) [] b
      → Parses (m >>= f) xs b
  map-Parses f {xs} h k = rw append-nil at (bind-Parses f h k)

  -- The same, where the value is not used.
  pub then-Parses :
      {m : Read A} {n : Read B} {xs ys : Bytes} {a : A} {b : B}
      → Parses m xs a
      → Parses n ys b
      → Parses (m >> n) (xs ++ ys) b
  unfolding ◌>>◌
  then-Parses {n = n} h k = bind-Parses (λ _. n) h k

  pub map_then-Parses :
      {m : Read A} {n : Read B} {xs : Bytes} {a : A} {b : B}
      → Parses m xs a
      → Parses n [] b
      → Parses (m >> n) xs b
  unfolding ◌>>◌
  map_then-Parses {n = n} h k = map-Parses (λ _. n) h k

-- An integer of one, two, three or four bytes.
pub read_uint8-Parses : (n : ℕ) → n < 256 → Parses read_uint8 (pack 1 n) n
unfolding read_uint8
read_uint8-Parses n h =
    map-Parses (λ bs. pure (unpack bs)) (rw length-pack at (read-Parses (pack 1 n)))
      (rw (unpack-pack1 n h) (pure-Parses n))

pub read_uint16-Parses : (n : ℕ) → n < 65536 → Parses read_uint16 (pack 2 n) n
unfolding read_uint16
read_uint16-Parses n h =
    map-Parses (λ bs. pure (unpack bs)) (rw length-pack at (read-Parses (pack 2 n)))
      (rw (unpack-pack2 n h) (pure-Parses n))

unpack-zero : (bs : Bytes) → unpack (0 ∷ bs) ≡ unpack bs
unfolding unpack unpack_from
unpack-zero bs = refl

pub read_uint24-Parses : (n : ℕ) → n < 16777216 → Parses read_uint24 (pack 3 n) n
unfolding read_uint24
read_uint24-Parses n h =
    map-Parses (λ bs. pure (unpack (0 ∷ bs))) (rw length-pack at (read-Parses (pack 3 n)))
      (rw (unpack-zero (pack 3 n), unpack-pack3 n h) (pure-Parses n))

pub read_uint32-Parses : (n : ℕ) → n < 4294967296 → Parses read_uint32 (pack 4 n) n
unfolding read_uint32
read_uint32-Parses n h =
    map-Parses (λ bs. pure (unpack bs)) (rw length-pack at (read-Parses (pack 4 n)))
      (rw (unpack-pack4 n h) (pure-Parses n))

-- The wire form of a blob with a length of k bytes.
unfoldable pub vector : ℕ → Bytes → Bytes
vector k v = pack k (length v) ++ v

pub read_vector1-Parses : (v : Bytes) → length v < 256 → Parses (read_vector 1) (vector 1 v) v
unfolding read_vector read_length vector
read_vector1-Parses v h = bind-Parses read (read_uint8-Parses (length v) h) (read-Parses v)

pub read_vector2-Parses : (v : Bytes) → length v < 65536 → Parses (read_vector 2) (vector 2 v) v
unfolding read_vector read_length vector
read_vector2-Parses v h = bind-Parses read (read_uint16-Parses (length v) h) (read-Parses v)

pub read_vector3-Parses : (v : Bytes) → length v < 16777216 → Parses (read_vector 3) (vector 3 v) v
unfolding read_vector read_length vector
read_vector3-Parses v h = bind-Parses read (read_uint24-Parses (length v) h) (read-Parses v)

-- The test of the loops, where something or nothing is left.
more-Rest :
    (r : ByteReader) (ys : Bytes) → Rest r ys → 0 < length ys → ltb r.pos (length r.dat) ≡ true
more-Rest r ys h n = lt→ltb r.pos (length r.dat) (omega (arith, length-Rest r ys h))

done-Rest : (r : ByteReader) → Rest r [] → ltb r.pos (length r.dat) ≡ false
done-Rest r h = le→ltb r.pos (length r.dat) (omega (arith, length-Rest r [] h))

pub has_more-Rest : (r : ByteReader) (ys : Bytes) → Rest r ys → 0 < length ys → has_more r ≡ true
unfolding has_more
has_more-Rest r ys h n = more-Rest r ys h n

pub has_more-Rest_nil : (r : ByteReader) → Rest r [] → has_more r ≡ false
unfolding has_more
has_more-Rest_nil r h = done-Rest r h

advance-zero : (r : ByteReader) → advance r 0 ≡ r
advance-zero r = ap (λ n. record r { pos = n }) (omega arith)

advance-advance : (r : ByteReader) (n m : ℕ) → advance (advance r n) m ≡ advance r (n + m)
advance-advance r n m = ap (λ k. record r { pos = k }) (omega arith)

-- The concatenation of the wire forms of the items.
unfoldable pub concat_map : {A : Type 0} → (A → Bytes) → List A → Bytes
concat_map enc [] = []
concat_map enc (x ∷ xs) = enc x ++ concat_map enc xs

module _ {A : Type 0} (item : Read A) (enc : A → Bytes) where
  -- An item that is read back from its wire form, which is not empty.
  abbrev pub Reads : A → Type 0
  Reads x = Parses item (enc x) x × (0 < length (enc x))

  while_more-Parses :
      (xs : List A) (fuel : ℕ) (r : ByteReader)
      → All Reads xs
      → length (concat_map enc xs) ≤ fuel
      → Rest r (concat_map enc xs)
      → while_more fuel item r ≡ (ok xs, advance r (length (concat_map enc xs)))
  unfolding while_more concat_map has_more ◌>>=◌
  while_more-Parses [] zero r a f h = rw (done-Rest r h, advance-zero r)
  while_more-Parses [] (suc fuel) r a f h = rw (done-Rest r h, advance-zero r)
  while_more-Parses (x ∷ xs) zero r a f h =
      absurd (omega (arith, a.0.1, length-append {0} (enc x) (concat_map enc xs)))
  while_more-Parses (x ∷ xs) (suc fuel) r ((p, n), a) f h =
      let ys = concat_map enc xs in
      let whole = length-append {0} (enc x) ys in
      let rest =
        while_more-Parses xs fuel (advance r (length (enc x))) a (omega (arith, whole))
          (Rest-advance r (enc x) ys h) in
      rw (more-Rest r (enc x ++ ys) h (omega (arith, whole)), p.at r ys h, rest)
        (rw (whole, ← advance-advance r (length (enc x)) (length ys)) refl)

  -- A loop over a buffer that holds the wire forms of `xs`, one behind the other, returns `xs`.
  pub read_all-new :
      (xs : List A)
      → All Reads xs
      → read_all item (new_reader (concat_map enc xs))
        ≡ (ok xs, advance (new_reader (concat_map enc xs)) (length (concat_map enc xs)))
  unfolding read_all new_reader
  read_all-new xs a = while_more-Parses xs _ _ a (omega arith) (Rest-new (concat_map enc xs))

  -- The same inside a method of another reader, of which it reads nothing.
  pub on_new-Parses :
      (xs : List A)
      → All Reads xs
      → Parses (on_new (new_reader (concat_map enc xs)) (read_all item)) [] xs
  unfolding on_new
  on_new-Parses xs a = record { at = λ r ys h. rw (read_all-new xs a, advance-zero r) }
