-- ===== src/Buffer/Reads.antt =====
-- `Reads m xs a`: from any cursor in front of the bytes `xs`, the decoder `m` yields `a` and consumes
-- exactly `xs`. One rule for each way to build a decoder.
use rabbitmq_ai.Common.{
  Bool, true, false, if◌then◌else◌, ℕ, ◌+◌, ◌≤◌, ◌<◌, ◌≡◌, refl, sym, ap, ◌∙◌, subst, append-nil,
  [], ◌∷◌, ◌++◌, append_assoc, arith, Bytes, length, drop, length-append, length-drop,
  take-length-append, drop-length-append, drop-drop, get_or-drop,
}
use rabbitmq_ai.Errors.{StreamError}
use rabbitmq_ai.Result.{Result, ok, err}
use rabbitmq_ai.Buffer.{
  BufferReader, Read, new_reader, remaining, empty, gets, pure, lift, ◌>>=◌, read_raw, read_byte,
  borrow,
}

-- The cursor lies inside its buffer.
pub record IsBounded (r : BufferReader) : Type 0 where
  pub sized : r.size_ ≡ length r.data_
  pub within : r.pos_ ≤ r.size_

abbrev pub unread : BufferReader → Bytes
unread r = drop r.pos_ r.data_

abbrev pub advance : ℕ → BufferReader → BufferReader
advance n r = record r { pos_ = r.pos_ + n }

pub new_reader-IsBounded : (v : Bytes) → IsBounded (new_reader v)
unfolding new_reader
new_reader-IsBounded v = record { sized = refl; within = omega arith }

pub remaining-length : (r : BufferReader) → IsBounded r → remaining r ≡ length (unread r)
remaining-length r b = omega (arith, length-drop r.pos_ r.data_)

module _ (r : BufferReader) (xs rest : Bytes) (b : IsBounded r) (e : unread r ≡ xs ++ rest) where
  pub enough : length xs ≤ remaining r
  enough = omega (arith, remaining-length r b, ap length e, length-append xs rest)

  pub advance-IsBounded : IsBounded (advance (length xs) r)
  advance-IsBounded = record { sized = b.sized; within = omega (arith, enough) }

  pub unread-advance : unread (advance (length xs) r) ≡ rest
  unread-advance =
      sym (drop-drop r.pos_ (length xs) r.data_)
      ∙ ap (drop (length xs)) e
      ∙ drop-length-append xs rest

pub record Reads {ℓ} {A : Type ℓ} (m : Read A) (xs : Bytes) (a : A) : Type ℓ where
  pub at :
      (r : BufferReader) (rest : Bytes)
      → IsBounded r
      → unread r ≡ xs ++ rest
      → m r ≡ (ok a, advance (length xs) r)

advance-zero : (r : BufferReader) → advance 0 r ≡ r
advance-zero r = ground arith

module _ {ℓ} {A : Type ℓ} where
  pub Reads-pure : (a : A) → Reads (pure a) [] a
  unfolding pure
  Reads-pure a = record { at = λ r rest b e. ground (arith, advance-zero r) }

  pub Reads-lift : (x : Result A) (a : A) → x ≡ ok a → Reads (lift x) [] a
  unfolding lift
  Reads-lift x a h = record { at = λ r rest b e. ground (arith, advance-zero r) }

module _ {ℓ} {A : Type ℓ} where
  pub Reads-else :
      (b : Bool) (m n : Read A) (xs : Bytes) (a : A)
      → b ≡ false
      → Reads n xs a
      → Reads (if b then m else n) xs a
  Reads-else true m n xs a e h = cc
  Reads-else false m n xs a e h = h

module _ {ℓ κ} {A : Type ℓ} {B : Type κ} where
  pub Reads-bind :
      (m : Read A) (f : A → Read B) (xs ys : Bytes) (a : A) (b : B)
      → Reads m xs a
      → Reads (f a) ys b
      → Reads (m >>= f) (xs ++ ys) b
  unfolding ◌>>=◌
  Reads-bind m f xs ys a b p q = record {
    at = λ r rest i e.
        let e' : unread r ≡ xs ++ (ys ++ rest) = e ∙ append_assoc xs ys rest in
        let next : f a (advance (length xs) r)
            ≡ (ok b, advance (length ys) (advance (length xs) r)) =
          q.at _ rest (advance-IsBounded r xs (ys ++ rest) i e')
            (unread-advance r xs (ys ++ rest) i e') in
        ground (arith, p.at r (ys ++ rest) i e', next, length-append xs ys);
  }

pub Reads-read_raw : (xs : Bytes) → Reads (read_raw (length xs)) xs xs
unfolding read_raw
Reads-read_raw xs = record {
  at = λ r rest b e. ground (arith, enough r xs rest b e, take-length-append xs rest);
}

pub Reads-borrow : (xs : Bytes) → Reads (borrow (length xs)) xs xs
unfolding borrow
Reads-borrow xs = record {
  at = λ r rest b e. ground (arith, enough r xs rest b e, take-length-append xs rest);
}

pub Reads-read_byte : (x : ℕ) → Reads read_byte (x ∷ []) x
unfolding read_byte
Reads-read_byte x = record {
  at = λ r rest b e. ground (arith, enough r (x ∷ []) rest b e, get_or-drop r.pos_ r.data_ 0);
}

pub Reads-map {ℓ κ} :
    {A : Type ℓ} {B : Type κ} (m : Read A) (k : A → B) (xs : Bytes) (a : A)
    → Reads m xs a
    → Reads (m >>= λ x. pure (k x)) xs (k a)
Reads-map m k xs a h =
    subst (λ t. Reads (m >>= λ x. pure (k x)) t (k a)) (append-nil xs)
      (Reads-bind m (λ x. pure (k x)) xs [] a (k a) h (Reads-pure (k a)))

-- A decoder that refuses an empty input reads one byte at least.
pub Reads-nonempty {ℓ} :
    {A : Type ℓ} (m : Read A) (xs : Bytes) (a : A) (e : StreamError) (r : BufferReader)
    → Reads m xs a
    → m (new_reader []) ≡ (err e, r)
    → 0 < length xs
unfolding new_reader
Reads-nonempty m [] a e r h refuses = cc (h.at (new_reader []) [] (new_reader-IsBounded []) refl)
Reads-nonempty m (x ∷ xs) a e r h refuses = omega arith

-- `if (!r.empty()) { … }`, where bytes are left.
pub Reads-unless_empty {ℓ κ} :
    {A : Type ℓ} {B : Type κ} (m n : Read A) (k : A → Read B) (xs : Bytes) (b : B)
    → 0 < length xs
    → Reads (n >>= k) xs b
    → Reads (gets (λ r. empty r) >>= λ done. (if done then m else n) >>= k) xs b
unfolding ◌>>=◌ gets
Reads-unless_empty m n k xs b h p = record {
  at = λ r rest i e.
      let left : empty r ≡ false = ground (arith, enough r xs rest i e) in
      rw left (p.at r rest i e);
}
