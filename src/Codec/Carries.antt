-- ===== src/Codec/Carries.antt =====
-- `Carries f m a`: the encoder `f` appends bytes that the decoder `m` reads back as `a`, whatever
-- follows them. The rules follow the way that encoders and decoders are put together.
use rabbitmq_ai.Common.{
  if◌then◌else◌, ℕ, ◌≡◌, refl, ap, ◌∙◌, subst, [], ◌∷◌, ◌++◌, append_assoc, append-nil, arith,
  Bytes, length,
}
use rabbitmq_ai.Errors.{StreamError}
use rabbitmq_ai.Result.{ok, err}
use rabbitmq_ai.Buffer.{
  BufferWriter, new_writer, write_raw, write_byte, BufferReader, Read, new_reader, empty, gets,
  pure, and_then, ◌>>=◌,
}
use rabbitmq_ai.Buffer.Reads.{
  advance, Reads, Reads-pure, Reads-bind, Reads-nonempty, Reads-unless_empty, new_reader-IsBounded,
}
use rabbitmq_ai.Codec.{Write}

-- The encoder `f` appends exactly `xs`.
pub record Writes (f : Write) (xs : Bytes) : Type 0 where
  pub at : (w : BufferWriter) → (f w).data_ ≡ w.data_ ++ xs

-- What an encoder leaves in a fresh buffer.
abbrev pub encoded : Write → Bytes
encoded f = (f new_writer).data_

pub encoded-Writes : (f : Write) (xs : Bytes) → Writes f xs → encoded f ≡ xs
encoded-Writes f xs h = h.at new_writer

pub Writes-byte : (b : ℕ) → Writes (write_byte b) (b ∷ [])
unfolding write_byte
Writes-byte b = record { at = λ w. refl }

pub Writes-raw : (xs : Bytes) → Writes (write_raw xs) xs
unfolding write_raw
Writes-raw xs = record { at = λ w. refl }

pub Writes-skip : Writes (λ w. w) []
Writes-skip = record { at = λ w. ground (arith, append-nil w.data_) }

pub Writes-then :
    (f g : Write) (xs ys : Bytes) → Writes f xs → Writes g ys → Writes (λ w. g (f w)) (xs ++ ys)
Writes-then f g xs ys p q = record {
  at = λ w. q.at (f w) ∙ ap (λ t. t ++ ys) (p.at w) ∙ append_assoc w.data_ xs ys;
}

pub record Carries {ℓ} {A : Type ℓ} (f : Write) (m : Read A) (a : A) : Type ℓ where
  pub wire : Bytes
  pub writes : Writes f wire
  pub reads : Reads m wire a

module _ {ℓ} {A : Type ℓ} where
  -- A decoder applied to what the encoder wrote yields the value and stops behind it.
  pub Carries-run :
      (f : Write) (m : Read A) (a : A) (rest : Bytes)
      → Carries f m a
      → m (new_reader (encoded f ++ rest))
        ≡ (ok a, advance (length (encoded f)) (new_reader (encoded f ++ rest)))
  unfolding new_reader
  Carries-run f m a rest c =
      rw (encoded-Writes f c.wire c.writes)
        (c.reads.at (new_reader (c.wire ++ rest)) rest (new_reader-IsBounded (c.wire ++ rest)) refl)

  pub Carries-pure : (a : A) → Carries (λ w. w) (pure a) a
  Carries-pure a = record { wire = []; writes = Writes-skip; reads = Reads-pure a }

module _ {ℓ κ} {A : Type ℓ} {B : Type κ} where
  pub Carries-bind :
      (f g : Write) (m : Read A) (k : A → Read B) (a : A) (b : B)
      → Carries f m a
      → Carries g (k a) b
      → Carries (λ w. g (f w)) (m >>= k) b
  Carries-bind f g m k a b c d = record {
    wire = c.wire ++ d.wire;
    writes = Writes-then f g c.wire d.wire c.writes d.writes;
    reads = Reads-bind m k c.wire d.wire a b c.reads d.reads;
  }

  -- What the decoder does after its last read consumes nothing.
  pub Carries-end :
      (f : Write) (m : Read A) (k : A → Read B) (a : A) (b : B)
      → Carries f m a
      → Reads (k a) [] b
      → Carries f (m >>= k) b
  Carries-end f m k a b c e = record {
    wire = c.wire;
    writes = c.writes;
    reads =
        subst (λ t. Reads (m >>= k) t b) (append-nil c.wire)
          (Reads-bind m k c.wire [] a b c.reads e);
  }

  pub Carries-map :
      (f : Write) (m : Read A) (k : A → B) (a : A)
      → Carries f m a
      → Carries f (m >>= λ x. pure (k x)) (k a)
  Carries-map f m k a c = Carries-end f m (λ x. pure (k x)) a (k a) c (Reads-pure (k a))

-- Structs of two and three fields.
module _ {ℓ κ ι} {A : Type ℓ} {B : Type κ} {C : Type ι} where
  pub Carries-two :
      (f g : Write) (m : Read A) (n : Read B) (k : A → B → C) (a : A) (b : B)
      → Carries f m a
      → Carries g n b
      → Carries (λ w. g (f w)) (m >>= λ x. n >>= λ y. pure (k x y)) (k a b)
  Carries-two f g m n k a b c d =
      Carries-bind f g m (λ x. n >>= λ y. pure (k x y)) a (k a b) c (Carries-map g n (k a) b d)

module _ {ℓ κ ι υ} {A : Type ℓ} {B : Type κ} {C : Type ι} {D : Type υ} where
  pub Carries-three :
      (f g h : Write) (m : Read A) (n : Read B) (p : Read C) (k : A → B → C → D) (a : A) (b : B)
      (c : C)
      → Carries f m a
      → Carries g n b
      → Carries h p c
      → Carries (λ w. h (g (f w))) (m >>= λ x. n >>= λ y. p >>= λ z. pure (k x y z)) (k a b c)
  Carries-three f g h m n p k a b c u v w =
      Carries-bind f (λ t. h (g t)) m (λ x. n >>= λ y. p >>= λ z. pure (k x y z)) a (k a b c) u
        (Carries-two g h n p (k a) b c v w)

refuses_bind {ℓ κ} :
    {A : Type ℓ} {B : Type κ} (n : Read A) (k : A → Read B) (e : StreamError) (r : BufferReader)
    → n (new_reader []) ≡ (err e, r)
    → (n >>= k) (new_reader []) ≡ (err e, r)
unfolding ◌>>=◌
refuses_bind n k e r h = rw (h, and_then) refl

-- `if (!r.empty()) { … }` before a read that refuses an empty input.
pub Carries-unless_empty {ℓ κ} :
    {A : Type ℓ} {B : Type κ} (f : Write) (m n : Read A) (k : A → Read B) (b : B) (e : StreamError)
    (r : BufferReader)
    → n (new_reader []) ≡ (err e, r)
    → Carries f (n >>= k) b
    → Carries f (gets (λ r. empty r) >>= λ done. (if done then m else n) >>= k) b
Carries-unless_empty f m n k b e r refuses c = record {
  wire = c.wire;
  writes = c.writes;
  reads =
      Reads-unless_empty m n k c.wire b
        (Reads-nonempty (n >>= k) c.wire b e r c.reads (refuses_bind n k e r refuses)) c.reads;
}
