-- ===== src/Buffer/Bounds.antt =====
-- `Careful P m`: whatever the input, `m` leaves the cursor inside the same buffer, never moves it
-- back, and fails with errors in `P` only. One rule for each way to build a decoder.
use rabbitmq_ai.Common.{
  Bool, true, false, if◌then◌else◌, ℕ, ◌≤◌, ◌<◌, ◌≡◌, refl, ◌∙◌, inl, inr, arith, take, get_or,
  lt_or_le, text,
}
use rabbitmq_ai.Errors.{Kind, StreamError, stream_error}
use rabbitmq_ai.Result.{Result, ok, err}
use rabbitmq_ai.Buffer.{
  BufferReader, Read, remaining, pure, gets, lift, and_then, ◌>>=◌, read_raw, read_byte, borrow,
}
use rabbitmq_ai.Buffer.Reads.{IsBounded, unread, advance}

abbrev pub IsDecodeError : StreamError → Type 0
IsDecodeError e = e.kind ≡ Kind.decode_error

-- An outcome `p` of a read that began at `r`.
pub record Ends {ℓ} {A : Type ℓ} (P : StreamError → Type 0) (r : BufferReader)
    (p : Result A × BufferReader) : Type ℓ where
  pub bounded : IsBounded p.1
  pub same : p.1.data_ ≡ r.data_
  pub forward : r.pos_ ≤ p.1.pos_
  pub failure : (e : StreamError) → p.0 ≡ err e → P e

pub record Careful {ℓ} {A : Type ℓ} (P : StreamError → Type 0) (m : Read A) : Type ℓ where
  pub at : (r : BufferReader) → IsBounded r → Ends P r (m r)

module _ {ℓ} {A : Type ℓ} {P : StreamError → Type 0} where
  pub Careful-pure : (a : A) → Careful P (pure a)
  unfolding pure
  Careful-pure a = record {
    at = λ r b. record { bounded = b; same = refl; forward = omega arith; failure = λ e h. cc };
  }

  pub Careful-gets : (g : BufferReader → A) → Careful P (gets g)
  unfolding gets
  Careful-gets g = record {
    at = λ r b. record { bounded = b; same = refl; forward = omega arith; failure = λ e h. cc };
  }

  pub Careful-lift : (x : Result A) → ((e : StreamError) → x ≡ err e → P e) → Careful P (lift x)
  unfolding lift
  Careful-lift x h = record {
    at = λ r b. record { bounded = b; same = refl; forward = omega arith; failure = h };
  }

module _ {ℓ} {A : Type ℓ} {P : StreamError → Type 0} where
  pub Careful-if :
      (b : Bool) (m n : Read A) → Careful P m → Careful P n → Careful P (if b then m else n)
  Careful-if true m n h k = h
  Careful-if false m n h k = k

module _ {ℓ κ} {A : Type ℓ} {B : Type κ} {P : StreamError → Type 0} where
  and_then-Ends :
      (x : Result A) (f : A → Read B) (r r' : BufferReader)
      → Ends P r (x, r')
      → ((a : A) → Careful P (f a))
      → Ends P r (and_then x f r')
  unfolding and_then
  and_then-Ends (ok a) f r r' h k =
      let next = (k a).at r' h.bounded in
      record {
        bounded = next.bounded;
        same = next.same ∙ h.same;
        forward = omega (arith, next.forward, h.forward);
        failure = next.failure;
      }
  and_then-Ends (err e) f r r' h k = record {
    bounded = h.bounded;
    same = h.same;
    forward = h.forward;
    failure = λ e' q. h.failure e' (ground arith);
  }

  pub Careful-bind :
      (m : Read A) (f : A → Read B)
      → Careful P m
      → ((a : A) → Careful P (f a))
      → Careful P (m >>= f)
  unfolding ◌>>=◌
  Careful-bind m f h k = record {
    at = λ r b. let (x, r') = m r in and_then-Ends x f r r' (h.at r b) k;
  }

-- Structs of one, two and three fields.
module _ {ℓ κ} {A : Type ℓ} {C : Type κ} {P : StreamError → Type 0} where
  pub Careful-map : (m : Read A) (k : A → C) → Careful P m → Careful P (m >>= λ x. pure (k x))
  Careful-map m k h = Careful-bind m _ h (λ x. Careful-pure (k x))

module _ {ℓ κ ι} {A : Type ℓ} {B : Type κ} {C : Type ι} {P : StreamError → Type 0} where
  pub Careful-two :
      (m : Read A) (n : Read B) (k : A → B → C)
      → Careful P m
      → Careful P n
      → Careful P (m >>= λ x. n >>= λ y. pure (k x y))
  Careful-two m n k h i = Careful-bind m _ h (λ x. Careful-map n (k x) i)

pub advanced : (n : ℕ) (r : BufferReader) → IsBounded r → n ≤ remaining r → IsBounded (advance n r)
advanced n r b h = record { sized = b.sized; within = omega (arith, b.within) }

abbrev pub truncated : StreamError
truncated = stream_error Kind.decode_error (text "truncated input")

module _ (n : ℕ) (r : BufferReader) where
  pub read_raw_short : remaining r < n → read_raw n r ≡ (err truncated, r)
  unfolding read_raw
  read_raw_short h = ground arith

  pub read_raw_fits : n ≤ remaining r → read_raw n r ≡ (ok (take n (unread r)), advance n r)
  unfolding read_raw
  read_raw_fits h = ground arith

  pub read_byte_short : remaining r < 1 → read_byte r ≡ (err truncated, r)
  unfolding read_byte
  read_byte_short h = ground arith

  pub read_byte_fits : 1 ≤ remaining r → read_byte r ≡ (ok (get_or r.data_ r.pos_ 0), advance 1 r)
  unfolding read_byte
  read_byte_fits h = ground arith

  pub borrow-eq-read_raw : borrow n r ≡ read_raw n r
  unfolding borrow read_raw
  borrow-eq-read_raw = refl

-- An outcome that consumes `n` bytes, or that leaves the cursor and fails.
module _ {ℓ} {A : Type ℓ} (n : ℕ) (r : BufferReader) (b : IsBounded r) where
  Ends-advance : (a : A) → n ≤ remaining r → Ends IsDecodeError r (ok a, advance n r)
  Ends-advance a h = record {
    bounded = advanced n r b h;
    same = refl;
    forward = omega arith;
    failure = λ e q. cc;
  }

  Ends-stay : Ends {A = A} IsDecodeError r (err truncated, r)
  Ends-stay = record {
    bounded = b;
    same = refl;
    forward = omega arith;
    failure = λ e q. ground arith;
  }

pub Careful-read_raw : (n : ℕ) → Careful IsDecodeError (read_raw n)
Careful-read_raw n = record {
  at = λ r b. elim (lt_or_le (remaining r) n) [
    | inl short ↦ rw (read_raw_short n r short) (Ends-stay n r b)
    | inr fits ↦ rw (read_raw_fits n r fits) (Ends-advance n r b _ fits)
  ];
}

pub Careful-borrow : (n : ℕ) → Careful IsDecodeError (borrow n)
Careful-borrow n = record { at = λ r b. rw (borrow-eq-read_raw n r) ((Careful-read_raw n).at r b) }

pub Careful-read_byte : Careful IsDecodeError read_byte
Careful-read_byte = record {
  at = λ r b. elim (lt_or_le (remaining r) 1) [
    | inl short ↦ rw (read_byte_short 1 r short) (Ends-stay 1 r b)
    | inr fits ↦ rw (read_byte_fits 1 r fits) (Ends-advance 1 r b _ fits)
  ];
}
