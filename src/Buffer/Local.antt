-- ===== src/Buffer/Local.antt =====
-- `Local m`: a success of `m` does not depend on the bytes behind those that it consumed.
use rabbitmq_ai.Common.{
  Bool, true, false, if◌then◌else◌, ℕ, ◌+◌, ◌≤◌, ◌≡◌, refl, sym, inl, inr, subst, fun_ext, ◌++◌,
  arith, Bytes, length, take, lt_or_le, take-drop-append, get_or-append,
}
use rabbitmq_ai.Result.{Result, ok, err}
use rabbitmq_ai.Buffer.{
  BufferReader, Read, remaining, pure, lift, and_then, ◌>>=◌, read_raw, read_byte, borrow,
}
use rabbitmq_ai.Buffer.Reads.{IsBounded, unread}
use rabbitmq_ai.Buffer.Bounds.{
  Careful-read_raw, Careful-read_byte, read_raw_short, read_raw_fits, read_byte_short,
  read_byte_fits, borrow-eq-read_raw,
}

-- The same cursor in a buffer that goes on with `more`.
abbrev pub extend : Bytes → BufferReader → BufferReader
extend more r = record r { data_ = r.data_ ++ more; size_ = r.size_ + length more }

pub record Local {ℓ} {A : Type ℓ} (m : Read A) : Type ℓ where
  pub bounds : (r : BufferReader) → IsBounded r → IsBounded (m r).1
  pub at :
      (r : BufferReader) (more : Bytes) (a : A) (r' : BufferReader)
      → IsBounded r
      → m r ≡ (ok a, r')
      → m (extend more r) ≡ (ok a, extend more r')

module _ {ℓ} {A : Type ℓ} where
  pub Local-pure : (a : A) → Local (pure a)
  unfolding pure
  Local-pure a = record { bounds = λ r b. b; at = λ r more a' r' b h. ground arith }

  pub Local-lift : (x : Result A) → Local (lift x)
  unfolding lift
  Local-lift x = record { bounds = λ r b. b; at = λ r more a' r' b h. ground arith }

module _ {ℓ} {A : Type ℓ} where
  pub Local-if : (b : Bool) (m n : Read A) → Local m → Local n → Local (if b then m else n)
  Local-if true m n h k = h
  Local-if false m n h k = k

module _ {ℓ κ} {A : Type ℓ} {B : Type κ} where
  and_then-Local :
      (x : Result A) (f : A → Read B) (m : Read A) (r r₁ : BufferReader) (more : Bytes) (c : B)
      (r' : BufferReader)
      → m r ≡ (x, r₁)
      → Local m
      → ((a : A) → Local (f a))
      → IsBounded r
      → and_then x f r₁ ≡ (ok c, r')
      → (m >>= f) (extend more r) ≡ (ok c, extend more r')
  unfolding ◌>>=◌
  and_then-Local (ok a) f m r r₁ more c r' e h k b q =
      let inside : IsBounded r₁ = subst (λ p. IsBounded p.1) e (h.bounds r b) in
      rw (h.at r more a r₁ b e) ((k a).at r₁ more c r' inside q)
  and_then-Local (err x) f m r r₁ more c r' e h k b q = cc

  and_then-bounds :
      (x : Result A) (f : A → Read B) (r : BufferReader)
      → ((a : A) → Local (f a))
      → IsBounded r
      → IsBounded (and_then x f r).1
  unfolding and_then
  and_then-bounds (ok a) f r k b = (k a).bounds r b
  and_then-bounds (err e) f r k b = b

  pub Local-bind :
      (m : Read A) (f : A → Read B) → Local m → ((a : A) → Local (f a)) → Local (m >>= f)
  unfolding ◌>>=◌
  Local-bind m f h k = record {
    bounds = λ r b. let (x, r₁) = m r in and_then-bounds x f r₁ k (h.bounds r b);
    at = λ r more c r' b q. let (x, r₁) = m r in and_then-Local x f m r r₁ more c r' refl h k b q;
  }

module _ {ℓ κ} {A : Type ℓ} {C : Type κ} where
  pub Local-map : (m : Read A) (k : A → C) → Local m → Local (m >>= λ x. pure (k x))
  Local-map m k h = Local-bind m _ h (λ x. Local-pure (k x))

module _ {ℓ κ ι} {A : Type ℓ} {B : Type κ} {C : Type ι} where
  pub Local-two :
      (m : Read A) (n : Read B) (k : A → B → C)
      → Local m
      → Local n
      → Local (m >>= λ x. n >>= λ y. pure (k x y))
  Local-two m n k h i = Local-bind m _ h (λ x. Local-map n (k x) i)

module _ (r : BufferReader) (more : Bytes) (n : ℕ) (b : IsBounded r) (h : n ≤ remaining r) where
  still_fits : n ≤ remaining (extend more r)
  still_fits = omega (arith, b.within)

  same_bytes_taken : take n (unread (extend more r)) ≡ take n (unread r)
  same_bytes_taken = take-drop-append r.pos_ n r.data_ more (omega (arith, b.within))

pub Local-read_raw : (n : ℕ) → Local (read_raw n)
Local-read_raw n = record {
  bounds = λ r b. ((Careful-read_raw n).at r b).bounded;
  at = λ r more a r' b q. elim (lt_or_le (remaining r) n) [
    | inl short ↦ cc (read_raw_short n r short)
    | inr fits ↦ cc (
      read_raw_fits n r fits,
      read_raw_fits n (extend more r) (still_fits r more n b fits),
      same_bytes_taken r more n b fits,
    )
  ];
}

pub Local-borrow : (n : ℕ) → Local (borrow n)
Local-borrow n = subst Local (sym (fun_ext (borrow-eq-read_raw n))) (Local-read_raw n)

pub Local-read_byte : Local read_byte
Local-read_byte = record {
  bounds = λ r b. (Careful-read_byte.at r b).bounded;
  at = λ r more a r' b q. elim (lt_or_le (remaining r) 1) [
    | inl short ↦ cc (read_byte_short 1 r short)
    | inr fits ↦ cc (
      read_byte_fits 1 r fits,
      read_byte_fits 1 (extend more r) (still_fits r more 1 b fits),
      get_or-append r.pos_ r.data_ more 0 (omega (arith, b.within)),
    )
  ];
}
