-- ===== src/Buffer/ReadsAt.antt =====
-- `Reads` at one cursor, for decoders that look at the cursor itself.
use rabbitmq_ai.Common.{
  ◌≡◌, refl, ◌∙◌, Bool, false, ◌++◌, append_assoc, arith, Bytes, length, length-append,
}
use rabbitmq_ai.Errors.{StreamError}
use rabbitmq_ai.Result.{ok, err}
use rabbitmq_ai.Buffer.{BufferReader, Read, gets, fail_if, and_then, ◌>>=◌}
use rabbitmq_ai.Buffer.Reads.{IsBounded, Reads, unread, advance, advance-IsBounded, unread-advance}

abbrev pub ReadsAt {ℓ} : {A : Type ℓ} → BufferReader → Read A → Bytes → A → Type ℓ
ReadsAt r m xs a =
    (rest : Bytes) → IsBounded r → unread r ≡ xs ++ rest → m r ≡ (ok a, advance (length xs) r)

module _ {ℓ κ} {A : Type ℓ} {B : Type κ} where
  pub bind-ok :
      (m : Read A) (f : A → Read B) (r r' : BufferReader) (a : A)
      → m r ≡ (ok a, r')
      → (m >>= f) r ≡ f a r'
  unfolding ◌>>=◌
  bind-ok m f r r' a h = rw (h, and_then) refl

  pub bind-err :
      (m : Read A) (f : A → Read B) (r r' : BufferReader) (e : StreamError)
      → m r ≡ (err e, r')
      → (m >>= f) r ≡ (err e, r')
  unfolding ◌>>=◌
  bind-err m f r r' e h = rw (h, and_then) refl

  pub ReadsAt-bind :
      (m : Read A) (f : A → Read B) (xs ys : Bytes) (a : A) (b : B) (r : BufferReader)
      → Reads m xs a
      → ReadsAt (advance (length xs) r) (f a) ys b
      → ReadsAt r (m >>= f) (xs ++ ys) b
  ReadsAt-bind m f xs ys a b r p q rest i e =
      let e' : unread r ≡ xs ++ (ys ++ rest) = e ∙ append_assoc xs ys rest in
      let next : f a (advance (length xs) r) ≡ (ok b, advance (length ys) (advance (length xs) r)) =
        q rest (advance-IsBounded r xs (ys ++ rest) i e') (unread-advance r xs (ys ++ rest) i e') in
      ground (
        arith,
        bind-ok m f r (advance (length xs) r) a (p.at r (ys ++ rest) i e'),
        next,
        length-append xs ys,
      )

  pub ReadsAt-gets :
      (g : BufferReader → A) (k : A → Read B) (xs : Bytes) (b : B) (r : BufferReader)
      → ReadsAt r (k (g r)) xs b
      → ReadsAt r (gets g >>= k) xs b
  ReadsAt-gets g k xs b r h rest i e =
      bind-ok (gets g) k r r (g r) (unfold gets in refl) ∙ h rest i e

module _ {κ} {B : Type κ} where
  pub ReadsAt-fail_if :
      (b : Bool) (x : StreamError) (k : Unit {0} → Read B) (xs : Bytes) (c : B) (r : BufferReader)
      → b ≡ false
      → ReadsAt r (k tt) xs c
      → ReadsAt r (fail_if b x >>= k) xs c
  ReadsAt-fail_if b x k xs c r f h rest i e =
      bind-ok (fail_if b x) k r r tt (unfold fail_if in rw f refl) ∙ h rest i e
