-- ===== src/Codec/Truncated.antt =====
-- A decoder that carries a value refuses every proper prefix of the bytes that carry it.
use rabbitmq_ai.Common.{
  ℕ, ◌≡◌, refl, sym, ap, ◌∙◌, subst, [], ◌∷◌, ◌++◌, append-nil, arith, Bytes, length, length-append,
}
use rabbitmq_ai.Result.{Result, ok, err}
use rabbitmq_ai.Buffer.{BufferReader, Read, new_reader}
use rabbitmq_ai.Buffer.Reads.{advance, new_reader-IsBounded}
use rabbitmq_ai.Buffer.Bounds.{IsDecodeError, Ends, Careful}
use rabbitmq_ai.Buffer.Local.{Local, extend}
use rabbitmq_ai.Codec.{Write}
use rabbitmq_ai.Codec.Carries.{Carries, encoded, Carries-run}

-- The outcome is a refusal of kind DecodeError.
abbrev pub RefusesDecode {ℓ} : {A : Type ℓ} → Result A → Type 0
RefusesDecode (ok a) = ⊥
RefusesDecode (err e) = IsDecodeError e

extend-new_reader : (xs ys : Bytes) → extend ys (new_reader xs) ≡ new_reader (xs ++ ys)
unfolding new_reader
extend-new_reader xs ys = ground (arith, length-append xs ys)

module _ {ℓ} {A : Type ℓ} where
  refuses_of_err :
      (p : Result A × BufferReader) (r : BufferReader)
      → Ends IsDecodeError r p
      → ((a : A) → p.0 ≡ ok a → ⊥)
      → RefusesDecode p.0
  refuses_of_err (ok a, r') r h no_value = no_value a refl
  refuses_of_err (err e, r') r h no_value = h.failure e refl

  -- Had the prefix a value, the whole would have it too, at the same position.
  same_position :
      (f : Write) (m : Read A) (a b : A) (front rest : Bytes) (r' : BufferReader)
      → Carries f m a
      → Local m
      → encoded f ≡ front ++ rest
      → m (new_reader front) ≡ (ok b, r')
      → r'.pos_ ≡ length (encoded f)
  unfolding new_reader
  same_position f m a b front rest r' c l e q =
      let short : m (new_reader (front ++ rest)) ≡ (ok b, extend rest r') =
        subst (λ r. m r ≡ (ok b, extend rest r')) (extend-new_reader front rest)
          (l.at (new_reader front) rest b r' (new_reader-IsBounded front) q) in
      let whole : m (new_reader (front ++ rest))
          ≡ (ok a, advance (length (encoded f)) (new_reader (front ++ rest))) =
        subst (λ t. m (new_reader t) ≡ (ok a, advance (length (encoded f)) (new_reader t)))
          (append-nil (encoded f) ∙ e) (Carries-run f m a [] c) in
      omega (arith, ap (λ p. p.1.pos_) (sym short ∙ whole))

  pub Carries-truncated :
      (f : Write) (m : Read A) (a : A) (front back : Bytes) (x : ℕ)
      → Carries f m a
      → Local m
      → Careful IsDecodeError m
      → encoded f ≡ front ++ x ∷ back
      → RefusesDecode (m (new_reader front)).0
  unfolding new_reader
  Carries-truncated f m a front back x c l k e =
      let ends = k.at (new_reader front) (new_reader-IsBounded front) in
      refuses_of_err (m (new_reader front)) (new_reader front) ends λ b q. omega (
        arith,
        same_position f m a b front (x ∷ back) (m (new_reader front)).1 c l e
            (λ i. (q i, (m (new_reader front)).1)),
        ends.bounded.within,
        ends.bounded.sized,
        ap length ends.same,
        ap length e,
        length-append front (x ∷ back),
      )
