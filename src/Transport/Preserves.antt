-- ===== src/Transport/Preserves.antt =====
-- What a program keeps of its world, whatever it gives.
use rabbitmq_ai.Common.{◌≡◌, refl, subst, Option, none, some}
use rabbitmq_ai.Result.{Result, ok, err}
use rabbitmq_ai.Transport.{Io, from, continue, ◌>>=◌}
use rabbitmq_ai.Transport.Simulates.{Related, Simulates}

module _ {W : Type 0} (P : W → Type 0) where
  abbrev pub Keeps : {A : Type 0} → Option (Result A × W) → Type 0
  Keeps none = Unit
  Keeps (some (_, w)) = P w

  pub record Preserves {A : Type 0} (m : Io W A) : Type 0 where
    pub at : (w : W) → P w → Keeps (m w)

  pub Preserves-from : {A : Type 0} (x : Result A) → Preserves (from x)
  unfolding from
  Preserves-from x = record { at = λ w p. p }

  module _ {A B : Type 0} (f : A → Io W B) (h : (a : A) → Preserves (f a)) where
    Keeps-continue : (q : Option (Result A × W)) → Keeps q → Keeps (continue f q)
    unfolding continue
    Keeps-continue none k = tt
    Keeps-continue (some (ok a, w)) k = (h a).at w k
    Keeps-continue (some (err e, w)) k = k

  pub Preserves-bind :
      {A B : Type 0} {m : Io W A} {f : A → Io W B}
      → Preserves m
      → ((a : A) → Preserves (f a))
      → Preserves (m >>= f)
  unfolding ◌>>=◌
  Preserves-bind {m = m} {f = f} s h = record { at = λ w p. Keeps-continue f h (m w) (s.at w p) }

  -- One world, twice.
  abbrev pub Same : W → W → Type 0
  Same w w' = (w ≡ w') × P w

  Related-Same : {A : Type 0} (q : Option (Result A × W)) → Keeps q → Related Same q q
  Related-Same none k = tt
  Related-Same (some (x, w)) k = (w, refl, (refl, k))

  Keeps-Same : {A : Type 0} (q q' : Option (Result A × W)) → Related Same q q' → Keeps q
  Keeps-Same none q' r = tt
  Keeps-Same (some (x, w)) q' (w', e, s) = s.1

  pub Simulates-Same : {A : Type 0} (m : Io W A) → Preserves m → Simulates Same m m
  Simulates-Same m h = record {
    at = λ w w' r. subst (λ v. Related Same (m w) (m v)) r.0 (Related-Same (m w) (h.at w r.1));
  }

  pub Preserves-Same : {A : Type 0} (m : Io W A) → Simulates Same m m → Preserves m
  Preserves-Same m h = record { at = λ w p. Keeps-Same (m w) (m w) (h.at w w (refl, p)) }
