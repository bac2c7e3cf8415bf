-- ===== src/Transport/Simulates.antt =====
-- One program over two transports. A relation between their worlds that every write and every read
-- keeps is kept by the programs that are built of these.
use rabbitmq_ai.Common.{
  ◌≡◌, refl, sym, ap, subst, Bool, true, false, Option, none, some, Bytes, if◌then◌else◌,
}
use rabbitmq_ai.Errors.{StreamError}
use rabbitmq_ai.Result.{Result, ok, err}
use rabbitmq_ai.Transport.{Transport, Io, from, returns, runs_out, continue, ◌>>=◌, stops_if}

module _ {W W' : Type 0} (R : W → W' → Type 0) where
  -- The second gives what the first gives, where that gives anything, and the worlds stay related.
  abbrev pub Related : {A : Type 0} → Option (Result A × W) → Option (Result A × W') → Type 0
  Related none q = Unit
  Related (some (x, w)) q = (w' : W') × (q ≡ some (x, w')) × R w w'

  pub record Simulates {A : Type 0} (m : Io W A) (n : Io W' A) : Type 0 where
    pub at : (w : W) (w' : W') → R w w' → Related (m w) (n w')

  module _ {A : Type 0} where
    pub Simulates-from : (x : Result A) → Simulates (from x) (from x)
    unfolding from
    Simulates-from x = record { at = λ w w' r. (w', refl, r) }

    pub Simulates-returns : (a : A) → Simulates (returns a) (returns a)
    unfolding returns
    Simulates-returns a = record { at = λ w w' r. (w', refl, r) }

    pub Simulates-runs_out : (n : Io W' A) → Simulates runs_out n
    unfolding runs_out
    Simulates-runs_out n = record { at = λ w w' r. tt }

    pub Simulates-if :
        (b : Bool) (m m' : Io W A) (n n' : Io W' A)
        → Simulates m n
        → Simulates m' n'
        → Simulates (if b then m else m') (if b then n else n')
    Simulates-if true m m' n n' h h' = h
    Simulates-if false m m' n n' h h' = h'

  pub Simulates-stops_if : (b : Bool) (e : StreamError) → Simulates (stops_if b e) (stops_if b e)
  unfolding stops_if
  Simulates-stops_if b e = record { at = λ w w' r. (w', refl, r) }

  module _ {A B : Type 0} (f : A → Io W B) (g : A → Io W' B)
      (h : (a : A) → Simulates (f a) (g a)) where
    Related-continue :
        (p : Option (Result A × W)) (q : Option (Result A × W'))
        → Related p q
        → Related (continue f p) (continue g q)
    unfolding continue
    Related-continue none q r = tt
    Related-continue (some (ok a, w)) q (w', e, r) =
        subst (λ o. Related (f a w) (continue g o)) (sym e) ((h a).at w w' r)
    Related-continue (some (err x, w)) q (w', e, r) = (w', ap (continue g) e, r)

  pub Simulates-bind :
      {A B : Type 0} {m : Io W A} {n : Io W' A} {f : A → Io W B} {g : A → Io W' B}
      → Simulates m n
      → ((a : A) → Simulates (f a) (g a))
      → Simulates (m >>= f) (n >>= g)
  unfolding ◌>>=◌
  Simulates-bind {m = m} {n = n} {f = f} {g = g} s h = record {
    at = λ w w' r. Related-continue f g h (m w) (n w') (s.at w w' r);
  }

  -- The transport `u` does to its worlds what `t` does.
  pub record Implements (t : Transport W) (u : Transport W') : Type 0 where
    pub write_all : (bytes : Bytes) → Simulates (t.write_all bytes) (u.write_all bytes)
    pub read_frame : Simulates t.read_frame u.read_frame
