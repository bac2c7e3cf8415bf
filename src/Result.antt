-- ===== src/Result.antt =====
-- include/stream/result.hpp over third_party/rmqstream/expected_like.hpp: a value or a StreamError.
-- `if (auto r = e; !r) return err(r.error())` is the bind below.
use rabbitmq_ai.Common.{◌≡◌, refl, ◌⊎◌, inl, inr, Bool, true, false}
use rabbitmq_ai.Errors.{StreamError}

pub data Result {ℓ} (A : Type ℓ) : Type ℓ where
  ok : A → Result A
  err : StreamError → Result A

abbrev pub is_ok {ℓ} : {A : Type ℓ} → Result A → Bool
is_ok (ok a) = true
is_ok (err e) = false

infixl 5 ◌>>=◌ ◌>>◌
abbrev pub ◌>>=◌ {ℓ κ} : {T : Type ℓ} {U : Type κ} → Result T → (T → Result U) → Result U
err failure >>= next = err failure
ok value >>= next = next value

abbrev pub ◌>>◌ {κ} : {U : Type κ} → Result (Unit {0}) → Result U → Result U
done >> rest = done >>= λ _. rest

pub Result-cases {ℓ} :
    {A : Type ℓ} (x : Result A) → ((a : A) × (x ≡ ok a)) ⊎ ((e : StreamError) × (x ≡ err e))
Result-cases (ok a) = inl (a, refl)
Result-cases (err e) = inr (e, refl)
