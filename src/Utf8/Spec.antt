-- ===== src/Utf8/Spec.antt =====
-- Well-formed UTF-8, independently of the validator: the encoding form of the Unicode standard
-- (table 3-6) applied to a sequence of scalar values, in plain arithmetic.
use rabbitmq_ai.Common.{
  ℕ, ◌+◌, ◌/◌, ◌%◌, ◌<◌, ◌≤◌, ◌⊎◌, List, [], ◌∷◌, ◌++◌, ltb, if◌then◌else◌, Bytes,
}

-- Code points but for the surrogates.
abbrev pub IsScalar : ℕ → Type 0
IsScalar cp = (cp < 0xD800) ⊎ ((0xE000 ≤ cp) × (cp < 0x110000))

unfoldable pub encode_scalar : ℕ → Bytes
encode_scalar cp =
    if ltb cp 0x80
    then cp ∷ []
    else if ltb cp 0x800
    then (192 + cp / 64) ∷ (128 + cp % 64) ∷ []
    else if ltb cp 0x10000
    then (224 + cp / 4096) ∷ (128 + cp / 64 % 64) ∷ (128 + cp % 64) ∷ []
    else (240 + cp / 262144) ∷ (128 + cp / 4096 % 64) ∷ (128 + cp / 64 % 64) ∷ (128 + cp % 64) ∷ []

unfoldable pub encode_scalars : List ℕ → Bytes
encode_scalars [] = []
encode_scalars (cp ∷ cps) = encode_scalar cp ++ encode_scalars cps
