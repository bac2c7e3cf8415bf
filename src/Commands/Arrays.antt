-- ===== src/Commands/Arrays.antt =====
-- Arrays of strings and of pairs: round trip, bounds and locality.
use rabbitmq_ai.Common.{
  ℕ, zero, suc, subst, List, [], ◌∷◌, ◌++◌, append-nil, append_assoc, Bytes, length, All,
}
use rabbitmq_ai.Buffer.Bounds.{IsDecodeError, Careful, Careful-pure, Careful-bind}
use rabbitmq_ai.Buffer.Local.{Local, Local-pure, Local-bind}
use rabbitmq_ai.Codec.{write_string, read_string_required, read_array_prefix}
use rabbitmq_ai.Codec.Carries.{Carries, Carries-pure, Carries-bind}
use rabbitmq_ai.Codec.Strings.{IsText, IsShort, Carries-string_required, Carries-array_prefix}
use rabbitmq_ai.Codec.Bounds.{
  Careful-read_string_required, Careful-read_array_prefix, Local-read_string_required,
  Local-read_array_prefix,
}
use rabbitmq_ai.Commands.{
  KeyValue, encode_kv_loop, encode_kv_array, decode_kv_loop, decode_kv_array, encode_string_loop,
  decode_string_loop,
}

-- Both strings of a pair fit the wire.
abbrev pub IsTextPair : KeyValue → Type 0
IsTextPair p = IsText p.0 × IsText p.1

-- An array of such pairs that fits the wire.
abbrev pub IsProperties : List KeyValue → Type 0
IsProperties kvs = IsShort kvs × All IsTextPair kvs

Carries-kv_loop :
    (kvs out : List KeyValue)
    → All IsTextPair kvs
    → Carries (encode_kv_loop kvs) (decode_kv_loop (length kvs) out) (out ++ kvs)
unfolding encode_kv_loop decode_kv_loop
Carries-kv_loop [] out h = rw append-nil (Carries-pure out)
Carries-kv_loop ((k, v) ∷ kvs) out h =
    Carries-bind (write_string k) (λ w. encode_kv_loop kvs (write_string v w)) read_string_required
      _ k _ (Carries-string_required k h.0.0)
      (Carries-bind (write_string v) (encode_kv_loop kvs) read_string_required _ v _
        (Carries-string_required v h.0.1)
        (subst (Carries (encode_kv_loop kvs) (decode_kv_loop (length kvs) (out ++ (k, v) ∷ [])))
          (append_assoc out ((k, v) ∷ []) kvs) (Carries-kv_loop kvs (out ++ (k, v) ∷ []) h.1)))

pub Carries-kv_array :
    (kvs : List KeyValue) → IsProperties kvs → Carries (encode_kv_array kvs) decode_kv_array kvs
unfolding encode_kv_array decode_kv_array
Carries-kv_array kvs h =
    Carries-bind _ (encode_kv_loop kvs) read_array_prefix _ (length kvs) kvs
      (Carries-array_prefix (length kvs) h.0) (Carries-kv_loop kvs [] h.1)

pub Carries-string_loop :
    (ms out : List Bytes)
    → All IsText ms
    → Carries (encode_string_loop ms) (decode_string_loop (length ms) out) (out ++ ms)
unfolding encode_string_loop decode_string_loop
Carries-string_loop [] out h = rw append-nil (Carries-pure out)
Carries-string_loop (m ∷ ms) out h =
    Carries-bind (write_string m) (encode_string_loop ms) read_string_required _ m _
      (Carries-string_required m h.0)
      (subst (Carries (encode_string_loop ms) (decode_string_loop (length ms) (out ++ m ∷ [])))
        (append_assoc out (m ∷ []) ms) (Carries-string_loop ms (out ++ m ∷ []) h.1))

Careful-kv_loop : (n : ℕ) (out : List KeyValue) → Careful IsDecodeError (decode_kv_loop n out)
unfolding decode_kv_loop
Careful-kv_loop zero out = Careful-pure out
Careful-kv_loop (suc n) out =
    Careful-bind _ _ Careful-read_string_required
      λ k. Careful-bind _ _ Careful-read_string_required λ v. Careful-kv_loop n (out ++ (k, v) ∷ [])

pub Careful-kv_array : Careful IsDecodeError decode_kv_array
unfolding decode_kv_array
Careful-kv_array = Careful-bind _ _ Careful-read_array_prefix (λ n. Careful-kv_loop n [])

pub Careful-string_loop :
    (n : ℕ) (out : List Bytes) → Careful IsDecodeError (decode_string_loop n out)
unfolding decode_string_loop
Careful-string_loop zero out = Careful-pure out
Careful-string_loop (suc n) out =
    Careful-bind _ _ Careful-read_string_required λ s. Careful-string_loop n (out ++ s ∷ [])

Local-kv_loop : (n : ℕ) (out : List KeyValue) → Local (decode_kv_loop n out)
unfolding decode_kv_loop
Local-kv_loop zero out = Local-pure out
Local-kv_loop (suc n) out =
    Local-bind _ _ Local-read_string_required
      λ k. Local-bind _ _ Local-read_string_required λ v. Local-kv_loop n (out ++ (k, v) ∷ [])

pub Local-kv_array : Local decode_kv_array
unfolding decode_kv_array
Local-kv_array = Local-bind _ _ Local-read_array_prefix (λ n. Local-kv_loop n [])

pub Local-string_loop : (n : ℕ) (out : List Bytes) → Local (decode_string_loop n out)
unfolding decode_string_loop
Local-string_loop zero out = Local-pure out
Local-string_loop (suc n) out =
    Local-bind _ _ Local-read_string_required λ s. Local-string_loop n (out ++ s ∷ [])
