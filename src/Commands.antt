-- ===== src/Commands.antt =====
-- include/stream/commands/: the contract of a command struct, and the arrays that several share.
pub mod Handshake
pub mod Connection
pub mod Lifecycle
pub mod Arrays
pub mod RoundTrip
pub mod Bounds
pub mod Headlines
pub mod Messages
use rabbitmq_ai.Common.{ℕ, zero, suc, Option, none, some, List, [], ◌∷◌, ◌++◌, Bytes, length}
use rabbitmq_ai.Common.Int.{to_signed, half32}
use rabbitmq_ai.Buffer.{Read, pure, ◌>>=◌}
use rabbitmq_ai.Codec.{
  Write, write_string, write_array_prefix, read_string_required, read_array_prefix,
}

-- What every command struct has: `kKey`, `kVersion`, `encode_body` and `decode_body`.
pub record Command (Cmd : Type 0) : Type 0 where
  pub key : ℕ
  pub version : ℕ
  pub encode_body : Cmd → Write
  pub decode_body : Read Cmd

abbrev pub KeyValue : Type 0
KeyValue = Bytes × Bytes

-- The loops over arrays, on the elements that are left; `out` holds those decoded so far.
unfoldable pub encode_kv_loop : List KeyValue → Write
encode_kv_loop [] w = w
encode_kv_loop ((k, v) ∷ kvs) w = encode_kv_loop kvs (write_string v (write_string k w))

unfoldable pub encode_kv_array : List KeyValue → Write
encode_kv_array kvs w = encode_kv_loop kvs (write_array_prefix (to_signed half32 (length kvs)) w)

unfoldable pub decode_kv_loop : ℕ → List KeyValue → Read (List KeyValue)
decode_kv_loop zero out = pure out
decode_kv_loop (suc left) out = do
  k ← read_string_required
  v ← read_string_required
  decode_kv_loop left (out ++ (k, v) ∷ [])

-- The loop, after `out.reserve(count)`: the room that is reserved is not modelled.
unfoldable pub decode_kv_array : Read (List KeyValue)
decode_kv_array = do count ← read_array_prefix; decode_kv_loop count []

unfoldable pub encode_string_loop : List Bytes → Write
encode_string_loop [] w = w
encode_string_loop (m ∷ ms) w = encode_string_loop ms (write_string m w)

unfoldable pub decode_string_loop : ℕ → List Bytes → Read (List Bytes)
decode_string_loop zero out = pure out
decode_string_loop (suc left) out = do
  s ← read_string_required
  decode_string_loop left (out ++ s ∷ [])
