-- ===== src/Buffer.antt =====
-- include/stream/buffer.hpp: the byte buffer that encoders append to, and the bounds-checked cursor
-- that decoders read through. A method of the reader returns its result and the cursor after it.
pub mod Reads
pub mod ReadsAt
pub mod Bounds
pub mod Local
use rabbitmq_ai.Common.{
  ℕ, ◌+◌, ◌-◌, Bool, List, [], ◌∷◌, ◌++◌, ltb, ◌==◌, if◌then◌else◌, Bytes, text, length, take, drop,
  get_or,
}
use rabbitmq_ai.Errors.{Kind, StreamError, stream_error}
use rabbitmq_ai.Result.{Result, ok, err}

pub record BufferWriter : Type 0 where
  pub data_ : Bytes

abbrev pub new_writer : BufferWriter
new_writer = record { data_ = [] }

unfoldable pub write_raw : Bytes → BufferWriter → BufferWriter
write_raw src w = record { data_ = w.data_ ++ src }

unfoldable pub write_byte : ℕ → BufferWriter → BufferWriter
write_byte b w = record { data_ = w.data_ ++ b ∷ [] }

-- `data_` holds `size_` bytes, and the first `pos_` are consumed.
pub record BufferReader : Type 0 where
  pub data_ : Bytes
  pub size_ : ℕ
  pub pos_ : ℕ

unfoldable pub new_reader : Bytes → BufferReader
new_reader v = record { data_ = v; size_ = length v; pos_ = 0 }

abbrev pub remaining : BufferReader → ℕ
remaining r = r.size_ - r.pos_

abbrev pub empty : BufferReader → Bool
empty r = remaining r == 0

-- A read that may fail; the cursor comes back beside an error too.
abbrev pub Read {ℓ} : Type ℓ → Type ℓ
Read A = BufferReader → Result A × BufferReader

module _ {ℓ} {A : Type ℓ} where
  unfoldable pub pure : A → Read A
  pure a r = (ok a, r)

  -- A `Result` computed with no read.
  unfoldable pub lift : Result A → Read A
  lift x r = (x, r)

  -- A look at the cursor.
  unfoldable pub gets : (BufferReader → A) → Read A
  gets g r = (ok (g r), r)

module _ {ℓ κ} {A : Type ℓ} {B : Type κ} where
  unfoldable pub and_then : Result A → (A → Read B) → Read B
  and_then (ok a) f r = f a r
  and_then (err e) f r = (err e, r)

  infixl 5 ◌>>=◌
  unfoldable pub ◌>>=◌ : Read A → (A → Read B) → Read B
  unfolding and_then
  ◌>>=◌ m f r = let (x, r') = m r in and_then x f r'

infixl 5 ◌>>◌
abbrev pub ◌>>◌ {ℓ} : {B : Type ℓ} → Read (Unit {0}) → Read B → Read B
m >> n = m >>= λ _. n

-- `if (b) return err(e);`
unfoldable pub fail_if : Bool → StreamError → Read (Unit {0})
fail_if b e r = if b then (err e, r) else (ok tt, r)

unfoldable pub require : ℕ → BufferReader → Result (Unit {0})
require n r =
    if ltb (remaining r) n
    then err (stream_error Kind.decode_error (text "truncated input"))
    else ok tt

-- `memcpy(dst, data_ + pos_, n)`; `dst` is the result.
unfoldable pub read_raw : ℕ → Read Bytes
unfolding require
read_raw n r = elim (require n r) [
  | err e ↦ (err e, r)
  | ok _ ↦ (ok (take n (drop r.pos_ r.data_)), record r { pos_ = r.pos_ + n })
]

unfoldable pub read_byte : Read ℕ
unfolding require
read_byte r = elim (require 1 r) [
  | err e ↦ (err e, r)
  | ok _ ↦ (ok (get_or r.data_ r.pos_ 0), record r { pos_ = r.pos_ + 1 })
]

-- The borrowed pointer is read for `n` bytes only: it stands for those bytes.
unfoldable pub borrow : ℕ → Read Bytes
unfolding require
borrow n r = elim (require n r) [
  | err e ↦ (err e, r)
  | ok _ ↦ (ok (take n (drop r.pos_ r.data_)), record r { pos_ = r.pos_ + n })
]
