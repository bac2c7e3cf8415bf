-- ===== src/Codec/Words.antt =====
-- Integers: big-endian bytes, and reading back what was written.
use rabbitmq_ai.Common.{
  ℕ, zero, suc, ◌+◌, ◌-◌, ◌*◌, ◌/◌, ◌%◌, ◌^◌, ◌<◌, ◌≡◌, refl, ap, ◌∙◌, [], ◌∷◌, arith, Bytes,
  bit_and, bit_or, subst,
}
use native.Mathlib.Nat.{mod-eq_of_lt}
use rabbitmq_ai.Common.Bits.{shl, shr, bit_and_0xff, bit_or-shl, bit_or_join}
use rabbitmq_ai.Common.Int.{
  ℤ, pos, negsuc, to_unsigned, to_signed, IsSigned, half8, half16, half32, half64,
}
use rabbitmq_ai.Buffer.{write_byte, read_raw, read_byte}
use rabbitmq_ai.Buffer.Reads.{Reads, Reads-bind, Reads-pure, Reads-read_raw, Reads-read_byte}
use rabbitmq_ai.Codec.{
  write_u8, write_i8, write_u16, write_i16, write_u32, write_i32, write_u64_loop, write_u64,
  write_i64, read_u8, read_i8, read_u16, read_i16, read_u32, read_i32, read_u64_loop, read_u64,
  read_i64,
}
use rabbitmq_ai.Codec.Carries.{Writes, Writes-byte, Writes-skip, Writes-then, Carries, Carries-map}

-- Network byte order: the `n` low bytes of `v`, the highest first.
unfoldable pub big_endian : ℕ → ℕ → Bytes
big_endian zero v = []
big_endian (suc n) v = (v / 2 ^ (n * 8) % 256) ∷ big_endian n v

-- The byte that a shift and a mask pick.
Writes-masked : (v k : ℕ) → Writes (write_byte (bit_and (shr v k) 0xFF)) ((v / 2 ^ k % 256) ∷ [])
Writes-masked v k =
    subst (λ b. Writes (write_byte (bit_and (shr v k) 0xFF)) (b ∷ [])) (bit_and_0xff (shr v k))
      (Writes-byte _)

Writes-lowest : (v : ℕ) → Writes (write_byte (bit_and v 0xFF)) ((v / 1 % 256) ∷ [])
Writes-lowest v =
    let e : bit_and v 0xFF ≡ v / 1 % 256 = omega (arith, bit_and_0xff v) in
    subst (λ b. Writes (write_byte (bit_and v 0xFF)) (b ∷ [])) e (Writes-byte _)

pub Writes-write_u16 : (v : ℕ) → Writes (write_u16 v) (big_endian 2 v)
unfolding write_u16 big_endian
Writes-write_u16 v = Writes-then _ _ _ _ (Writes-masked v 8) (Writes-lowest v)

pub Writes-write_u32 : (v : ℕ) → Writes (write_u32 v) (big_endian 4 v)
unfolding write_u32 big_endian
Writes-write_u32 v =
    Writes-then _ _ _ _
      (Writes-then _ _ _ _ (Writes-then _ _ _ _ (Writes-masked v 24) (Writes-masked v 16))
        (Writes-masked v 8))
      (Writes-lowest v)

Writes-write_u64_loop : (i v : ℕ) → Writes (write_u64_loop i v) (big_endian i v)
unfolding write_u64_loop big_endian
Writes-write_u64_loop zero v = Writes-skip
Writes-write_u64_loop (suc i) v =
    Writes-then _ _ _ _ (Writes-masked v (i * 8)) (Writes-write_u64_loop i v)

pub Writes-write_u64 : (v : ℕ) → Writes (write_u64 v) (big_endian 8 v)
unfolding write_u64
Writes-write_u64 v = Writes-write_u64_loop 8 v

value16 : (v : ℕ) → v < 2 ^ 16 → bit_or (shl (v / 256 % 256) 8) (v / 1 % 256) % 2 ^ 16 ≡ v
value16 v h = omega (arith, bit_or-shl 8 (v / 256 % 256) (v / 1 % 256) (omega arith))

-- Four bytes side by side, in a uint32_t.
pub value32 :
    (a b c d : ℕ)
    → a < 256
    → b < 256
    → c < 256
    → d < 256
    → bit_or (bit_or (bit_or (shl a 24 % 2 ^ 32) (shl b 16 % 2 ^ 32)) (shl c 8 % 2 ^ 32)) d
      ≡ ((a * 256 + b) * 256 + c) * 256 + d
value32 a b c d ha hb hc hd =
    bit_or_join 8 _ ((a * 256 + b) * 256 + c) d
      (omega (
        arith,
        bit_or_join 16 (bit_or (shl a 24 % 2 ^ 32) (shl b 16 % 2 ^ 32)) (a * 256 + b)
            (shl c 8 % 2 ^ 32)
            (omega (
              arith,
              bit_or_join 24 (shl a 24 % 2 ^ 32) a (shl b 16 % 2 ^ 32) (omega arith) (omega arith),
            ))
            (omega arith),
      ))
      hd

pub Reads-read_u16 : (v : ℕ) → v < 2 ^ 16 → Reads read_u16 (big_endian 2 v) v
unfolding read_u16 big_endian
Reads-read_u16 v h = subst (Reads read_u16 (big_endian 2 v)) (value16 v h) (
    Reads-bind (read_raw 2) _ (big_endian 2 v) [] _ _ (Reads-read_raw (big_endian 2 v))
      (Reads-pure _))

pub Reads-read_u32 : (v : ℕ) → v < 2 ^ 32 → Reads read_u32 (big_endian 4 v) v
unfolding read_u32 big_endian
Reads-read_u32 v h =
    let e =
      value32 (v / 2 ^ 24 % 256) (v / 2 ^ 16 % 256) (v / 2 ^ 8 % 256) (v / 1 % 256) (omega arith)
        (omega arith) (omega arith) (omega arith) in
    subst (Reads read_u32 (big_endian 4 v)) (omega (arith, e)) (
      Reads-bind (read_raw 4) _ (big_endian 4 v) [] _ _ (Reads-read_raw (big_endian 4 v))
        (Reads-pure _))

-- One more byte: the accumulator `q` holds the value `x` but for its lowest byte.
read_u64_round :
    (q x b : ℕ) (bs : Bytes)
    → x < 2 ^ 64
    → q ≡ x / 256
    → b ≡ x % 256
    → read_u64_loop q (b ∷ bs) ≡ read_u64_loop x bs
unfolding read_u64_loop
read_u64_round q x b bs h e d =
    let value : bit_or (shl q 8 % 2 ^ 64) b ≡ x =
      omega (arith, bit_or_join 8 (shl q 8 % 2 ^ 64) q b (omega arith) (omega arith)) in
    ap (λ t. read_u64_loop t bs) value

read_u64_loop-big_endian : (v : ℕ) → v < 2 ^ 64 → read_u64_loop 0 (big_endian 8 v) ≡ v
unfolding big_endian
read_u64_loop-big_endian v h =
    read_u64_round 0 (v / 2 ^ 56) _ _ (omega arith) (omega arith) (omega arith)
    ∙ read_u64_round (v / 2 ^ 56) (v / 2 ^ 48) _ _ (omega arith) (omega arith) (omega arith)
    ∙ read_u64_round (v / 2 ^ 48) (v / 2 ^ 40) _ _ (omega arith) (omega arith) (omega arith)
    ∙ read_u64_round (v / 2 ^ 40) (v / 2 ^ 32) _ _ (omega arith) (omega arith) (omega arith)
    ∙ read_u64_round (v / 2 ^ 32) (v / 2 ^ 24) _ _ (omega arith) (omega arith) (omega arith)
    ∙ read_u64_round (v / 2 ^ 24) (v / 2 ^ 16) _ _ (omega arith) (omega arith) (omega arith)
    ∙ read_u64_round (v / 2 ^ 16) (v / 2 ^ 8) _ _ (omega arith) (omega arith) (omega arith)
    ∙ read_u64_round (v / 2 ^ 8) v _ _ (omega arith) (omega arith) (omega arith)
    ∙ unfold read_u64_loop in refl

pub Reads-read_u64 : (v : ℕ) → v < 2 ^ 64 → Reads read_u64 (big_endian 8 v) v
unfolding read_u64 big_endian
Reads-read_u64 v h = subst (Reads read_u64 (big_endian 8 v)) (read_u64_loop-big_endian v h) (
    Reads-bind (read_raw 8) _ (big_endian 8 v) [] _ _ (Reads-read_raw (big_endian 8 v))
      (Reads-pure _))

-- A signed value survives the two casts, at every width.
pub to_signed-to_unsigned :
    (half : ℕ) (v : ℤ) → IsSigned half v → to_signed half (to_unsigned half v) ≡ v
unfolding to_signed to_unsigned
to_signed-to_unsigned half (pos n) h =
    let small : n % (2 * half) ≡ n = mod-eq_of_lt (omega arith) in
    ground (arith, ap (λ t. t % (2 * half)) small)
to_signed-to_unsigned half (negsuc n) h =
    let small : n % (2 * half) ≡ n = mod-eq_of_lt (omega arith) in
    let big : (2 * half - 1 - n % (2 * half)) % (2 * half) ≡ 2 * half - 1 - n % (2 * half) =
      mod-eq_of_lt (omega arith) in
    ground arith

pub to_unsigned-lt : (half : ℕ) (v : ℤ) → 0 < half → to_unsigned half v < 2 * half
unfolding to_unsigned
to_unsigned-lt half (pos n) h = grind arith
to_unsigned-lt half (negsuc n) h = omega arith

module _ (v : ℕ) where
  pub Carries-u8 : v < 256 → Carries (write_u8 v) read_u8 v
  unfolding write_u8 read_u8
  Carries-u8 h = record { wire = v ∷ []; writes = Writes-byte v; reads = Reads-read_byte v }

  pub Carries-u16 : v < 2 ^ 16 → Carries (write_u16 v) read_u16 v
  Carries-u16 h = record {
    wire = big_endian 2 v;
    writes = Writes-write_u16 v;
    reads = Reads-read_u16 v h;
  }

  pub Carries-u32 : v < 2 ^ 32 → Carries (write_u32 v) read_u32 v
  Carries-u32 h = record {
    wire = big_endian 4 v;
    writes = Writes-write_u32 v;
    reads = Reads-read_u32 v h;
  }

  pub Carries-u64 : v < 2 ^ 64 → Carries (write_u64 v) read_u64 v
  Carries-u64 h = record {
    wire = big_endian 8 v;
    writes = Writes-write_u64 v;
    reads = Reads-read_u64 v h;
  }

module _ (v : ℤ) where
  pub Carries-i8 : IsSigned half8 v → Carries (write_i8 v) read_i8 v
  unfolding write_i8 read_i8
  Carries-i8 h = subst (Carries (write_i8 v) read_i8) (to_signed-to_unsigned half8 v h) (
      Carries-map _ read_byte (to_signed half8) (to_unsigned half8 v)
        (record { wire = _; writes = Writes-byte _; reads = Reads-read_byte _ }))

  pub Carries-i16 : IsSigned half16 v → Carries (write_i16 v) read_i16 v
  unfolding write_i16 read_i16
  Carries-i16 h = subst (Carries (write_i16 v) read_i16) (to_signed-to_unsigned half16 v h) (
      Carries-map _ read_u16 (to_signed half16) (to_unsigned half16 v)
        (Carries-u16 _ (to_unsigned-lt half16 v (omega arith))))

  pub Carries-i32 : IsSigned half32 v → Carries (write_i32 v) read_i32 v
  unfolding write_i32 read_i32
  Carries-i32 h = subst (Carries (write_i32 v) read_i32) (to_signed-to_unsigned half32 v h) (
      Carries-map _ read_u32 (to_signed half32) (to_unsigned half32 v)
        (Carries-u32 _ (to_unsigned-lt half32 v (omega arith))))

  pub Carries-i64 : IsSigned half64 v → Carries (write_i64 v) read_i64 v
  unfolding write_i64 read_i64
  Carries-i64 h = subst (Carries (write_i64 v) read_i64) (to_signed-to_unsigned half64 v h) (
      Carries-map _ read_u64 (to_signed half64) (to_unsigned half64 v)
        (Carries-u64 _ (to_unsigned-lt half64 v (omega arith))))

-- A size that fits is its own signed cast.
pub to_signed-small : (half n : ℕ) → n < half → to_signed half n ≡ pos n
unfolding to_signed
to_signed-small half n h =
    let small : n % (2 * half) ≡ n = mod-eq_of_lt (omega arith) in ground arith
