-- ===== src/Common/Bits.antt =====
-- Shifts, masks and disjoint `|` on unsigned words, as arithmetic.
use Prim.Native.Nat.{ℕ, zero, suc, ◌+◌, ◌-◌, ◌*◌, ◌/◌, ◌%◌, ◌^◌, ◌≤◌, ◌<◌, min, max}
use Prim.Native.Nat.{bit_and, bit_or, digits, bit_and-bitwise, bit_or-bitwise}
use mathlib.Core.Path.{◌≡◌, refl, ap}
use mathlib.Core.Bool.{Bool, true, ◌&&◌}
use rabbitmq_ai.Common.Tests.{◌==◌}
use native.Mathlib.Nat.{pow-suc}
use native.Mathlib.Omega.{arith}

abbrev pub shr : ℕ → ℕ → ℕ
shr x k = x / 2 ^ k

abbrev pub shl : ℕ → ℕ → ℕ
shl x k = x * 2 ^ k

-- The native operations stand for a recursion on digits with fuel; any sufficient fuel serves.
module _ (base : ℕ → ℕ) (digit : ℕ → ℕ → ℕ) where
  more_fuel : (n m a b : ℕ) → a ≤ n → a ≤ m → digits base digit n a b ≡ digits base digit m a b
  more_fuel zero zero a b p q = refl
  more_fuel zero (suc m) zero b p q = refl
  more_fuel zero (suc m) (suc a) b p q = absurd (omega arith)
  more_fuel (suc n) zero zero b p q = refl
  more_fuel (suc n) zero (suc a) b p q = absurd (omega arith)
  more_fuel (suc n) (suc m) zero b p q = refl
  more_fuel (suc n) (suc m) (suc a) b p q =
      ap (λ t. t * 2 + digit (suc a % 2) (b % 2))
        (more_fuel n m (suc a / 2) (b / 2) (omega arith) (omega arith))

pub bit_or_lowest : (a b : ℕ) → bit_or a b ≡ bit_or (a / 2) (b / 2) * 2 + max (a % 2) (b % 2)
bit_or_lowest zero b = omega (arith, bit_or-bitwise 0 b, bit_or-bitwise 0 (b / 2))
bit_or_lowest (suc a) b = omega (
  arith,
  bit_or-bitwise (suc a) b,
  bit_or-bitwise (suc a / 2) (b / 2),
  more_fuel (λ y. y) max a (suc a / 2) (suc a / 2) (b / 2) (omega arith) (omega arith),
)

pub bit_and_lowest : (a b : ℕ) → bit_and a b ≡ bit_and (a / 2) (b / 2) * 2 + min (a % 2) (b % 2)
bit_and_lowest zero b = omega (arith, bit_and-bitwise 0 b, bit_and-bitwise 0 (b / 2))
bit_and_lowest (suc a) b = omega (
  arith,
  bit_and-bitwise (suc a) b,
  bit_and-bitwise (suc a / 2) (b / 2),
  more_fuel (λ y. 0) min a (suc a / 2) (suc a / 2) (b / 2) (omega arith) (omega arith),
)

bit_or-zero_bound : (n a : ℕ) → a ≤ n → bit_or a 0 ≡ a
bit_or-zero_bound n zero h = refl
bit_or-zero_bound zero (suc a) h = absurd (omega arith)
bit_or-zero_bound (suc n) (suc a) h =
    omega (arith, bit_or_lowest (suc a) 0, bit_or-zero_bound n (suc a / 2) (omega arith))

bit_and-zero_bound : (n a : ℕ) → a ≤ n → bit_and a 0 ≡ 0
bit_and-zero_bound n zero h = refl
bit_and-zero_bound zero (suc a) h = absurd (omega arith)
bit_and-zero_bound (suc n) (suc a) h =
    omega (arith, bit_and_lowest (suc a) 0, bit_and-zero_bound n (suc a / 2) (omega arith))

double_pow : (x k : ℕ) → x * 2 ^ suc k ≡ 2 * (x * 2 ^ k)
double_pow x k = omega (arith, ap (λ (t : ℕ). x * t) (pow-suc 2 k))

-- `(x << k) | y` adds, when `y` fits `k` bits.
pub bit_or-shl : (k x y : ℕ) → y < 2 ^ k → bit_or (x * 2 ^ k) y ≡ x * 2 ^ k + y
bit_or-shl zero x y h = ground (arith, bit_or-zero_bound x x)
bit_or-shl (suc k) x y h = ground (
  arith,
  bit_or_lowest (x * 2 ^ suc k) y,
  double_pow x k,
  bit_or-shl k x (y / 2) (omega (arith, pow-suc 2 k)),
)

-- A mask of `k` ones over the low bits of a split number.
mask_split : (k x y : ℕ) → y < 2 ^ k → bit_and (x * 2 ^ k + y) (2 ^ k - 1) ≡ y
mask_split zero x y h = ground (arith, bit_and-zero_bound (x * 1 + y) (x * 1 + y))
mask_split (suc k) x y h = ground (
  arith,
  bit_and_lowest (x * 2 ^ suc k + y) (2 ^ suc k - 1),
  double_pow x k,
  pow-suc 2 k,
  mask_split k x (y / 2) (omega (arith, pow-suc 2 k)),
)

bit_and-one : (a : ℕ) → bit_and a 1 ≡ a % 2
bit_and-one a = omega (arith, bit_and_lowest a 1, bit_and-zero_bound (a / 2) (a / 2))

-- A mask of the one bit `k`.
bit_split : (k x y : ℕ) → y < 2 ^ k → bit_and (x * 2 ^ k + y) (2 ^ k) ≡ x % 2 * 2 ^ k
bit_split zero x y h = omega (arith, bit_and-one (x * 1 + y))
bit_split (suc k) x y h = ground (
  arith,
  bit_and_lowest (x * 2 ^ suc k + y) (2 ^ suc k),
  double_pow x k,
  double_pow (x % 2) k,
  pow-suc 2 k,
  bit_split k x (y / 2) (omega (arith, pow-suc 2 k)),
)

module _ (a : ℕ) where
  pub bit_and_0x07 : bit_and a 0x07 ≡ a % 8
  bit_and_0x07 = ground (arith, mask_split 3 (a / 8) (a % 8))

  pub bit_and_0x0f : bit_and a 0x0F ≡ a % 16
  bit_and_0x0f = ground (arith, mask_split 4 (a / 16) (a % 16))

  pub bit_and_0x1f : bit_and a 0x1F ≡ a % 32
  bit_and_0x1f = ground (arith, mask_split 5 (a / 32) (a % 32))

  pub bit_and_0x3f : bit_and a 0x3F ≡ a % 64
  bit_and_0x3f = ground (arith, mask_split 6 (a / 64) (a % 64))

  pub bit_and_0xff : bit_and a 0xFF ≡ a % 256
  bit_and_0xff = ground (arith, mask_split 8 (a / 256) (a % 256))

  pub bit_and_0x7fff : bit_and a 0x7FFF ≡ a % 32768
  bit_and_0x7fff = ground (arith, mask_split 15 (a / 32768) (a % 32768))

  pub bit_and_0x8000 : bit_and a 0x8000 ≡ a / 32768 % 2 * 32768
  bit_and_0x8000 = ground (arith, bit_split 15 (a / 32768) (a % 32768))

-- A statement about a byte, checked at every byte.
agree_below : ℕ → (ℕ → ℕ) → (ℕ → ℕ) → Bool
agree_below zero f g = true
agree_below (suc n) f g = f n == g n && agree_below n f g

agree_below→eq : (n : ℕ) (f g : ℕ → ℕ) (x : ℕ) → agree_below n f g ≡ true → x < n → f x ≡ g x
unfolding agree_below
agree_below→eq zero f g x h lt = absurd (omega arith)
agree_below→eq (suc n) f g x h lt = ground (arith, agree_below→eq n f g x)

module _ (b : ℕ) (h : b < 256) where
  pub bit_and_0xc0 : bit_and b 0xC0 ≡ b / 64 * 64
  unfolding agree_below
  bit_and_0xc0 = agree_below→eq 256 (λ x. bit_and x 0xC0) (λ x. x / 64 * 64) b refl h

  pub bit_and_0xe0 : bit_and b 0xE0 ≡ b / 32 * 32
  unfolding agree_below
  bit_and_0xe0 = agree_below→eq 256 (λ x. bit_and x 0xE0) (λ x. x / 32 * 32) b refl h

  pub bit_and_0xf0 : bit_and b 0xF0 ≡ b / 16 * 16
  unfolding agree_below
  bit_and_0xf0 = agree_below→eq 256 (λ x. bit_and x 0xF0) (λ x. x / 16 * 16) b refl h

  pub bit_and_0xf8 : bit_and b 0xF8 ≡ b / 8 * 8
  unfolding agree_below
  bit_and_0xf8 = agree_below→eq 256 (λ x. bit_and x 0xF8) (λ x. x / 8 * 8) b refl h

-- `x | z`, where `x` is known to be a multiple of `2 ^ k`.
pub bit_or_join : (k x s z : ℕ) → x ≡ s * 2 ^ k → z < 2 ^ k → bit_or x z ≡ s * 2 ^ k + z
bit_or_join k x s z e h = rw e (bit_or-shl k s z h)
