-- ===== src/Prelude/Bits.antt =====
-- `|`, `&` and `>>` at variables. The native operations stand for a recursion on binary digits;
-- the lowest digit gives an equation with no fuel, and the rest follows from it.
use Prim.Native.Nat.{
  ℕ, zero, suc, ◌+◌, ◌-◌, ◌*◌, ◌/◌, ◌%◌, ◌^◌, ◌≤◌, ◌<◌, min, max, bit_and, bit_or, digits, bitwise,
  bit_and-bitwise, bit_or-bitwise,
}
use mathlib.Core.Path.{◌≡◌, refl, ap}
use native.Mathlib.Nat.{mul_assoc, pow-suc, one-le-pow, div-add-mod'}
use native.Mathlib.Omega.{arith}

-- Any two amounts of fuel that reach the first number give the same digits.
module _ (z : ℕ → ℕ) (f : ℕ → ℕ → ℕ) where
  digits-fuel : (m n a b : ℕ) → a ≤ m → a ≤ n → digits z f m a b ≡ digits z f n a b
  digits-fuel zero zero a b h k = refl
  digits-fuel zero (suc n) zero b h k = refl
  digits-fuel zero (suc n) (suc a) b h k = absurd (omega arith)
  digits-fuel (suc m) zero zero b h k = refl
  digits-fuel (suc m) zero (suc a) b h k = absurd (omega arith)
  digits-fuel (suc m) (suc n) zero b h k = refl
  digits-fuel (suc m) (suc n) (suc a) b h k =
      ap (λ d. d * 2 + f (suc a % 2) (b % 2))
        (digits-fuel m n (suc a / 2) (b / 2) (omega arith) (omega arith))

  bitwise-digit :
      (a b : ℕ)
      → bitwise z f (suc a) b ≡ bitwise z f (suc a / 2) (b / 2) * 2 + f (suc a % 2) (b % 2)
  bitwise-digit a b =
      ap (λ d. d * 2 + f (suc a % 2) (b % 2))
        (digits-fuel a (suc a / 2) (suc a / 2) (b / 2) (omega arith) (omega arith))

pub bit_or-digit : (a b : ℕ) → bit_or a b ≡ bit_or (a / 2) (b / 2) * 2 + max (a % 2) (b % 2)
bit_or-digit zero b = omega (arith, bit_or-bitwise 0 b, bit_or-bitwise 0 (b / 2))
bit_or-digit (suc a) b = omega (
  arith,
  bit_or-bitwise (suc a) b,
  bit_or-bitwise (suc a / 2) (b / 2),
  bitwise-digit (λ y. y) max a b,
)

pub bit_and-digit : (a b : ℕ) → bit_and a b ≡ bit_and (a / 2) (b / 2) * 2 + min (a % 2) (b % 2)
bit_and-digit zero b = omega (arith, bit_and-bitwise 0 b, bit_and-bitwise 0 (b / 2))
bit_and-digit (suc a) b = omega (
  arith,
  bit_and-bitwise (suc a) b,
  bit_and-bitwise (suc a / 2) (b / 2),
  bitwise-digit (λ y. 0) min a b,
)

pub mul-two-pow : (b k : ℕ) → b * 2 ^ suc k ≡ 2 * (b * 2 ^ k)
mul-two-pow b k = omega (arith, ap (λ (t : ℕ). b * t) (pow-suc 2 k))

pub pow_sum : (d k : ℕ) → 2 ^ (d + k) ≡ 2 ^ d * 2 ^ k
pow_sum zero k = let e : 0 + k ≡ k = omega arith in rw e (omega arith)
pow_sum (suc d) k =
    let e : suc d + k ≡ suc (d + k) = omega arith in
    rw (e, pow-suc 2 (d + k), pow-suc 2 d, pow_sum d k) (omega (arith, mul_assoc (2 ^ d) 2 (2 ^ k)))

-- `acc | (b << k)` is a sum where `acc` fits in `k` bits.
pub bit_or_shifted : (k acc b : ℕ) → acc < 2 ^ k → bit_or acc (b * 2 ^ k) ≡ acc + b * 2 ^ k
bit_or_shifted zero zero b h = omega (arith, bit_or-bitwise 0 (b * 2 ^ 0))
bit_or_shifted zero (suc acc) b h = absurd (omega arith)
bit_or_shifted (suc k) acc b h = ground (
  arith,
  bit_or-digit acc (b * 2 ^ suc k),
  mul-two-pow b k,
  pow-suc 2 k,
  bit_or_shifted k (acc / 2) b,
)

bit_and-zero_below : (n a : ℕ) → a ≤ n → bit_and a 0 ≡ 0
bit_and-zero_below n zero h = refl
bit_and-zero_below zero (suc a) h = absurd (omega arith)
bit_and-zero_below (suc n) (suc a) h =
    omega (arith, bit_and-digit (suc a) 0, bit_and-zero_below n (suc a / 2) (omega arith))

bit_and-split : (k q r : ℕ) → r < 2 ^ k → bit_and (q * 2 ^ k + r) (2 ^ k - 1) ≡ r
bit_and-split zero q r h =
    omega (arith, bit_and-zero_below (q * 2 ^ 0 + r) (q * 2 ^ 0 + r) (omega arith))
bit_and-split (suc k) q r h = ground (
  arith,
  bit_and-digit (q * 2 ^ suc k + r) (2 ^ suc k - 1),
  mul-two-pow q k,
  pow-suc 2 k,
  bit_and-split k q (r / 2),
)

-- `a & (2^k - 1)` is the remainder by `2^k`.
pub bit_and_mask : (k a : ℕ) → bit_and a (2 ^ k - 1) ≡ a % 2 ^ k
bit_and_mask k a =
    ground (arith, one-le-pow k 2, div-add-mod' a (2 ^ k), bit_and-split k (a / 2 ^ k) (a % 2 ^ k))
