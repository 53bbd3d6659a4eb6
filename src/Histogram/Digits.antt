-- ===== src/Histogram/Digits.antt =====
-- `std::bit_width` counts binary digits. (code/include/rdb/metrics/histogram.h)
use mw_study.Prelude.{ℕ, zero, suc, ◌+◌, ◌-◌, ◌*◌, ◌/◌, ◌^◌, ◌≤◌, ◌<◌, ◌≡◌, refl, arith}
use native.Mathlib.Decide.{dec_lt}
use native.Mathlib.Nat.{pow-suc, one-le-pow, pow-le-pow_right}
use native.Mathlib.Numerals.{towards_suc}
use mw_study.Histogram.{bit_width_loop, bit_width}

-- `w` is the number of binary digits of `v`.
pub record Digits (v w limit : ℕ) : Type 0 where
  pub low : 2 ^ (w - 1) ≤ v
  pub high : v < 2 ^ w
  pub some_digit : 1 ≤ w
  pub few : w ≤ limit

bit_width_loop-zero : (f : ℕ) → bit_width_loop f 0 ≡ 0
unfolding bit_width_loop
bit_width_loop-zero zero = refl
bit_width_loop-zero (suc f) = refl

pub pow-pred : (w : ℕ) → 1 ≤ w → 2 ^ w ≡ 2 * 2 ^ (w - 1)
pow-pred zero h = absurd (omega arith)
pow-pred (suc w) h = let e : suc w - 1 ≡ w = omega arith in rw e (omega (arith, pow-suc 2 w))

bit_width_loop-suc : (f v : ℕ) → 0 < v → bit_width_loop (suc f) v ≡ suc (bit_width_loop f (v / 2))
unfolding bit_width_loop
bit_width_loop-suc f v h = ground arith

Digits-suc : {v w limit : ℕ} → 1 < v → Digits (v / 2) w limit → Digits v (suc w) (suc limit)
Digits-suc {v} {w} h d =
    let e : suc w - 1 ≡ w = omega arith in
    record {
      low = rw e (omega (arith, pow-pred w d.some_digit, d.low));
      high = omega (arith, pow-suc 2 w, d.high);
      some_digit = omega arith;
      few = let k = d.few in omega arith;
    }

bit_width_loop-Digits : (f v : ℕ) → 0 < v → v < 2 ^ f → Digits v (bit_width_loop f v) f
bit_width_loop-Digits zero v h l = absurd (omega arith)
bit_width_loop-Digits (suc f) zero h l = elim h [ ]
bit_width_loop-Digits (suc f) (suc zero) h l =
    rw (bit_width_loop-suc f 1 h, bit_width_loop-zero f) (omega arith)
bit_width_loop-Digits (suc f) (suc (suc v)) h l = rw (bit_width_loop-suc f (suc (suc v)) h) (
    Digits-suc (omega arith)
      (bit_width_loop-Digits f (suc (suc v) / 2) (omega arith) (omega (arith, pow-suc 2 f))))

pub bit_width-Digits : (v : ℕ) → 0 < v → v < 2 ^ 64 → Digits v (bit_width v) 64
unfolding bit_width
bit_width-Digits v h l = bit_width_loop-Digits 64 v h l

pub pow_six : (s : ℕ) → 2 ^ (s + 6) ≡ 64 * 2 ^ s
pow_six s = simp towards_suc (omega arith)

lt_of_pow-lt : (a b : ℕ) → 2 ^ a < 2 ^ b → a < b
lt_of_pow-lt a b h = elim (dec_lt a b) [
  | yes k ↦ k
  | no k ↦
      absurd (
        let p : 2 ^ b ≤ 2 ^ a = pow-le-pow_right {n = 2} (omega arith) (omega arith) in omega arith)
]

-- A power of two has one digit more than its exponent says.
pub bit_width-pow : (s : ℕ) → 2 ^ (s + 6) < 2 ^ 64 → bit_width (2 ^ (s + 6)) ≡ s + 7
bit_width-pow s h =
    let d = bit_width-Digits (2 ^ (s + 6)) (one-le-pow (s + 6) 2 (omega arith)) h in
    let above = lt_of_pow-lt (s + 6) (bit_width (2 ^ (s + 6))) d.high in
    let next : 2 ^ (s + 7) ≡ 2 * 2 ^ (s + 6) = simp towards_suc (omega arith) in
    let below : 2 ^ (bit_width (2 ^ (s + 6)) - 1) < 2 ^ (s + 7) =
      omega (arith, d.low, next, one-le-pow (s + 6) 2 (omega arith)) in
    omega (arith, above, lt_of_pow-lt (bit_width (2 ^ (s + 6)) - 1) (s + 7) below)
