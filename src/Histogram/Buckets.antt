-- ===== src/Histogram/Buckets.antt =====
-- Which bucket a value falls in, and how far the bucket's upper end lies from it.
-- (code/include/rdb/metrics/histogram.h)
use mw_study.Prelude.{
  ℕ, ◌+◌, ◌-◌, ◌*◌, ◌/◌, ◌%◌, ◌^◌, ◌≤◌, ◌<◌, ◌≡◌, refl, ap, ◌∙◌, arith, ltb, if-elim, u64, sub64,
}
use native.Mathlib.Decide.{dec_lt}
use native.Mathlib.Nat.{
  div-lt_iff_lt-mul, mul-le-mul_right, one-le-pow, div-add-mod', mod-lt, pow-le-pow_right,
}
use mw_study.Histogram.{bucket_count, bit_width, index_of, bucket_upper}
use mw_study.Histogram.Digits.{Digits, pow-pred, bit_width-Digits, pow_six, bit_width-pow}

-- A value from 64 on: the power of two `shift`, the sub-bucket, and what the bucket does not tell.
record Bucket (v : ℕ) : Type 0 where
  shift : ℕ
  sub : ℕ
  offset : ℕ
  parts : v ≡ 64 * 2 ^ shift + sub * 2 ^ shift + offset
  sub_small : sub < 64
  offset_small : offset < 2 ^ shift
  shift_small : shift ≤ 57
  index : index_of v ≡ 64 + shift * 64 + sub

-- A number between two powers of two, cut at six digits below the first.
split_at :
    (v e s : ℕ)
    → e ≡ s + 6
    → 2 ^ e ≤ v
    → v < 2 * 2 ^ e
    → (v ≡ 64 * 2 ^ s + (v - 2 ^ e) / 2 ^ s * 2 ^ s + (v - 2 ^ e) % 2 ^ s)
      × ((v - 2 ^ e) / 2 ^ s < 64)
split_at v e s p low high =
    let k : 2 ^ e ≡ 64 * 2 ^ s = rw p (pow_six s) in
    (
      omega (arith, div-add-mod' (v - 2 ^ e) (2 ^ s)),
      (div-lt_iff_lt-mul (one-le-pow s 2 (omega arith))).1 (omega arith),
    )

seven-Digits : {v w : ℕ} → 64 ≤ v → Digits v w 64 → 7 ≤ w
seven-Digits {v} {w} h d = elim (dec_lt w 7) [
  | yes few ↦ absurd (
      let k : 2 ^ w ≤ 2 ^ 6 =
        pow-le-pow_right {n = 2} (omega arith) {i = w} {j = 6} (omega arith) in
      omega (arith, d.high))
  | no many ↦ omega arith
]

index_of-large :
    (v : ℕ)
    → 64 ≤ v
    → index_of v
      ≡ 64 + (bit_width v - 1 - 6) * 64 + (v - 2 ^ (bit_width v - 1)) / 2 ^ (bit_width v - 1 - 6)
unfolding index_of
index_of-large v h = ground arith

Bucket_of : (v : ℕ) → 64 ≤ v → v < 2 ^ 64 → Bucket v
Bucket_of v h l = record {
  shift = s;
  sub = (v - 2 ^ e) / 2 ^ s;
  offset = (v - 2 ^ e) % 2 ^ s;
  parts = cut.0;
  sub_small = cut.1;
  offset_small = mod-lt (v - 2 ^ e) (one-le-pow s 2 (omega arith));
  shift_small = let k = d.few in omega arith;
  index = index_of-large v h;
}
  where
    d : Digits v (bit_width v) 64
    d = bit_width-Digits v (omega arith) l

    e : ℕ
    e = bit_width v - 1

    s : ℕ
    s = e - 6

    many : 7 ≤ bit_width v
    many = seven-Digits h d

    cut :
        (v ≡ 64 * 2 ^ s + (v - 2 ^ e) / 2 ^ s * 2 ^ s + (v - 2 ^ e) % 2 ^ s)
        × ((v - 2 ^ e) / 2 ^ s < 64)
    cut =
        split_at v e s (omega (arith, many)) d.low
          (omega (arith, d.high, pow-pred (bit_width v) d.some_digit))

-- At 64 bits nothing is lost: the largest sum is 2 ^ 64, and one is taken off.
no_wrap :
    (m q : ℕ)
    → 1 ≤ m
    → m ≤ 2 ^ 57
    → q < 64
    → sub64 (u64 (64 * m + (q + 1) * m)) 1 ≡ 64 * m + (q + 1) * m - 1
no_wrap m q one small h = let p : q * m ≤ 63 * m = mul-le-mul_right m (omega arith) in omega arith

-- What `bucket_upper` makes of the index of such a bucket.
bucket_upper-index :
    (s q : ℕ) → q < 64 → s ≤ 57 → bucket_upper (64 + s * 64 + q) ≡ 64 * 2 ^ s + (q + 1) * 2 ^ s - 1
unfolding bucket_upper
bucket_upper-index s q h k =
    if-elim (λ u. u ≡ 64 * 2 ^ s + (q + 1) * 2 ^ s - 1) (ltb (64 + s * 64 + q) 64)
      (λ e. absurd (ground arith))
      (λ _.
        rw (shift, sub, one_times (s + 6), one_times s, pow_six s)
          (no_wrap (2 ^ s) q (one-le-pow s 2 (omega arith))
            (pow-le-pow_right {n = 2} (omega arith) k) h))
  where
    shift : (64 + s * 64 + q - 64) / 64 ≡ s
    shift = omega arith

    sub : (64 + s * 64 + q - 64) % 64 ≡ q
    sub = omega arith

    one_times : (t : ℕ) → 1 * 2 ^ t ≡ 2 ^ t
    one_times t = omega arith

-- How far the upper end of the bucket lies from the value.
upper_gap :
    {v : ℕ} (b : Bucket v)
    → (bucket_upper (index_of v) + b.offset + 1 ≡ v + 2 ^ b.shift) × (64 * 2 ^ b.shift ≤ v)
upper_gap {v} b =
    let u : bucket_upper (index_of v) ≡ 64 * 2 ^ b.shift + (b.sub + 1) * 2 ^ b.shift - 1 =
      ap bucket_upper b.index ∙ bucket_upper-index b.shift b.sub b.sub_small b.shift_small in
    let k : 1 ≤ 2 ^ b.shift = one-le-pow b.shift 2 (omega arith) in
    let p = b.parts in omega (arith, u, k, p)

-- Every 64-bit value has a bucket; its upper end is at or above the value, by at most one part in 64
-- of the value.
pub index_of_bounds :
    (v : ℕ)
    → v < 2 ^ 64
    → (index_of v < bucket_count)
      × (v ≤ bucket_upper (index_of v))
      × (64 * (bucket_upper (index_of v) - v) ≤ v)
index_of_bounds v h = elim (dec_lt v 64) [
  | yes small ↦ unfold index_of bucket_upper in ground arith
  | no large ↦
      let b = Bucket_of v (omega arith) h in
      let (gap, far) = upper_gap b in
      let i = b.index in
      let q = b.sub_small in
      let k = b.shift_small in
      let o = b.offset_small in
      (omega (arith, i, q, k), omega (arith, gap, o), omega (arith, gap, far, o))
]

Bucket_of-pow :
    (s : ℕ) (h : 64 ≤ 2 ^ (s + 6)) (l : 2 ^ (s + 6) < 2 ^ 64)
    → ((Bucket_of (2 ^ (s + 6)) h l).shift ≡ s) × ((Bucket_of (2 ^ (s + 6)) h l).offset ≡ 0)
unfolding Bucket_of
Bucket_of-pow s h l =
    let w = bit_width-pow s l in
    let e : s + 7 - 1 ≡ s + 6 = omega arith in
    let t : s + 6 - 6 ≡ s = omega arith in rw (w, e, t) (refl, omega arith)

-- From 256 on, at each power of two, the upper end of the bucket is more than one part in 128 of the
-- value above it.
pub bucket_upper_coarse :
    (s : ℕ)
    → 2 ≤ s
    → s ≤ 57
    → 2 ^ (s + 6) < 128 * (bucket_upper (index_of (2 ^ (s + 6))) - 2 ^ (s + 6))
bucket_upper_coarse s two few =
    let small : 2 ^ (s + 6) ≤ 2 ^ 63 =
      pow-le-pow_right {n = 2} (omega arith) {i = s + 6} {j = 63} (omega arith) in
    let four : 2 ^ 2 ≤ 2 ^ s = pow-le-pow_right {n = 2} (omega arith) two in
    let six = pow_six s in
    let b = Bucket_of (2 ^ (s + 6)) (omega (arith, four, six)) (omega (arith, small)) in
    let (shift, offset) = Bucket_of-pow s (omega (arith, four, six)) (omega (arith, small)) in
    let (gap, far) = upper_gap b in
    omega (arith, gap, offset, four, six, ap (λ (t : ℕ). 2 ^ t) shift)
