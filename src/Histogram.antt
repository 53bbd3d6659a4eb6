-- ===== src/Histogram.antt =====
-- code/include/rdb/metrics/histogram.h: the logarithmic histogram.
-- `double` does not exist here: `percentile` takes the test `static_cast<double>(seen) >= target` as
-- a parameter; `mean` and `summary` are left out.
mod Digits
pub mod Buckets
pub mod Merge
pub mod Percentile
mod Tests
use mw_study.Prelude.{
  ℕ, zero, suc, ◌+◌, ◌-◌, ◌*◌, ◌/◌, ◌%◌, ◌^◌, Bool, true, false, List, [], ◌∷◌, ltb, ◌==◌,
  if◌then◌else◌, get_or, set, replicate, u64, sub64, ◌<<<◌, ◌>>>◌,
}

abbrev pub sub_bits : ℕ
sub_bits = 6

abbrev pub sub_count : ℕ
sub_count = 64

abbrev pub bucket_count : ℕ
bucket_count = sub_count * (64 - sub_bits + 1)

-- `std::bit_width`, for numbers below `2 ^ fuel`.
pub bit_width_loop : ℕ → ℕ → ℕ
bit_width_loop zero v = 0
bit_width_loop (suc f) v = let rest = bit_width_loop f (v / 2) in if v == 0 then 0 else suc rest

pub bit_width : ℕ → ℕ
unfolding bit_width_loop
bit_width v = bit_width_loop 64 v

pub index_of : ℕ → ℕ
index_of value =
    if ltb value sub_count
    then value
    else let exponent = bit_width value - 1 in
      let shift = exponent - sub_bits in
      let sub = (value - 1 <<< exponent) >>> shift in sub_count + shift * sub_count + sub

pub bucket_upper : ℕ → ℕ
bucket_upper index =
    if ltb index sub_count
    then index
    else let rel = index - sub_count in
      let shift = rel / sub_count in
      let sub = rel % sub_count in
      let exponent = shift + sub_bits in
      let width = 1 <<< shift in sub64 (u64 (1 <<< exponent + (sub + 1) * width)) 1

pub record Histogram : Type 0 where
  pub counts : List ℕ
  pub count : ℕ
  pub sum : ℕ
  pub min_value : ℕ
  pub max_value : ℕ

abbrev pub uint64_max : ℕ
uint64_max = 2 ^ 64 - 1

pub new : Histogram
new = record {
  counts = replicate bucket_count 0;
  count = 0;
  sum = 0;
  min_value = uint64_max;
  max_value = 0;
}

-- `counts_[i] += 1`
pub bump : List ℕ → ℕ → List ℕ
bump counts i = set counts i (u64 (get_or counts i 0 + 1))

-- `record(value)`
pub record_value : ℕ → Histogram → Histogram
unfolding bump
record_value value h = record h {
  counts = bump h.counts (index_of value);
  count = u64 (h.count + 1);
  sum = u64 (h.sum + value);
  min_value = if ltb value h.min_value then value else h.min_value;
  max_value = if ltb h.max_value value then value else h.max_value;
}

-- `for (i = 0; i < kBucketCount; ++i) counts_[i] += other.counts_[i]`; both have that length.
pub merge_counts : List ℕ → List ℕ → List ℕ
merge_counts [] other = []
merge_counts (c ∷ cs) [] = c ∷ cs
merge_counts (c ∷ cs) (o ∷ os) = u64 (c + o) ∷ merge_counts cs os

pub merge : Histogram → Histogram → Histogram
unfolding merge_counts
merge h other = record h {
  counts = merge_counts h.counts other.counts;
  count = u64 (h.count + other.count);
  sum = u64 (h.sum + other.sum);
  min_value = if ltb other.min_value h.min_value then other.min_value else h.min_value;
  max_value = if ltb h.max_value other.max_value then other.max_value else h.max_value;
}

pub fill_zero : List ℕ → List ℕ
fill_zero [] = []
fill_zero (c ∷ cs) = 0 ∷ fill_zero cs

pub reset : Histogram → Histogram
unfolding fill_zero
reset h = record h {
  counts = fill_zero h.counts;
  count = 0;
  sum = 0;
  min_value = uint64_max;
  max_value = 0;
}

-- `min()` and `max()`
pub min_of : Histogram → ℕ
min_of h = if h.count == 0 then 0 else h.min_value

pub max_of : Histogram → ℕ
max_of h = h.max_value

-- The loop of `percentile`, from bucket `i` on: `reached seen` is `seen >= target` in doubles.
pub percentile_from : (reached : ℕ → Bool) → List ℕ → (i seen max : ℕ) → ℕ
unfolding bucket_upper
percentile_from reached [] i seen max = max
percentile_from reached (c ∷ cs) i seen max =
    let seen = u64 (seen + c) in
    let rest = percentile_from reached cs (i + 1) seen max in
    if reached seen then bucket_upper i else rest

pub percentile : (reached : ℕ → Bool) → Histogram → ℕ
unfolding percentile_from
percentile reached h = if h.count == 0 then 0 else percentile_from reached h.counts 0 0 h.max_value
