-- ===== src/Histogram/Tests.antt =====
-- The histogram at concrete values. (code/include/rdb/metrics/histogram.h)
use mw_study.Prelude.{◌+◌, ◌-◌, ◌*◌, ◌<◌, ◌≤◌, ◌^◌, ◌≡◌, refl, [], ◌∷◌, ◌++◌, arith, leb}
use mw_study.Histogram.Percentile.{FirstReached, percentile-FirstReached}
use mw_study.Histogram.{
  percentile, bucket_count, bit_width, bit_width_loop, index_of, bucket_upper, new, merge,
}
use mw_study.Histogram.Buckets.{index_of_bounds, bucket_upper_coarse}
use mw_study.Histogram.Merge.{record_all, merge-record_all-new}

-- Adjacent buckets meet.
two_buckets : (index_of 1000 ≡ 317) × (bucket_upper 317 ≡ 1007) × (index_of 1008 ≡ 318)
unfolding index_of bit_width bit_width_loop bucket_upper
two_buckets = (refl, refl, refl)

last_bucket :
    (index_of (2 ^ 64 - 1) ≡ bucket_count - 1) × (bucket_upper (bucket_count - 1) ≡ 2 ^ 64 - 1)
unfolding index_of bit_width bit_width_loop bucket_upper
last_bucket = (refl, refl)

index_of_bounds_example :
    (index_of 1000 < bucket_count)
    × (1000 ≤ bucket_upper (index_of 1000))
    × (64 * (bucket_upper (index_of 1000) - 1000) ≤ 1000)
index_of_bounds_example = index_of_bounds 1000 (omega arith)

bucket_upper_coarse_example :
    2 ^ (2 + 6) < 128 * (bucket_upper (index_of (2 ^ (2 + 6))) - 2 ^ (2 + 6))
bucket_upper_coarse_example = bucket_upper_coarse 2 (omega arith) (omega arith)

merge-record_all-new_example :
    merge (record_all (5 ∷ 1000 ∷ []) new) (record_all (7 ∷ []) new)
    ≡ record_all ((5 ∷ 1000 ∷ []) ++ (7 ∷ [])) new
merge-record_all-new_example =
    merge-record_all-new (5 ∷ 1000 ∷ []) (7 ∷ []) (omega arith, (omega arith, tt)) (omega arith, tt)

-- The test of the median of four values: `seen >= 2`.
percentile-FirstReached_example :
    FirstReached
      (leb 2)
      (3 ∷ 1000 ∷ 2000 ∷ 5 ∷ [])
      0
      (percentile (leb 2) (record_all (3 ∷ 1000 ∷ 2000 ∷ 5 ∷ []) new))
percentile-FirstReached_example =
    percentile-FirstReached (leb 2) (3 ∷ 1000 ∷ 2000 ∷ 5 ∷ [])
      (omega arith, (omega arith, (omega arith, (omega arith, tt)))) (omega arith) (omega arith)
      refl
