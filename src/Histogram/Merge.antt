-- ===== src/Histogram/Merge.antt =====
-- Merging histograms is recording all their values in one. (code/include/rdb/metrics/histogram.h)
use mw_study.Prelude.{
  ℕ, zero, suc, ◌+◌, ◌≤◌, ◌<◌, ◌^◌, ◌≡◌, refl, ap, sym, ◌∙◌, List, [], ◌∷◌, ◌++◌, arith, ltb,
  if◌then◌else◌, length, replicate, get_or, set, length-set, length-replicate, u64,
}
use mw_study.Histogram.{
  Histogram, bucket_count, uint64_max, new, bump, record_value, merge_counts, merge, index_of,
}
use mw_study.Histogram.Buckets.{index_of_bounds}

abbrev AllSmall : List ℕ → Type 0
AllSmall [] = Unit
AllSmall (c ∷ cs) = (c < 2 ^ 64) × AllSmall cs

-- Every member holds a value of its type, and there is a counter for each bucket.
pub record IsValid (h : Histogram) : Type 0 where
  pub all_buckets : length h.counts ≡ bucket_count
  pub small_counts : AllSmall h.counts
  pub small_count : h.count < 2 ^ 64
  pub small_sum : h.sum < 2 ^ 64
  pub small_min : h.min_value ≤ uint64_max
  pub small_max : h.max_value ≤ uint64_max

abbrev pub AllValues : List ℕ → Type 0
AllValues [] = Unit
AllValues (v ∷ vs) = (v < 2 ^ 64) × AllValues vs

-- `record` for each value in turn.
unfoldable pub record_all : List ℕ → Histogram → Histogram
record_all [] h = h
record_all (v ∷ vs) h = record_all vs (record_value v h)

AllSmall-set : (cs : List ℕ) (i v : ℕ) → AllSmall cs → v < 2 ^ 64 → AllSmall (set cs i v)
AllSmall-set [] i v h k = tt
AllSmall-set (c ∷ cs) zero v h k = (k, h.1)
AllSmall-set (c ∷ cs) (suc i) v h k = (h.0, AllSmall-set cs i v h.1 k)

AllSmall-replicate : (n : ℕ) → AllSmall (replicate n 0)
AllSmall-replicate zero = tt
AllSmall-replicate (suc n) = (omega arith, AllSmall-replicate n)

pub new-IsValid : IsValid new
unfolding new
new-IsValid = record {
  all_buckets = length-replicate bucket_count zero;
  small_counts = AllSmall-replicate bucket_count;
  small_count = omega arith;
  small_sum = omega arith;
  small_min = omega arith;
  small_max = omega arith;
}

pub record_value-IsValid :
    (v : ℕ) {h : Histogram} → v < 2 ^ 64 → IsValid h → IsValid (record_value v h)
unfolding record_value
record_value-IsValid v {h} l i = record {
  all_buckets =
      length-set h.counts (index_of v) (u64 (get_or h.counts (index_of v) 0 + 1)) ∙ i.all_buckets;
  small_counts = AllSmall-set h.counts (index_of v) _ i.small_counts (omega arith);
  small_count = omega arith;
  small_sum = omega arith;
  small_min = let k = i.small_min in ground arith;
  small_max = let k = i.small_max in ground arith;
}

record_all-IsValid :
    (vs : List ℕ) {h : Histogram} → AllValues vs → IsValid h → IsValid (record_all vs h)
unfolding record_all
record_all-IsValid [] a i = i
record_all-IsValid (v ∷ vs) a i = record_all-IsValid vs a.1 (record_value-IsValid v a.0 i)

merge_counts-bump :
    (cs os : List ℕ) (i : ℕ)
    → length cs ≡ length os
    → i < length os
    → merge_counts cs (bump os i) ≡ bump (merge_counts cs os) i
unfolding merge_counts bump
merge_counts-bump [] [] i e h = refl
merge_counts-bump [] (o ∷ os) i e h = absurd (omega arith)
merge_counts-bump (c ∷ cs) [] i e h = absurd (omega arith)
merge_counts-bump (c ∷ cs) (o ∷ os) zero e h = ap (λ n. n ∷ merge_counts cs os) (omega arith)
merge_counts-bump (c ∷ cs) (o ∷ os) (suc i) e h =
    ap (◌∷◌ (u64 (c + o))) (merge_counts-bump cs os i (omega arith) (omega arith))

merge_counts-zeros : (cs : List ℕ) (n : ℕ) → AllSmall cs → merge_counts cs (replicate n 0) ≡ cs
unfolding merge_counts
merge_counts-zeros [] n a = refl
merge_counts-zeros (c ∷ cs) zero a = refl
merge_counts-zeros (c ∷ cs) (suc n) a =
    let (small, rest) = a in λ i. same small i ∷ merge_counts-zeros cs n rest i
  where
    same : c < 2 ^ 64 → u64 (c + 0) ≡ c
    same k = omega arith

-- What `std::min` and `std::max` give.
abbrev smaller : ℕ → ℕ → ℕ
smaller a b = if ltb a b then a else b

abbrev larger : ℕ → ℕ → ℕ
larger a b = if ltb a b then b else a

smaller_assoc : (v b a : ℕ) → smaller (smaller v b) a ≡ smaller v (smaller b a)
smaller_assoc v b a = ground arith

larger_assoc : (a b v : ℕ) → larger a (larger b v) ≡ larger (larger a b) v
larger_assoc a b v = ground arith

sum_assoc : (a b c : ℕ) → u64 (a + u64 (b + c)) ≡ u64 (u64 (a + b) + c)
sum_assoc a b c = omega arith

merge-record_value :
    (v : ℕ) (h o : Histogram)
    → v < 2 ^ 64
    → IsValid h
    → IsValid o
    → merge h (record_value v o) ≡ record_value v (merge h o)
unfolding merge record_value
merge-record_value v h o l i j =
    let counts =
      merge_counts-bump h.counts o.counts (index_of v) (i.all_buckets ∙ sym j.all_buckets)
        (rw j.all_buckets (index_of_bounds v l).0) in
    λ k. record {
      counts = counts k;
      count = sum_assoc h.count o.count 1 k;
      sum = sum_assoc h.sum o.sum v k;
      min_value = smaller_assoc v o.min_value h.min_value k;
      max_value = larger_assoc h.max_value o.max_value v k;
    }

merge-record_all :
    (vs : List ℕ) (h o : Histogram)
    → AllValues vs
    → IsValid h
    → IsValid o
    → merge h (record_all vs o) ≡ record_all vs (merge h o)
unfolding record_all
merge-record_all [] h o a i j = refl
merge-record_all (v ∷ vs) h o a i j =
    merge-record_all vs h (record_value v o) a.1 i (record_value-IsValid v a.0 j)
    ∙ ap (record_all vs) (merge-record_value v h o a.0 i j)

same_sum : (a : ℕ) → a < 2 ^ 64 → u64 (a + 0) ≡ a
same_sum a h = omega arith

same_min : (a : ℕ) → a ≤ uint64_max → smaller uint64_max a ≡ a
same_min a h = ground arith

same_max : (a : ℕ) → larger a 0 ≡ a
same_max a = ground arith

merge-new : (h : Histogram) → IsValid h → merge h new ≡ h
unfolding merge new
merge-new h i = λ k. record {
  counts = merge_counts-zeros h.counts bucket_count i.small_counts k;
  count = same_sum h.count i.small_count k;
  sum = same_sum h.sum i.small_sum k;
  min_value = same_min h.min_value i.small_min k;
  max_value = same_max h.max_value k;
}

record_all-append :
    (xs ys : List ℕ) (h : Histogram) → record_all (xs ++ ys) h ≡ record_all ys (record_all xs h)
unfolding record_all
record_all-append [] ys h = refl
record_all-append (x ∷ xs) ys h = record_all-append xs ys (record_value x h)

-- Merging the histogram of one sequence of 64-bit values with that of another gives, in every
-- member, the histogram that recorded the first sequence and then the second.
pub merge-record_all-new :
    (xs ys : List ℕ)
    → AllValues xs
    → AllValues ys
    → merge (record_all xs new) (record_all ys new) ≡ record_all (xs ++ ys) new
merge-record_all-new xs ys a b =
    let i = record_all-IsValid xs a new-IsValid in
    merge-record_all ys (record_all xs new) new b i new-IsValid
    ∙ ap (record_all ys) (merge-new (record_all xs new) i)
    ∙ sym (record_all-append xs ys new)
