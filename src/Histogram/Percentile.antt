-- ===== src/Histogram/Percentile.antt =====
-- What percentile gives. (code/include/rdb/metrics/histogram.h)
use mw_study.Prelude.{
  ℕ, zero, suc, ◌+◌, ◌≤◌, ◌<◌, ◌^◌, ◌%◌, ◌≡◌, ◌≢◌, refl, ap, sym, ◌∙◌, subst, Bool, true, false,
  Bool-cases, inl, inr, List, [], ◌∷◌, arith, ltb, ◌==◌, if◌then◌else◌, length, replicate, get_or,
  get_or-set_self, get_or-set_ne, u64,
}
use native.Mathlib.Decide.{dec_le}
use mw_study.Histogram.{
  Histogram, bucket_count, bucket_upper, new, bump, record_value, index_of, percentile_from,
  percentile,
}
use mw_study.Histogram.Buckets.{index_of_bounds}
use mw_study.Histogram.Merge.{AllValues, record_all, IsValid, new-IsValid, record_value-IsValid}

-- How many of the values are in bucket `i`, and in the buckets before it.
abbrev pub hits : ℕ → List ℕ → ℕ
hits i [] = 0
hits i (v ∷ vs) = if index_of v == i then suc (hits i vs) else hits i vs

abbrev pub before : ℕ → List ℕ → ℕ
before i [] = 0
before i (v ∷ vs) = if ltb (index_of v) i then suc (before i vs) else before i vs

before-suc : (i : ℕ) (vs : List ℕ) → before (i + 1) vs ≡ before i vs + hits i vs
before-suc i [] = refl
before-suc i (v ∷ vs) = ground (arith, before-suc i vs)

before-zero : (vs : List ℕ) → before 0 vs ≡ 0
before-zero [] = refl
before-zero (v ∷ vs) = ground (arith, before-zero vs)

before-length : (i : ℕ) (vs : List ℕ) → before i vs ≤ length vs
before-length i [] = omega arith
before-length i (v ∷ vs) = ground (arith, before-length i vs)

before-all : (vs : List ℕ) → AllValues vs → before bucket_count vs ≡ length vs
before-all [] h = refl
before-all (v ∷ vs) h = ground (arith, before-all vs h.1, (index_of_bounds v h.0).0)

bumped :
    (j v : ℕ) (h : Histogram)
    → v < 2 ^ 64
    → IsValid h
    → get_or (record_value v h).counts j 0
      ≡ (if index_of v == j then u64 (get_or h.counts j 0 + 1) else get_or h.counts j 0)
unfolding record_value bump
bumped j v h small i = elim (Bool-cases (index_of v == j)) [
  | inl e ↦
      let at_j : index_of v ≡ j = ground arith in
      let fits = (index_of_bounds v small).0 in
      rw (e, ← at_j)
        (get_or-set_self h.counts (index_of v) (u64 (get_or h.counts (index_of v) 0 + 1)) 0
          (rw i.all_buckets fits))
  | inr e ↦
      let apart : index_of v ≢ j = λ f. ground arith in
      rw e (get_or-set_ne h.counts {i = index_of v} {j = j} _ 0 apart)
]

record_all-get_or :
    (j : ℕ) (vs : List ℕ) (h : Histogram)
    → AllValues vs
    → IsValid h
    → get_or h.counts j 0 < 2 ^ 64
    → get_or (record_all vs h).counts j 0 ≡ (get_or h.counts j 0 + hits j vs) % 2 ^ 64
unfolding record_all
record_all-get_or j [] h a i small = omega (arith, small)
record_all-get_or j (v ∷ vs) h a i small =
    let k = record_value-IsValid v {h = h} a.0 i in
    let b = bumped j v h a.0 i in
    let fits : get_or (record_value v h).counts j 0 < 2 ^ 64 = ground (arith, b, small) in
    let rest = record_all-get_or j vs (record_value v h) a.1 k fits in
    ground (arith, b, rest, small)

record_all-count :
    (vs : List ℕ) (h : Histogram)
    → h.count < 2 ^ 64
    → (record_all vs h).count ≡ (h.count + length vs) % 2 ^ 64
unfolding record_all record_value
record_all-count [] h small = omega (arith, small)
record_all-count (v ∷ vs) h small =
    let rest = record_all-count vs (record_value v h) (omega arith) in omega (arith, rest)

record_all-length :
    (vs : List ℕ) (h : Histogram)
    → AllValues vs
    → IsValid h
    → length (record_all vs h).counts ≡ bucket_count
unfolding record_all
record_all-length [] h a i = i.all_buckets
record_all-length (v ∷ vs) h a i =
    record_all-length vs (record_value v h) a.1 (record_value-IsValid v {h = h} a.0 i)

get_or-zeros : (n j : ℕ) → get_or {A = ℕ} (replicate n 0) j 0 ≡ 0
get_or-zeros zero j = refl
get_or-zeros (suc n) zero = refl
get_or-zeros (suc n) (suc j) = get_or-zeros n j

-- The first bucket, from `i` on, with which enough of the values are seen, and that the result is its
-- upper end.
pub record FirstReached (reached : ℕ → Bool) (vs : List ℕ) (i result : ℕ) : Type 0 where
  pub bucket : ℕ
  pub inside : bucket < bucket_count
  pub upper : result ≡ bucket_upper bucket
  pub enough : reached (before (bucket + 1) vs) ≡ true
  pub first : (j : ℕ) → i ≤ j → j < bucket → reached (before (j + 1) vs) ≡ false

seen_next :
    (reached : ℕ → Bool) (vs : List ℕ) (c : ℕ) (cs : List ℕ) (i : ℕ)
    → length vs < 2 ^ 64
    → ((k : ℕ) → k < suc (length cs) → get_or (c ∷ cs) k 0 ≡ hits (i + k) vs)
    → u64 (before i vs + c) ≡ before (i + 1) vs
seen_next reached vs c cs i small counts =
    let here : c ≡ hits i vs =
      counts 0 (omega arith) ∙ ap (λ k. hits k vs) {x = i + 0} {y = i} (omega arith) in
    omega (arith, here, before-suc i vs, before-length (i + 1) vs, small)

found :
    (reached : ℕ → Bool) (vs : List ℕ) (i : ℕ)
    → i < bucket_count
    → reached (before (i + 1) vs) ≡ true
    → FirstReached reached vs i (bucket_upper i)
found reached vs i h hit = record {
  bucket = i;
  inside = h;
  upper = refl;
  enough = hit;
  first = λ j a b. absurd (omega arith);
}

missed :
    (reached : ℕ → Bool) (vs : List ℕ) (i : ℕ) {result : ℕ}
    → reached (before (i + 1) vs) ≡ false
    → FirstReached reached vs (i + 1) result
    → FirstReached reached vs i result
missed reached vs i miss h = record {
  bucket = h.bucket;
  inside = h.inside;
  upper = h.upper;
  enough = h.enough;
  first = λ j a b. elim (dec_le (i + 1) j) [
    | yes after ↦ h.first j after b
    | no at ↦ let e : i + 1 ≡ j + 1 = omega arith in sym (ap (λ k. reached (before k vs)) e) ∙ miss
  ];
}

percentile_from-FirstReached :
    (reached : ℕ → Bool) (vs : List ℕ) (c : ℕ) (cs : List ℕ) (i max : ℕ)
    → length vs < 2 ^ 64
    → reached (before bucket_count vs) ≡ true
    → i + suc (length cs) ≡ bucket_count
    → ((k : ℕ) → k < suc (length cs) → get_or (c ∷ cs) k 0 ≡ hits (i + k) vs)
    → FirstReached reached vs i (percentile_from reached (c ∷ cs) i (before i vs) max)
unfolding percentile_from
percentile_from-FirstReached reached vs c [] i max small all fits counts =
    let seen = seen_next reached vs c [] i small counts in
    elim (Bool-cases (reached (before (i + 1) vs))) [
      | inl hit ↦ rw (percentile_from, seen, hit) (found reached vs i (omega (arith, fits)) hit)
      | inr miss ↦
          let last : bucket_count ≡ i + 1 = omega (arith, fits) in
          absurd (let t = ap (λ b. reached (before b vs)) last in cc)
    ]
percentile_from-FirstReached reached vs c (d ∷ ds) i max small all fits counts =
    let seen = seen_next reached vs c (d ∷ ds) i small counts in
    elim (Bool-cases (reached (before (i + 1) vs))) [
      | inl hit ↦ rw (percentile_from, seen, hit) (found reached vs i (omega (arith, fits)) hit)
      | inr miss ↦
          let rest =
            percentile_from-FirstReached reached vs d ds (i + 1) max small all (omega (arith, fits))
              (λ k l.
                let e : i + suc k ≡ i + 1 + k = omega arith in
                counts (suc k) (omega (arith, l)) ∙ ap (λ b. hits b vs) e) in
          rw (percentile_from, seen, miss) (missed reached vs i miss rest)
    ]

hits-length : (i : ℕ) (vs : List ℕ) → hits i vs ≤ length vs
hits-length i [] = omega arith
hits-length i (v ∷ vs) = ground (arith, hits-length i vs)

-- A new histogram counts the values of each bucket.
new-hits :
    (vs : List ℕ)
    → AllValues vs
    → length vs < 2 ^ 64
    → (j : ℕ) → get_or (record_all vs new).counts j 0 ≡ hits j vs
new-hits vs a small j =
    let zero_there : get_or new.counts j 0 ≡ 0 = unfold new in get_or-zeros bucket_count j in
    let k = record_all-get_or j vs new a new-IsValid (omega (arith, zero_there)) in
    omega (arith, k, zero_there, hits-length j vs, small)

-- percentile of the values recorded in a new histogram, fewer than 2^64 of them and at least one:
-- with the test `seen >= target` true for all of them, the result is the upper end of the first
-- bucket such that the test is true of how many values are in it and in the buckets before it.
pub percentile-FirstReached :
    (reached : ℕ → Bool) (vs : List ℕ)
    → AllValues vs
    → 0 < length vs
    → length vs < 2 ^ 64
    → reached (length vs) ≡ true
    → FirstReached reached vs 0 (percentile reached (record_all vs new))
unfolding percentile
percentile-FirstReached reached vs a some_value small all =
    let h = record_all vs new in
    let n : h.count ≡ length vs = unfold new in omega (arith, record_all-count vs new, small) in
    let filled : (h.count == 0) ≡ false = ground (arith, n, some_value) in
    let enough : reached (before bucket_count vs) ≡ true = ap reached (before-all vs a) ∙ all in
    rw (percentile, filled)
      (from_counts h.counts enough (record_all-length vs new a new-IsValid) (new-hits vs a small))
  where
    from_counts :
        (cs : List ℕ)
        → reached (before bucket_count vs) ≡ true
        → length cs ≡ bucket_count
        → ((k : ℕ) → get_or cs k 0 ≡ hits k vs)
        → FirstReached reached vs 0 (percentile_from reached cs 0 0 (record_all vs new).max_value)
    from_counts [] e l k = absurd (omega arith)
    from_counts (c ∷ cs) e l k =
        subst
          (λ s.
            FirstReached reached vs 0
              (percentile_from reached (c ∷ cs) 0 s (record_all vs new).max_value))
          (before-zero vs)
          (percentile_from-FirstReached reached vs c cs 0 (record_all vs new).max_value small e
            (omega (arith, l)) (λ j l. k j ∙ ap (λ b. hits b vs) {x = j} {y = 0 + j} (omega arith)))
