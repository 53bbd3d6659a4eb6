-- ===== src/Spsc/Smear.antt =====
-- The rounding of the capacity. (code/include/rdb/concurrency/spsc_ring.h)
use mw_study.Prelude.{
  ℕ, zero, suc, ◌+◌, ◌-◌, ◌*◌, ◌/◌, ◌%◌, ◌^◌, ◌≤◌, ◌<◌, ◌≡◌, refl, ap, sym, ◌∙◌, arith, bit_or, ◌⊎◌,
  inl, inr, subst, if-elim, ltb,
}
use native.Mathlib.Nat.{
  div-lt_iff_lt-mul, pow-le-pow_right, div-div-eq-div-mul, div-eq_of_lt, mul-add-div_right,
  mul_assoc, pow-suc, one-le-pow, div-add-mod', mod-lt,
}
use native.Mathlib.Decide.{dec_le, dec_lt}
use mw_study.Spsc.{smear, round_up_pow2}
use mw_study.Prelude.Bits.{bit_or-digit, mul-two-pow, pow_sum}

bit_or-zero_below : (n a : ℕ) → a ≤ n → bit_or a 0 ≡ a
bit_or-zero_below n zero h = refl
bit_or-zero_below zero (suc a) h = absurd (omega arith)
bit_or-zero_below (suc n) (suc a) h =
    omega (arith, bit_or-digit (suc a) 0, bit_or-zero_below n (suc a / 2) (omega arith))

-- Below `2 ^ k` all digits are set, and above nothing changes.
bit_or-low : (k q r : ℕ) → r < 2 ^ k → bit_or (q * 2 ^ k + r) (2 ^ k - 1) ≡ q * 2 ^ k + (2 ^ k - 1)
bit_or-low zero q r h =
    omega (arith, bit_or-zero_below (q * 2 ^ 0 + r) (q * 2 ^ 0 + r) (omega arith))
bit_or-low (suc k) q r h = ground (
  arith,
  bit_or-digit (q * 2 ^ suc k + r) (2 ^ suc k - 1),
  mul-two-pow q k,
  pow-suc 2 k,
  bit_or-low k q (r / 2),
)

div-pow_suc : (a j : ℕ) → a / 2 ^ suc j ≡ a / 2 / 2 ^ j
div-pow_suc a j =
    let p : 2 * 2 ^ j ≡ 2 ^ suc j = omega (arith, pow-suc 2 j) in
    sym (div-div-eq-div-mul a 2 (2 ^ j) ∙ ap (λ t. a / t) p)

bit_or-div : (j a b : ℕ) → bit_or a b / 2 ^ j ≡ bit_or (a / 2 ^ j) (b / 2 ^ j)
bit_or-div zero a b =
    let whole : (x : ℕ) → x / 2 ^ 0 ≡ x = λ x. omega arith in
    whole (bit_or a b) ∙ sym (ap (λ x. bit_or x (b / 2 ^ 0)) (whole a) ∙ ap (bit_or a) (whole b))
bit_or-div (suc j) a b =
    let half : bit_or a b / 2 ≡ bit_or (a / 2) (b / 2) = omega (arith, bit_or-digit a b) in
    rw (div-pow_suc (bit_or a b) j, div-pow_suc a j, div-pow_suc b j, half)
      (bit_or-div j (a / 2) (b / 2))

-- The `s` digits above `m` digits `r` are set.
abbrev topped : (s m r : ℕ) → ℕ
topped s m r = (2 ^ s - 1) * 2 ^ m + r

one_pow : (k : ℕ) → 1 ≤ 2 ^ k
one_pow k = one-le-pow k 2 (omega arith)

all_ones : (s m : ℕ) → topped s m (2 ^ m - 1) ≡ 2 ^ (s + m) - 1
all_ones s m =
    let p = pow_sum s m in
    let q = one_pow m in
    let t = one_pow s in
    let u : (2 ^ s - 1) * 2 ^ m + 2 ^ m ≡ 2 ^ s * 2 ^ m =
      let e : 2 ^ s ≡ (2 ^ s - 1) + 1 = omega arith in omega (arith, ap (λ t. t * 2 ^ m) e) in
    omega (arith, p, q, u)

topped-div : (s m r : ℕ) → r < 2 ^ m → topped s m r / 2 ^ m ≡ 2 ^ s - 1
topped-div s m r h =
    mul-add-div_right (one_pow m) (2 ^ s - 1) r
    ∙ ap (λ t. 2 ^ s - 1 + t) (div-eq_of_lt h)
    ∙ omega arith

-- A step that sets as many digits again, and `j` are left.
step_more :
    (s j r : ℕ)
    → r < 2 ^ (s + j)
    → bit_or (topped s (s + j) r) (topped s (s + j) r / 2 ^ s) / 2 ^ j ≡ 2 ^ (s + s) - 1
step_more s j r h =
    let v = topped s (s + j) r in
    let below : v / 2 ^ s / 2 ^ j ≡ 2 ^ s - 1 =
      div-div-eq-div-mul v (2 ^ s) (2 ^ j)
      ∙ ap (λ t. v / t) (sym (pow_sum s j))
      ∙ topped-div s (s + j) r h in
    let regroup : v ≡ (2 ^ s - 1) * 2 ^ s * 2 ^ j + r =
      omega
        (arith, ap (λ t. (2 ^ s - 1) * t) (pow_sum s j), mul_assoc (2 ^ s - 1) (2 ^ s) (2 ^ j)) in
    let above : v / 2 ^ j ≡ (2 ^ s - 1) * 2 ^ s + r / 2 ^ j =
      ap (λ t. t / 2 ^ j) regroup ∙ mul-add-div_right (one_pow j) ((2 ^ s - 1) * 2 ^ s) r in
    let small : r / 2 ^ j < 2 ^ s =
      (div-lt_iff_lt-mul (one_pow j)).1 (omega (arith, h, pow_sum s j)) in
    bit_or-div j v (v / 2 ^ s)
    ∙ rw (above, below) (bit_or-low s (2 ^ s - 1) (r / 2 ^ j) small ∙ all_ones s s)

-- A step after which all are set.
step_last :
    (d m r : ℕ)
    → r < 2 ^ m
    → bit_or (topped (d + m) m r) (topped (d + m) m r / 2 ^ (d + m)) ≡ 2 ^ (d + m + m) - 1
step_last d m r h =
    let s = d + m in
    let v = topped s m r in
    let swap : 2 ^ s ≡ 2 ^ m * 2 ^ d =
      ap (λ (t : ℕ). 2 ^ t) {x = d + m} {y = m + d} (omega arith) ∙ pow_sum m d in
    let below : v / 2 ^ s ≡ 2 ^ m - 1 =
      ap (λ t. v / t) swap
      ∙ sym (div-div-eq-div-mul v (2 ^ m) (2 ^ d))
      ∙ ap (λ t. t / 2 ^ d)
          (topped-div s m r h
            ∙ sym (ap (λ t. t - 1) (ap (λ (t : ℕ). 2 ^ t) {x = m + d} {y = d + m} (omega arith)))
            ∙ sym (all_ones m d))
      ∙ topped-div m d (2 ^ d - 1) (let one = one_pow d in omega arith) in
    rw below (bit_or-low m (2 ^ s - 1) r h ∙ all_ones s m)

-- A step when all are set.
step_done : (n s : ℕ) → n ≤ s → bit_or (2 ^ n - 1) ((2 ^ n - 1) / 2 ^ s) ≡ 2 ^ n - 1
step_done n s h =
    let small : 2 ^ n ≤ 2 ^ s = pow-le-pow_right {n = 2} (omega arith) {i = n} {j = s} h in
    let one = one_pow n in
    let none_below : (2 ^ n - 1) / 2 ^ s ≡ 0 = div-eq_of_lt (omega arith) in
    rw none_below (bit_or-zero_below (2 ^ n - 1) (2 ^ n - 1) (omega arith))

-- Of the `n` digits of `v`, the first `s` are set, or all.
Topped : (n s v : ℕ) → Type 0
Topped n s v =
    ((n ≤ s) × (v ≡ 2 ^ n - 1))
    ⊎ ((j : ℕ) × ((r : ℕ) × ((n ≡ s + j) × (r < 2 ^ j) × (v ≡ topped s j r))))

last-Topped :
    (n s j r v : ℕ)
    → n ≡ s + j
    → r < 2 ^ j
    → v ≡ topped s j r
    → j ≤ s
    → bit_or v (v / 2 ^ s) ≡ 2 ^ n - 1
last-Topped n s j r v e h ev few =
    let d : s ≡ s - j + j = omega arith in
    rw (ev, e)
      (subst (λ t. bit_or (topped t j r) (topped t j r / 2 ^ t) ≡ 2 ^ (t + j) - 1) (sym d)
        (step_last (s - j) j r h))

more-Topped :
    (n s j r v : ℕ)
    → n ≡ s + (s + j)
    → r < 2 ^ (s + j)
    → v ≡ topped s (s + j) r
    → Topped n (s * 2) (bit_or v (v / 2 ^ s))
unfolding Topped
more-Topped n s j r v e h ev =
    let w = bit_or v (v / 2 ^ s) in
    let top : w / 2 ^ j ≡ 2 ^ (s + s) - 1 = rw ev (step_more s j r h) in
    let twice : 2 ^ (s + s) ≡ 2 ^ (s * 2) =
      ap (λ (t : ℕ). 2 ^ t) {x = s + s} {y = s * 2} (omega arith) in
    inr (
      j,
      (
        w % 2 ^ j,
        (
          omega (arith, e),
          mod-lt w (one_pow j),
          sym (div-add-mod' w (2 ^ j))
              ∙ ap (λ t. t * 2 ^ j + w % 2 ^ j) (top ∙ ap (λ t. t - 1) twice),
        ),
      ),
    )

step-Topped : (n s v : ℕ) → Topped n s v → Topped n (s * 2) (bit_or v (v / 2 ^ s))
unfolding Topped
step-Topped n s v (inl (h, e)) =
    inl (omega arith, ap (λ t. bit_or t (t / 2 ^ s)) e ∙ step_done n s h)
step-Topped n s v (inr (j, (r, (e, h, ev)))) = elim (dec_le j s) [
  | yes few ↦ inl (omega (arith, e), last-Topped n s j r v e h ev few)
  | no many ↦
      let d : j ≡ s + (j - s) = omega arith in
      more-Topped n s (j - s) r v (omega (arith, e, d)) (rw (← d) h) (ev ∙ ap (λ t. topped s t r) d)
]

smear-Topped : (f n s v : ℕ) → n ≤ 63 → 64 ≤ s * 2 ^ f → Topped n s v → smear f s v ≡ 2 ^ n - 1
unfolding smear Topped
smear-Topped zero n s v h enough (inl (k, e)) = e
smear-Topped zero n s v h enough (inr (j, (r, (e, k, ev)))) = absurd (omega arith)
smear-Topped (suc f) n s v h enough t =
    if-elim (λ x. x ≡ 2 ^ n - 1) (ltb s 64)
      (λ _.
        smear-Topped f n (s * 2) (bit_or v (v / 2 ^ s)) h (omega (arith, enough, mul-two-pow s f))
          (step-Topped n s v t))
      (λ e. over (ground arith) t)
  where
    over : 64 ≤ s → Topped n s v → v ≡ 2 ^ n - 1
    over k (inl (l, e)) = e
    over k (inr (j, (r, (e, l, ev)))) = absurd (omega arith)

-- The power of two at or below a number.
top_digit : (k v : ℕ) → 1 ≤ v → v < 2 ^ k → (p : ℕ) × ((p < k) × (2 ^ p ≤ v) × (v < 2 ^ suc p))
top_digit zero v one h = absurd (omega arith)
top_digit (suc k) v one h = elim (dec_lt v (2 ^ k)) [
  | yes below ↦ let (p, (a, b, c)) = top_digit k v one below in (p, (omega arith, b, c))
  | no above ↦ (k, (omega arith, omega arith, h))
]

-- For a capacity of at most 2^63, round_up_pow2 gives the least power of two that is at least 2
-- and at least the capacity.
pub round_up_pow2-least :
    (v : ℕ)
    → v ≤ 2 ^ 63
    → (bits : ℕ) × ((1 ≤ bits)
        × (bits ≤ 63)
        × (round_up_pow2 v ≡ 2 ^ bits)
        × (v ≤ 2 ^ bits)
        × (2 < 2 ^ bits → 2 ^ bits < 2 * v))
unfolding round_up_pow2
round_up_pow2-least v h = elim (dec_lt v 2) [
  | yes small ↦ (
    1,
    (
      omega arith,
      omega arith,
      if-elim (λ x. x ≡ 2) (ltb v 2) (λ _. refl) (λ e. absurd (ground arith)),
      omega arith,
      λ k. absurd (omega arith),
    ),
  )
  | no large ↦
      let (p, (few, low, high)) = top_digit 63 (v - 1) (omega arith) (omega arith) in
      let start : Topped (suc p) 1 (v - 1) =
        unfold Topped in
        inr (
          p,
          (v - 1 - 2 ^ p, (omega arith, omega (arith, high, pow-suc 2 p), omega (arith, low))),
        ) in
      let ones : smear 7 1 (v - 1) ≡ 2 ^ suc p - 1 =
        smear-Topped 7 (suc p) 1 (v - 1) (omega arith) (omega arith) start in
      let small : 2 ^ suc p ≤ 2 ^ 63 =
        pow-le-pow_right {n = 2} (omega arith) {i = suc p} {j = 63} (omega arith) in
      let one = one_pow (suc p) in
      (
        suc p,
        (
          omega arith,
          omega arith,
          if-elim (λ x. x ≡ 2 ^ suc p) (ltb v 2) (λ e. absurd (ground arith))
              (λ _. omega (arith, ones, small, one)),
          omega (arith, high),
          λ _. omega (arith, low, pow-suc 2 p),
        ),
      )
]
