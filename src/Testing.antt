-- ===== src/Testing.antt =====
-- code/include/rdb/testing/check.h: the registry of the tests, and waiting for a condition.
-- What a test does is its outcome; the macros throw an AssertionFailure, and what is printed is a list.
mod Tests
use Prim.Native.String.{String}
use mw_study.Prelude.{
  ℕ, zero, suc, ◌+◌, ◌≤◌, ◌≡◌, ◌↔◌, refl, ap, sym, ◌∙◌, Bool, true, false, Bool-cases, inl, inr,
  ◌⊎◌, Option, none, some, List, [], ◌∷◌, ◌++◌, arith, ltb, ◌==◌, if◌then◌else◌, if-elim, get_elem?,
  AllOf,
}

-- How a call of a test ends: it returns, or throws an AssertionFailure or another exception.
pub data TestOutcome : Type 0 where
  passes : TestOutcome
  fails throws : String → TestOutcome

pub record TestCase : Type 0 where
  pub name : String
  pub outcome : TestOutcome

-- `Registrar(name, fn)`
unfoldable pub register : String → TestOutcome → List TestCase → List TestCase
register name outcome registry = registry ++ (record { name = name; outcome = outcome } ∷ [])

unfoldable pub failures : TestOutcome → ℕ
failures passes = 0
failures (fails message) = 1
failures (throws message) = 1

-- The loop of `run_all`, with `failed` so far.
unfoldable pub count_failed : ℕ → List TestCase → ℕ
unfolding failures
count_failed failed [] = failed
count_failed failed (test ∷ tests) = count_failed (failed + failures test.outcome) tests

-- What `run_all` returns; the number of failures is that of an `int`.
unfoldable pub run_all : List TestCase → ℕ
unfolding count_failed
run_all registry = if count_failed 0 registry == 0 then 0 else 1

-- `wait_for`: the clock at each test of the loop and what `pred()` then returns; `none` while it
-- waits. Once the deadline has come it looks a last time.
unfoldable pub wait_for : (deadline : ℕ) → List (ℕ × Bool) → Option Bool
wait_for deadline [] = none
wait_for deadline ((now, holds) ∷ rounds) =
    let rest = wait_for deadline rounds in
    if ltb now deadline then if holds then some true else rest else some holds

count_failed-all :
    (failed : ℕ) (tests : List TestCase)
    → (count_failed failed tests ≡ 0)
      ↔ ((failed ≡ 0) × AllOf (λ (t : TestCase). t.outcome ≡ passes) tests)
unfolding count_failed failures
count_failed-all failed [] = ((λ e. (e, tt)), λ h. h.0)
count_failed-all failed (test ∷ tests) =
    by_outcome test.outcome (count_failed-all (failed + failures test.outcome) tests)
  where
    by_outcome :
        (o : TestOutcome)
        → (count_failed (failed + failures o) tests ≡ 0)
          ↔ ((failed + failures o ≡ 0) × AllOf (λ (t : TestCase). t.outcome ≡ passes) tests)
        → (count_failed (failed + failures o) tests ≡ 0)
          ↔ ((failed ≡ 0) × ((o ≡ passes) × AllOf (λ (t : TestCase). t.outcome ≡ passes) tests))
    by_outcome passes k = (
      λ e. let h = k.0 e in (omega (arith, h.0), (refl, h.1)),
      λ h. k.1 (omega (arith, h.0), h.1.1),
    )
    by_outcome (fails message) k =
        ((λ e. let h = k.0 e in absurd (omega (arith, h.0))), λ h. let p = h.1.0 in absurd (cc))
    by_outcome (throws message) k =
        ((λ e. let h = k.0 e in absurd (omega (arith, h.0))), λ h. let p = h.1.0 in absurd (cc))

-- run_all returns 0 exactly when every registered test passes, and 1 otherwise.
pub run_all-zero_iff :
    (tests : List TestCase)
    → ((run_all tests ≡ 0) ↔ AllOf (λ (t : TestCase). t.outcome ≡ passes) tests)
      × ((run_all tests ≡ 0) ⊎ (run_all tests ≡ 1))
unfolding run_all
run_all-zero_iff tests =
    let k = count_failed-all 0 tests in
    elim (Bool-cases (count_failed 0 tests == 0)) [
      | inl none_failed ↦
          let e : count_failed 0 tests ≡ 0 = ground arith in
          rw (run_all, none_failed) (((λ _. (k.0 e).1), λ _. refl), inl refl)
      | inr some_failed ↦
          rw (run_all, some_failed)
            (
              ((λ e. absurd (omega arith)), λ h. let e = k.1 (refl, h) in absurd (ground arith)),
              inr refl,
            )
    ]
