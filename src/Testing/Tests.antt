-- ===== src/Testing/Tests.antt =====
-- The test runner at concrete values. (code/include/rdb/testing/check.h)
use mw_study.Prelude.{◌≡◌, refl, true, false, some, List, [], ◌∷◌}
use mw_study.Testing.{TestCase, passes, fails, register, failures, count_failed, run_all, wait_for}

abbrev tests : List TestCase
tests = record { name = "fits"; outcome = passes } ∷ []

one_fails : (run_all tests ≡ 0) × (run_all (register "breaks" (fails "x") tests) ≡ 1)
unfolding run_all count_failed failures register
one_fails = (refl, refl)

waits : wait_for 10 ((3, false) ∷ (8, false) ∷ (12, true) ∷ []) ≡ some true
unfolding wait_for
waits = refl
