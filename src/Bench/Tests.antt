-- ===== src/Bench/Tests.antt =====
-- The measuring programs at concrete values. (code/bench)
use mw_study.Prelude.Int.{pos, negsuc}
use mw_study.Bench.Args.{arg_int, atoll}
use mw_study.Bench.BoundedRun
use mw_study.Prelude.{none, refl, ℕ, ◌+◌, ◌*◌, ◌≡◌, List, [], ◌∷◌, arith}
use mw_study.Bench.SpscRun.{left, Action, producer, consumer, start, run}
use mw_study.Bench.SpscRun.Complete.{up_to}
use mw_study.Bench.SpscRun.Ends.{rounds, run-rounds}

-- The consumer looks twice before the first push, and once after it.
abbrev prefix : List Action
prefix = consumer ∷ consumer ∷ producer ∷ consumer ∷ producer ∷ []

run-rounds_example :
    ((run 3 (rounds (2 * 3 + 1)) (run 3 prefix (start 2))).consumer ≡ left)
    × ((run 3 (rounds (2 * 3 + 1)) (run 3 prefix (start 2))).got ≡ up_to 3)
run-rounds_example = run-rounds 3 2 prefix (omega arith)

-- `--count -42`, and a name without a value.
abbrev count_name : List ℕ
count_name = 45 ∷ 45 ∷ 99 ∷ []

arguments :
    (arg_int (count_name ∷ (45 ∷ 52 ∷ 50 ∷ []) ∷ []) count_name (pos 7) ≡ negsuc 41)
    × (arg_int (count_name ∷ []) count_name (pos 7) ≡ pos 7)
unfolding arg_int atoll
arguments = (refl, refl)

-- `--producers 0` divides by zero.
no_producers : BoundedRun.start 5 4 0 ≡ none
unfolding BoundedRun.start
no_producers = refl
