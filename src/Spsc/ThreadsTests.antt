-- ===== src/Spsc/ThreadsTests.antt =====
-- Interleaved calls on the ring at concrete values. (code/include/rdb/concurrency/spsc_ring.h)
use mw_study.Prelude.{ℕ, ◌-◌, ◌^◌, ◌≡◌, refl, List, [], ◌∷◌, arith}
use mw_study.Spsc.{round_up_pow2, smear, new, is_full, is_empty, capacity}
use mw_study.Spsc.Refine.{run_queue}
use mw_study.Spsc.Threads.{
  Action, enters_push, producer_moves, enters_pop, consumer_moves, act, interleave, enter_push,
  enter_pop, producer_step, consumer_step, did, writing, reading,
}
use mw_study.Spsc.Linear.{reached, Apart, interleave-run_queue, writing-reading_ne}
use mw_study.Spsc.WaitFree.{producing, entries, moves, Returned, interleave-Returned}
use mw_study.Spsc.SizeAcross.{accepted_in, taken_in, size_while, size_while-wraps}

-- A pop enters an empty ring and the push of 7 runs before it looks again; then both push and pop.
abbrev schedule : List (Action ℕ)
schedule =
    enters_pop
    ∷ enters_push 7
    ∷ producer_moves
    ∷ producer_moves
    ∷ consumer_moves
    ∷ enters_push 8
    ∷ []

schedule_run :
    ((reached 0 2 schedule).producer ≡ writing 8) × ((reached 0 2 schedule).consumer ≡ reading)
unfolding interleave act enter_push enter_pop producer_step consumer_step did new round_up_pow2
    smear is_full is_empty capacity
schedule_run = (refl, refl)

interleave-run_queue_example :
    (run_queue (round_up_pow2 2) (reached 0 2 schedule).history []).1
    ≡ (reached 0 2 schedule).outcomes
interleave-run_queue_example = interleave-run_queue 0 2 schedule (omega arith)

writing-reading_ne_example : Apart (reached 0 2 schedule).ring
writing-reading_ne_example =
    writing-reading_ne 0 2 schedule 8 (omega arith) schedule_run.0 schedule_run.1

-- The push of 8 goes on, between steps of the pop.
abbrev rest : List (Action ℕ)
rest = producer_moves ∷ consumer_moves ∷ producer_moves ∷ consumer_moves ∷ producer_moves ∷ []

rest_counts : (entries producing rest ≡ 0) × (moves producing rest ≡ 3)
unfolding entries moves
rest_counts = (refl, refl)

interleave-Returned_example : Returned producing (interleave rest (reached 0 2 schedule))
interleave-Returned_example =
    interleave-Returned producing rest (reached 0 2 schedule) rest_counts.0
      (omega (arith, rest_counts.1))

-- One push and one pop, both after the first load of size().
abbrev between : List (Action ℕ)
between =
    enters_push 7
    ∷ producer_moves
    ∷ producer_moves
    ∷ enters_pop
    ∷ consumer_moves
    ∷ consumer_moves
    ∷ consumer_moves
    ∷ []

between_counts :
    (taken_in {A = ℕ} (reached 0 2 between).outcomes ≡ 1)
    × (accepted_in {A = ℕ} (reached 0 2 []).outcomes ≡ 0)
unfolding interleave act enter_push enter_pop producer_step consumer_step did new round_up_pow2
    smear is_full is_empty capacity taken_in accepted_in
between_counts = (refl, refl)

size_while-wraps_example : size_while 0 2 [] between ≡ 2 ^ 64 - 1
size_while-wraps_example =
    size_while-wraps 0 2 [] between 1 (omega arith) (omega arith) (omega arith)
      (omega (arith, between_counts.0, between_counts.1))
