-- ===== src/Workers/SystemTests.antt =====
-- A pool and its threads at concrete values. (code/include/rdb/concurrency/thread_pool.h)
use mw_study.Prelude.{ℕ, length, arith, ◌≡◌, refl, true, List, [], ◌∷◌}
use mw_study.Queue
use mw_study.Queue.{
  is_empty, push, push_until, append, close, pop, pop_until, pop_waiting, take_front,
}
use mw_study.Workers.{new, post, posted, is_ok, joined}
use mw_study.Workers.System.{
  stopped, joining, Action, posts, worker_moves, stops, stop_moves, start, act, interleave,
  posted_to, picked, worker_step, stop_step, stop_flag,
}
use mw_study.Workers.Conserve.{Sound}
use mw_study.Workers.Ends.{work, sweeps, interleave-joined}
use mw_study.Workers.Drain.{interleave-start-Sound, AllRun, stopped-AllRun}

-- Two workers and three tasks; the pool is stopped while one runs and another is queued.
abbrev actions : List (Action ℕ)
actions =
    posts 1 0
    ∷ posts 2 0
    ∷ worker_moves 0 0
    ∷ posts 3 0
    ∷ worker_moves 0 1
    ∷ stops true
    ∷ worker_moves 0 1
    ∷ stop_moves
    ∷ worker_moves 0 1
    ∷ worker_moves 0 0
    ∷ worker_moves 0 1
    ∷ worker_moves 0 1
    ∷ worker_moves 0 0
    ∷ stop_moves
    ∷ []

interleave-start-Sound_example : Sound (interleave actions (start 2 4))
interleave-start-Sound_example = interleave-start-Sound 2 4 actions

actions_stopped : (interleave actions (start 2 4)).stopper ≡ stopped
unfolding interleave act start new post posted is_ok posted_to picked worker_step stop_step
    stop_flag joined Queue.new push push_until append close pop pop_until pop_waiting take_front
    is_empty
actions_stopped = refl

stopped-AllRun_example : AllRun (interleave actions (start 2 4))
stopped-AllRun_example =
    stopped-AllRun 2 4 actions
      (tt, (tt, (tt, (tt, (tt, (refl, (tt, (tt, (tt, (tt, (tt, (tt, (tt, (tt, tt))))))))))))))
      actions_stopped

-- The thread in stop() has closed the queue: two tasks are queued, and one runs.
abbrev until_join : List (Action ℕ)
until_join = posts 1 0 ∷ posts 2 0 ∷ posts 3 0 ∷ worker_moves 0 1 ∷ stops true ∷ stop_moves ∷ []

joins :
    ((interleave until_join (start 2 4)).stopper ≡ joining)
    × (work (interleave until_join (start 2 4)) ≡ 9)
unfolding interleave act start new post posted is_ok posted_to picked worker_step stop_step
    stop_flag Queue.new push push_until append close pop pop_until pop_waiting take_front is_empty
joins = (refl, refl)

interleave-joined_example :
    (act stop_moves (
      interleave
        (sweeps (length (interleave until_join (start 2 4)).workers) 10)
        (interleave until_join (start 2 4)))).stopper
    ≡ stopped
interleave-joined_example = interleave-joined 2 4 until_join 10 joins.0 (omega (arith, joins.1))
