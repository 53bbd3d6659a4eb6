-- ===== src/Workers/Stop.antt =====
-- Stopping a ThreadPool. (code/include/rdb/concurrency/thread_pool.h)
use mw_study.Prelude.{
  ℕ, zero, suc, ◌+◌, ◌<◌, ◌≡◌, refl, ap, ◌∙◌, Bool, true, false, Option, some, List, [], ◌∷◌, arith,
  if◌then◌else◌, length, u64,
}
use mw_study.Queue
use mw_study.Queue.{Queue}
use mw_study.Queue.Blocking.{pop-closed_empty, pop-closed_front, close-items, clear-items}
use mw_study.Workers.{ThreadPool, Turn, ended, executed, stop, taken, run_round, after, run}

module _ {ℓ} {T : Type ℓ} where
  -- A worker has returned after it ran just these tasks.
  pub record Finished (pool : ThreadPool T) (tasks : List T)
      (r : ThreadPool T × List T × Option (Turn T)) : Type ℓ where
    pub returns : r.2 ≡ some ended
    pub runs : r.1 ≡ tasks
    pub leaves : r.0.queue.items ≡ []
    pub counts : u64 r.0.completed ≡ u64 (pool.completed + length tasks)

  run_round-empty :
      (now : ℕ) (pool : ThreadPool T)
      → pool.queue.is_closed ≡ true
      → pool.queue.items ≡ []
      → run_round now pool ≡ (pool, ended)
  unfolding run_round taken
  run_round-empty now pool h e = ap (taken pool) (pop-closed_empty now pool.queue h e)

  run_round-front :
      (now : ℕ) (pool : ThreadPool T) (x : T) (xs : List T)
      → pool.queue.is_closed ≡ true
      → pool.queue.items ≡ x ∷ xs
      → run_round now pool ≡ (
        record pool {
          queue = record pool.queue { items = xs };
          completed = u64 (pool.completed + 1);
        },
        executed x,
      )
  unfolding run_round taken
  run_round-front now pool x xs h e = ap (taken pool) (pop-closed_front now pool.queue x xs h e)

  run-closed :
      (fuel now : ℕ) (pool : ThreadPool T) (items : List T)
      → pool.queue.is_closed ≡ true
      → pool.queue.items ≡ items
      → length items < fuel
      → Finished pool items (run fuel now pool)
  unfolding run after
  run-closed zero now pool items h e l = absurd (omega arith)
  run-closed (suc fuel) now pool [] h e l =
      rw (run, run_round-empty now pool h e)
        (record { returns = refl; runs = refl; leaves = e; counts = omega arith })
  run-closed (suc fuel) now pool (x ∷ xs) h e l =
      let next : ThreadPool T = record pool {
        queue = record pool.queue { items = xs };
        completed = u64 (pool.completed + 1);
      } in
      let k = run-closed fuel now next xs h refl (omega arith) in
      rw (run, run_round-front now pool x xs h e)
        (record {
          returns = k.returns;
          runs = ap (◌∷◌ x) k.runs;
          leaves = k.leaves;
          counts = omega (arith, k.counts);
        })

  -- The first stop, with no other thread in between: a worker then returns, so that join() does,
  -- with at least one more round than tasks queued; with drain it has run every queued task, in
  -- order, and without it none; and it has counted those it ran, modulo 2^64.
  pub run-stop :
      (drain : Bool) (fuel now : ℕ) (pool : ThreadPool T)
      → pool.stopping ≡ false
      → length pool.queue.items < fuel
      → Finished pool (if drain then pool.queue.items else []) (run fuel now (stop drain pool))
  unfolding stop
  run-stop true fuel now pool s l =
      let (items, shut) = close-items pool.queue in
      let k =
        run-closed fuel now (record pool { queue = Queue.close pool.queue; stopping = true })
          pool.queue.items shut items l in
      rw (stop, s)
        (record { returns = k.returns; runs = k.runs; leaves = k.leaves; counts = k.counts })
  run-stop false fuel now pool s l =
      let (items, shut) = close-items (Queue.clear pool.queue).0 in
      let k =
        run-closed fuel now
          (record pool { queue = Queue.close (Queue.clear pool.queue).0; stopping = true }) [] shut
          (items ∙ clear-items pool.queue) (omega arith) in
      rw (stop, s)
        (record { returns = k.returns; runs = k.runs; leaves = k.leaves; counts = k.counts })
