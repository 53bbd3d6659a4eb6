-- ===== src/Workers.antt =====
-- code/include/rdb/concurrency/thread_pool.h: a fixed number of threads over a BoundedQueue.
-- A task is a value of `T`, and that it runs is an output. `submit` posts a task that fills a future;
-- the future is not modelled, so that it is `post`.
pub mod Stop
pub mod System
pub mod Counting
pub mod Conserve
pub mod Drain
pub mod Shut
pub mod Ends
mod Tests
mod SystemTests
use mw_study.Prelude.{
  ℕ, zero, suc, ◌+◌, Bool, true, false, Option, none, some, List, [], ◌∷◌, ◌==◌, if◌then◌else◌, u64,
}
use mw_study.Queue
use mw_study.Queue.{
  Queue, block, PushStatus, ok, full, dropped_newest, dropped_oldest, closed, Slice, returned,
  sleeping,
}

pub record ThreadPool {ℓ} (T : Type ℓ) : Type ℓ where
  pub queue : Queue T
  pub workers : ℕ
  pub stopping : Bool
  pub completed : ℕ

-- How a round of `run` ends: asleep in `pop`, returned, or with a task run.
pub data Turn {ℓ} (T : Type ℓ) : Type ℓ where
  waiting ended : Turn T
  executed : T → Turn T

pub is_ok : PushStatus → Bool
is_ok ok = true
is_ok full = false
is_ok dropped_newest = false
is_ok dropped_oldest = false
is_ok closed = false

module _ {ℓ} {T : Type ℓ} where
  -- `queue_capacity` has the default 1024.
  pub new : (threads queue_capacity : ℕ) → ThreadPool T
  new threads queue_capacity = record {
    queue = Queue.new queue_capacity block;
    workers = if threads == 0 then 1 else threads;
    stopping = false;
    completed = 0;
  }

  -- What a slice of a push lets the caller do: sleep on, or return whether the task was taken.
  pub posted : ThreadPool T → Queue T × Option T × Slice PushStatus → ThreadPool T × Slice Bool
  unfolding is_ok
  posted pool (queue, evicted, sleeping) = (record pool { queue = queue }, sleeping)
  posted pool (queue, evicted, returned status) =
      (record pool { queue = queue }, returned (is_ok status))

  pub post : T → ℕ → ThreadPool T → ThreadPool T × Slice Bool
  unfolding posted
  post task now pool = posted pool (Queue.push task now pool.queue)

  pub try_post : T → ℕ → ThreadPool T → ThreadPool T × Slice Bool
  unfolding posted
  try_post task now pool = posted pool (Queue.try_push task now pool.queue)

  -- `stop` up to the joins; a second call returns at once.
  pub stop : Bool → ThreadPool T → ThreadPool T
  stop drain pool =
      if pool.stopping
      then pool
      else let queue = if drain then pool.queue else (Queue.clear pool.queue).0 in
        record pool { queue = Queue.close queue; stopping = true }

  -- The joins have returned.
  pub joined : ThreadPool T → ThreadPool T
  joined pool = record pool { workers = 0 }

  pub taken : ThreadPool T → Queue T × Slice (Option T) → ThreadPool T × Turn T
  taken pool (queue, sleeping) = (record pool { queue = queue }, waiting)
  taken pool (queue, returned none) = (record pool { queue = queue }, ended)
  taken pool (queue, returned (some task)) =
      (record pool { queue = queue; completed = u64 (pool.completed + 1) }, executed task)

  -- One round of `run`.
  pub run_round : ℕ → ThreadPool T → ThreadPool T × Turn T
  unfolding taken
  run_round now pool = taken pool (Queue.pop now pool.queue)

  -- `return`, or the rest of the rounds.
  pub after :
      (ThreadPool T → ThreadPool T × List T × Option (Turn T))
      → ThreadPool T × Turn T
      → ThreadPool T × List T × Option (Turn T)
  after rest (next, waiting) = (next, [], some waiting)
  after rest (next, ended) = (next, [], some ended)
  after rest (next, executed task) = let (last, tasks, end) = rest next in (last, task ∷ tasks, end)

  -- `run` until it sleeps or returns: the tasks it ran, and how it ended, `none` when the fuel ran out.
  pub run : (fuel now : ℕ) → ThreadPool T → ThreadPool T × List T × Option (Turn T)
  unfolding after run_round
  run zero now pool = (pool, [], none)
  run (suc fuel) now pool = after (run fuel now) (run_round now pool)

  pub thread_count : ThreadPool T → ℕ
  thread_count pool = pool.workers

  pub pending : ThreadPool T → ℕ
  pending pool = Queue.size pool.queue
