-- ===== src/Workers/System.antt =====
-- A ThreadPool with its worker threads, the callers that post and those that stop it, in any order.
-- (code/include/rdb/concurrency/thread_pool.h)
use mw_study.Prelude.{
  ℕ, ◌+◌, Bool, true, false, Option, none, some, List, [], ◌∷◌, ◌++◌, map, if◌then◌else◌, get_elem?,
  set, replicate, u64,
}
use mw_study.Queue
use mw_study.Queue.{Queue, Slice, returned, sleeping, never}
use mw_study.Workers.{ThreadPool, new, posted, post, try_post, joined}

-- A worker before `pop`, or asleep in it, where its next look is the same; in a task; returned.
pub data Worker {ℓ} (T : Type ℓ) : Type ℓ where
  looping over : Worker T
  running : T → Worker T

-- The thread whose compare_exchange set `stopping_`: what it does next. `running_on`: there is none.
pub data Stopper : Type 0 where
  running_on clearing closing joining stopped : Stopper

-- The logs: the tasks that were accepted; those that left the queue, with whether a worker took it
-- or `clear` discarded it; and those that have run to their end.
pub record System {ℓ} (T : Type ℓ) : Type ℓ where
  pub pool : ThreadPool T
  pub workers : List (Worker T)
  pub stopper : Stopper
  pub accepted : List T
  pub left : List (Bool × T)
  pub finished : List T

-- One slice of some thread: `resumes` is a poster that was asleep.
pub data Action {ℓ} (T : Type ℓ) : Type ℓ where
  posts resumes tries : T → ℕ → Action T
  worker_moves : (now i : ℕ) → Action T
  stops : Bool → Action T
  stop_moves : Action T

module _ {ℓ} {T : Type ℓ} where
  unfoldable pub start : (threads queue_capacity : ℕ) → System T
  unfolding new
  start threads queue_capacity =
      let pool : ThreadPool T = new threads queue_capacity in
      record {
        pool = pool;
        workers = replicate pool.workers looping;
        stopper = running_on;
        accepted = [];
        left = [];
        finished = [];
      }

  -- The task was taken if the call returns `true`.
  abbrev pub taken_by : T → Slice Bool → List T
  taken_by task (returned true) = task ∷ []
  taken_by task _ = []

  unfoldable pub posted_to : T → ThreadPool T × Slice Bool → System T → System T
  posted_to task (pool, slice) s = record s {
    pool = pool;
    accepted = s.accepted ++ taken_by task slice;
  }

  -- `queue_.pop()` and `if (!task) return`.
  unfoldable pub picked : ℕ → Queue T × Slice (Option T) → System T → System T
  picked i (queue, sleeping) s = record s { pool = record s.pool { queue = queue } }
  picked i (queue, returned none) s = record s {
    pool = record s.pool { queue = queue };
    workers = set s.workers i over;
  }
  picked i (queue, returned (some task)) s = record s {
    pool = record s.pool { queue = queue };
    workers = set s.workers i (running task);
    left = s.left ++ ((true, task) ∷ []);
  }

  -- `run` of one worker up to its next look at the queue; the task runs and is counted.
  unfoldable pub worker_step : ℕ → ℕ → Worker T → System T → System T
  unfolding picked
  worker_step now i looping s = picked i (Queue.pop now s.pool.queue) s
  worker_step now i (running task) s = record s {
    pool = record s.pool { completed = u64 (s.pool.completed + 1) };
    workers = set s.workers i looping;
    finished = s.finished ++ (task ∷ []);
  }
  worker_step now i over s = s

  abbrev pub all_over : List (Worker T) → Bool
  all_over [] = true
  all_over (over ∷ ws) = all_over ws
  all_over (looping ∷ ws) = false
  all_over (running task ∷ ws) = false

  -- `stop` after the flag: `clear`, `close`, and the joins.
  unfoldable pub stop_step : Stopper → System T → System T
  stop_step running_on s = s
  stop_step clearing s =
      let (queue, discarded) = Queue.clear s.pool.queue in
      record s {
        pool = record s.pool { queue = queue };
        stopper = closing;
        left = s.left ++ map (λ task. (false, task)) discarded;
      }
  stop_step closing s = record s {
    pool = record s.pool { queue = Queue.close s.pool.queue };
    stopper = joining;
  }
  stop_step joining s =
      if all_over s.workers then record s { pool = joined s.pool; stopper = stopped } else s
  stop_step stopped s = s

  -- `stop` up to the flag: only the first call goes on.
  unfoldable pub stop_flag : Bool → System T → System T
  stop_flag drain s = if s.pool.stopping then s else record s {
    pool = record s.pool { stopping = true };
    stopper = if drain then closing else clearing;
  }

  unfoldable pub act : Action T → System T → System T
  unfolding posted_to worker_step stop_step stop_flag
  act (posts task now) s = posted_to task (post task now s.pool) s
  act (resumes task now) s =
      posted_to task (posted s.pool (Queue.push_waiting task never now s.pool.queue)) s
  act (tries task now) s = posted_to task (try_post task now s.pool) s
  act (worker_moves now i) s = elim (get_elem? s.workers i) [
    | none ↦ s
    | some worker ↦ worker_step now i worker s
  ]
  act (stops drain) s = stop_flag drain s
  act stop_moves s = stop_step s.stopper s

  unfoldable pub interleave : List (Action T) → System T → System T
  unfolding act
  interleave [] s = s
  interleave (a ∷ actions) s = interleave actions (act a s)
