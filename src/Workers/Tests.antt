-- ===== src/Workers/Tests.antt =====
-- The thread pool at concrete values. (code/include/rdb/concurrency/thread_pool.h)
use mw_study.Prelude.{ℕ, refl, true, false, [], ◌∷◌, arith, if◌then◌else◌}
use mw_study.Queue.{Queue, block}
use mw_study.Workers.{ThreadPool, stop, run}
use mw_study.Workers.Stop.{Finished, run-stop}

-- Three tasks are queued.
abbrev queue : Queue ℕ
queue = record {
  items = 1 ∷ 2 ∷ 3 ∷ [];
  capacity = 4;
  policy = block;
  is_closed = false;
  dropped = 0;
  high_water = 3;
}

abbrev pool : ThreadPool ℕ
pool = record { queue = queue; workers = 2; stopping = false; completed = 5 }

run-stop_example : Finished pool (if true then queue.items else []) (run 4 0 (stop true pool))
run-stop_example = run-stop true 4 0 pool refl (omega arith)
