-- ===== src/Bench/BoundedRun.antt =====
-- code/bench/bench_queue_throughput.cpp: run_bounded_queue.
pub mod Consumed
pub mod Total
use mw_study.Prelude.{
  ℕ, ◌+◌, ◌/◌, Bool, true, false, Option, none, some, List, [], ◌∷◌, ◌++◌, ltb, ◌==◌, if◌then◌else◌,
  get_elem?, set, replicate, u64,
}
use mw_study.Queue
use mw_study.Queue.{Queue, block, PushStatus, Slice, returned, sleeping, never}

-- A writer before its next push, or asleep in it, with its `i`.
pub data Writer : Type 0 where
  writing asleep : ℕ → Writer

-- The main thread joins the writers, closes the queue and joins the consumer.
pub data Main : Type 0 where
  joining closing waiting finished : Main

pub record BoundedRun : Type 0 where
  pub queue : Queue ℕ
  pub per_producer : ℕ
  pub writers : List Writer
  pub main : Main
  pub consumer_returned : Bool
  pub consumed : ℕ

-- The division by `producers`; by zero it is undefined in C++.
unfoldable pub start : (count capacity producers : ℕ) → Option BoundedRun
start count capacity producers =
    if producers == 0
    then none
    else some (record {
      queue = Queue.new capacity block;
      per_producer = count / producers;
      writers = replicate producers (writing 0);
      main = joining;
      consumer_returned = false;
      consumed = 0;
    })

pub data Action : Type 0 where
  writes : (now i : ℕ) → Action
  consumes : ℕ → Action
  main_moves : Action

-- What a slice of `queue.push(i)` leaves of the loop; its status is not looked at.
unfoldable pub after_push : ℕ → ℕ → Queue ℕ × Option ℕ × Slice PushStatus → BoundedRun → BoundedRun
after_push p i (queue, evicted, sleeping) s = record s {
  queue = queue;
  writers = set s.writers p (asleep i);
}
after_push p i (queue, evicted, returned status) s = record s {
  queue = queue;
  writers = set s.writers p (writing (i + 1));
}

-- The loop of writer `p`.
unfoldable pub write : ℕ → ℕ → Writer → BoundedRun → BoundedRun
unfolding after_push
write now p (writing i) s =
    if ltb i s.per_producer then after_push p i (Queue.push i now s.queue) s else s
write now p (asleep i) s = after_push p i (Queue.push_waiting i never now s.queue) s

-- The loop of the consumer.
unfoldable pub after_pop : Queue ℕ × Slice (Option ℕ) → BoundedRun → BoundedRun
after_pop (queue, sleeping) s = record s { queue = queue }
after_pop (queue, returned none) s = record s { queue = queue; consumer_returned = true }
after_pop (queue, returned (some value)) s = record s {
  queue = queue;
  consumed = u64 (s.consumed + 1);
}

abbrev pub all_written : ℕ → List Writer → Bool
all_written n [] = true
all_written n (writing i ∷ ws) = if ltb i n then false else all_written n ws
all_written n (asleep i ∷ ws) = false

unfoldable pub main_step : Main → BoundedRun → BoundedRun
main_step joining s =
    if all_written s.per_producer s.writers then record s { main = closing } else s
main_step closing s = record s { queue = Queue.close s.queue; main = waiting }
main_step waiting s = if s.consumer_returned then record s { main = finished } else s
main_step finished s = s

unfoldable pub act : Action → BoundedRun → BoundedRun
unfolding write after_pop main_step
act (writes now p) s = elim (get_elem? s.writers p) [
  | none ↦ s
  | some writer ↦ write now p writer s
]
act (consumes now) s = if s.consumer_returned then s else after_pop (Queue.pop now s.queue) s
act main_moves s = main_step s.main s

unfoldable pub run : List Action → BoundedRun → BoundedRun
run [] s = s
run (a ∷ actions) s = run actions (act a s)
