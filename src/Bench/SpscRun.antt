-- ===== src/Bench/SpscRun.antt =====
-- code/bench/bench_queue_throughput.cpp: run_spsc_ring.
pub mod Complete
pub mod Consuming
pub mod Ends
use mw_study.Prelude.{
  ℕ, ◌+◌, Bool, true, false, Option, none, some, List, [], ◌∷◌, ◌++◌, ltb, if◌then◌else◌, length,
}
use mw_study.Spsc
use mw_study.Spsc.{Ring}

-- What the consumer does next: the test of its loop and a pop; the load of `done`; the pop after it.
pub data Consumer : Type 0 where
  polling checking draining left : Consumer

-- `next` is the producer's `i`; `got` the values popped, so that `seen` is how many these are.
pub record SpscRun : Type 0 where
  pub ring : Ring ℕ
  pub next : ℕ
  pub done : Bool
  pub consumer : Consumer
  pub got : List ℕ

-- One call of push or pop, or one access of `done`.
pub data Action : Type 0 where
  producer consumer : Action

unfoldable pub start : ℕ → SpscRun
start capacity = record {
  ring = Spsc.new 0 capacity;
  next = 0;
  done = false;
  consumer = polling;
  got = [];
}

-- `while (!ring.push(i)) yield()` in the loop over `i`, and the store of `done` after it.
unfoldable pub produce : ℕ → SpscRun → SpscRun
produce count s =
    let (ring, accepted) = Spsc.push s.next s.ring in
    if ltb s.next count
    then record s { ring = ring; next = if accepted then s.next + 1 else s.next }
    else record s { done = true }

-- `if (ring.pop(value)) ++seen`, or else on to `otherwise`.
unfoldable pub receive : Consumer → Ring ℕ × Option ℕ → SpscRun → SpscRun
receive otherwise (ring, none) s = record s { ring = ring; consumer = otherwise }
receive otherwise (ring, some value) s = record s {
  ring = ring;
  consumer = polling;
  got = s.got ++ (value ∷ []);
}

unfoldable pub consume : ℕ → Consumer → SpscRun → SpscRun
unfolding receive
consume count polling s =
    let next = receive checking (Spsc.pop s.ring) s in
    if ltb (length s.got) count then next else record s { consumer = left }
consume count checking s = record s { consumer = if s.done then draining else polling }
consume count draining s = receive left (Spsc.pop s.ring) s
consume count left s = s

unfoldable pub act : ℕ → Action → SpscRun → SpscRun
unfolding produce consume
act count producer s = produce count s
act count consumer s = consume count s.consumer s

unfoldable pub run : ℕ → List Action → SpscRun → SpscRun
run count [] s = s
run count (a ∷ actions) s = run count actions (act count a s)
