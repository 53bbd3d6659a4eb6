-- ===== src/Bench/BoundedRun/Total.antt =====
-- How many values the consumer of run_bounded_queue gets. (code/bench/bench_queue_throughput.cpp)
use mw_study.Prelude.{
  ℕ, zero, suc, ◌+◌, ◌*◌, ◌/◌, ◌%◌, ◌^◌, ◌≡◌, refl, ap, ◌∙◌, subst, true, false, Option, none, some,
  List, [], ◌∷◌, arith, ltb, ◌==◌, if-elim, Bool-cases, Option-cases, inl, inr, length, length-set,
  length-replicate, get_elem?, replicate, AllOf,
}
use mw_study.Queue
use mw_study.Queue.{Queue, block, PushStatus, ok, Slice, returned, sleeping, never}
use mw_study.Queue.Block.{pop-Removes, close-Adds, new_Block}
use mw_study.Bench.BoundedRun.{
  Writer, writing, asleep, Main, joining, closing, waiting, finished, BoundedRun, start, Action,
  writes, consumes, main_moves, after_push, write, after_pop, all_written, main_step, act, run,
}
use mw_study.Bench.BoundedRun.Consumed.{
  written, InLoop, IsValid, write-IsValid, after_pop-IsValid, all_written-total,
}

main_step-IsValid :
    (n : ℕ) (m : Main) (s : BoundedRun) → s.main ≡ m → IsValid n s → IsValid n (main_step m s)
unfolding main_step
main_step-IsValid n joining s e h =
    if-elim (IsValid n) (all_written s.per_producer s.writers)
      (λ all. record {
        same_count = h.same_count;
        policy = h.policy;
        in_loop = h.in_loop;
        taken = h.taken;
        counted = h.counted;
        tally = h.tally;
        open_now = λ x. absurd (cc);
        not_closed = λ _. h.open_now e;
        done = λ _. subst (λ k. all_written k s.writers ≡ true) h.same_count all;
        returned_empty = h.returned_empty;
        joined = λ x. absurd (cc);
      })
      (λ _. h)
main_step-IsValid n closing s e h =
    let (items, policy, shut) = close-Adds s.queue in
    record {
      same_count = h.same_count;
      policy = policy ∙ h.policy;
      in_loop = h.in_loop;
      taken = h.taken;
      counted = h.counted;
      tally = let same = ap length items in omega (arith, same, h.tally);
      open_now = λ x. absurd (cc);
      not_closed = λ x. absurd (cc);
      done = λ _. h.done (λ x. cc);
      returned_empty = λ x. (shut, items ∙ (h.returned_empty x).1);
      joined = λ x. absurd (cc);
    }
main_step-IsValid n waiting s e h =
    if-elim (IsValid n) s.consumer_returned
      (λ over. record {
        same_count = h.same_count;
        policy = h.policy;
        in_loop = h.in_loop;
        taken = h.taken;
        counted = h.counted;
        tally = h.tally;
        open_now = λ x. absurd (cc);
        not_closed = λ x. absurd (cc);
        done = λ _. h.done (λ x. cc);
        returned_empty = h.returned_empty;
        joined = λ _. over;
      })
      (λ _. h)
main_step-IsValid n finished s e h = h

act-IsValid : (n : ℕ) (a : Action) (s : BoundedRun) → IsValid n s → IsValid n (act a s)
unfolding act
act-IsValid n (writes now p) s h = elim (Option-cases (get_elem? s.writers p)) [
  | inl gone ↦ rw (act, gone) h
  | inr (writer, e) ↦ rw (act, e) (write-IsValid n now p writer s h e)
]
act-IsValid n (consumes now) s h =
    if-elim (IsValid n) s.consumer_returned (λ _. h)
      (λ e. after_pop-IsValid n s h (Queue.pop now s.queue) e (pop-Removes now s.queue))
act-IsValid n main_moves s h = main_step-IsValid n s.main s refl h

run-IsValid :
    (n : ℕ) (actions : List Action) (s : BoundedRun) → IsValid n s → IsValid n (run actions s)
unfolding run
run-IsValid n [] s h = h
run-IsValid n (a ∷ actions) s h = run-IsValid n actions (act a s) (act-IsValid n a s h)

-- No slice takes a writer away.
after_push-writers :
    (p i : ℕ) (r : Queue ℕ × Option ℕ × Slice PushStatus) (s : BoundedRun)
    → length (after_push p i r s).writers ≡ length s.writers
unfolding after_push
after_push-writers p i (queue, evicted, sleeping) s = length-set s.writers p (asleep i)
after_push-writers p i (queue, evicted, returned status) s =
    length-set s.writers p (writing (i + 1))

write-writers :
    (now p : ℕ) (w : Writer) (s : BoundedRun) → length (write now p w s).writers ≡ length s.writers
unfolding write
write-writers now p (writing i) s =
    if-elim (λ (t : BoundedRun). length t.writers ≡ length s.writers) (ltb i s.per_producer)
      (λ _. after_push-writers p i (Queue.push i now s.queue) s) (λ _. refl)
write-writers now p (asleep i) s = after_push-writers p i (Queue.push_waiting i never now s.queue) s

after_pop-writers :
    (r : Queue ℕ × Slice (Option ℕ)) (s : BoundedRun) → (after_pop r s).writers ≡ s.writers
unfolding after_pop
after_pop-writers (queue, sleeping) s = refl
after_pop-writers (queue, returned none) s = refl
after_pop-writers (queue, returned (some v)) s = refl

main_step-writers : (m : Main) (s : BoundedRun) → (main_step m s).writers ≡ s.writers
unfolding main_step
main_step-writers joining s =
    if-elim (λ (t : BoundedRun). t.writers ≡ s.writers) (all_written s.per_producer s.writers)
      (λ _. refl) (λ _. refl)
main_step-writers closing s = refl
main_step-writers waiting s =
    if-elim (λ (t : BoundedRun). t.writers ≡ s.writers) s.consumer_returned (λ _. refl) (λ _. refl)
main_step-writers finished s = refl

act-writers : (a : Action) (s : BoundedRun) → length (act a s).writers ≡ length s.writers
unfolding act
act-writers (writes now p) s = elim (Option-cases (get_elem? s.writers p)) [
  | inl gone ↦ rw (act, gone) refl
  | inr (writer, e) ↦ rw (act, e) (write-writers now p writer s)
]
act-writers (consumes now) s =
    if-elim (λ (t : BoundedRun). length t.writers ≡ length s.writers) s.consumer_returned
      (λ _. refl) (λ _. ap length (after_pop-writers (Queue.pop now s.queue) s))
act-writers main_moves s = ap length (main_step-writers s.main s)

run-writers :
    (actions : List Action) (s : BoundedRun) → length (run actions s).writers ≡ length s.writers
unfolding run
run-writers [] s = refl
run-writers (a ∷ actions) s = run-writers actions (act a s) ∙ act-writers a s

all_at_zero : (n k : ℕ) → AllOf (InLoop n) (replicate k (writing 0))
all_at_zero n zero = tt
all_at_zero n (suc k) = (omega arith, all_at_zero n k)

none_written : (k : ℕ) → 0 ≡ written (replicate k (writing 0))
none_written zero = refl
none_written (suc k) = omega (arith, none_written k)

-- A new run with at least one producer.
start-IsValid :
    (count capacity producers : ℕ) (s : BoundedRun)
    → start count capacity producers ≡ some s
    → IsValid (count / producers) s × (length s.writers ≡ producers)
unfolding start Queue.new
start-IsValid count capacity producers s e = elim (Bool-cases (producers == 0)) [
  | inl none_there ↦
      let k : start count capacity producers ≡ none = rw (start, none_there) refl in absurd (cc)
  | inr some_there ↦
      let (items, policy, shut) = new_Block ℕ capacity in
      let first : BoundedRun = record {
        queue = Queue.new capacity block;
        per_producer = count / producers;
        writers = replicate producers (writing 0);
        main = joining;
        consumer_returned = false;
        consumed = 0;
      } in
      let k : start count capacity producers ≡ some first = rw (start, some_there) refl in
      let same : first ≡ s = cc in
      let valid : IsValid (count / producers) first = record {
        same_count = refl;
        policy = policy;
        in_loop = all_at_zero (count / producers) producers;
        taken = 0;
        counted = omega arith;
        tally = none_written producers;
        open_now = λ _. shut;
        not_closed = λ _. shut;
        done = λ x. absurd (x refl);
        returned_empty = λ x. absurd (cc);
        joined = λ x. absurd (cc);
      } in
      subst (λ t. IsValid (count / producers) t × (length t.writers ≡ producers)) same
        (valid, length-replicate producers (writing 0))
]

-- run_bounded_queue with at least one producer, in any interleaving of the writers, the consumer and
-- the main thread: when the main thread has joined the consumer, that one has counted
-- producers * (count / producers) values, modulo 2^64, the quotient rounded down, and the queue is
-- closed and empty.
pub run-consumed :
    (count capacity producers : ℕ) (s : BoundedRun) (actions : List Action)
    → start count capacity producers ≡ some s
    → (run actions s).main ≡ finished
    → ((run actions s).consumed ≡ producers * (count / producers) % 2 ^ 64)
      × ((run actions s).queue.is_closed ≡ true)
      × ((run actions s).queue.items ≡ [])
run-consumed count capacity producers s actions e f =
    let (first, some_writers) = start-IsValid count capacity producers s e in
    let n = count / producers in
    let h = run-IsValid n actions s first in
    let t = run actions s in
    let (shut, empty) = h.returned_empty (h.joined f) in
    let total : written t.writers ≡ length t.writers * n =
      all_written-total n t.writers (h.done (λ m. cc)) h.in_loop in
    let size : length t.writers * n ≡ producers * n =
      ap (λ l. l * n) (run-writers actions s ∙ some_writers) in
    let none_left = ap length empty in
    (omega (arith, h.counted, h.tally, total, size, none_left), shut, empty)
