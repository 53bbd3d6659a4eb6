-- ===== src/Queue/Invariant.antt =====
-- The representation invariant of BoundedQueue: never over capacity, and the high-water mark.
-- (code/include/rdb/concurrency/bounded_queue.h)
use mw_study.Prelude.{ℕ, ◌≤◌, ◌<◌, ◌≡◌, List, [], ◌∷◌, arith, length, length-append}
use mw_study.Queue.{
  Queue, Deadline, OverflowPolicy, block, drop_newest, drop_oldest, never, immediate, at, new,
  push_until, push_full, push_waiting, append, replace_oldest, pop_until, pop_waiting, take_front,
  close, clear,
}
use mw_study.Queue.Run.{
  Call, start_push, resume_push, start_pop, resume_pop, closes, clears, step, run,
}

pub record IsValid {ℓ} {A : Type ℓ} (q : Queue A) : Type 0 where
  pub roomy : 0 < q.capacity
  pub bounded : length q.items ≤ q.high_water
  pub marked : q.high_water ≤ q.capacity

module _ {ℓ} {A : Type ℓ} where
  pub new-IsValid : (capacity : ℕ) (p : OverflowPolicy) → IsValid (new {A = A} capacity p)
  unfolding new
  new-IsValid capacity p = ground arith

  length-replace_oldest :
      (v : A) (xs : List A) → 0 < length xs → length (replace_oldest v xs).0 ≡ length xs
  unfolding replace_oldest
  length-replace_oldest v [] h = absurd (omega arith)
  length-replace_oldest v (x ∷ xs) h = omega (arith, length-append xs (v ∷ []))

  append-IsValid :
      (v : A) {q : Queue A} → IsValid q → length q.items < q.capacity → IsValid (append v q)
  unfolding append
  append-IsValid v {q} h room = ground (arith, length-append q.items (v ∷ []))

  pub push_waiting-IsValid :
      (v : A) (d : Deadline) (now : ℕ) {q : Queue A}
      → IsValid q
      → IsValid (push_waiting v d now q).0
  unfolding push_waiting
  push_waiting-IsValid v never now {q} h = ground (arith, append-IsValid v h)
  push_waiting-IsValid v immediate now {q} h = h
  push_waiting-IsValid v (at t) now {q} h = ground (arith, append-IsValid v h)

  push_full-IsValid :
      (p : OverflowPolicy) (v : A) (d : Deadline) (now : ℕ) {q : Queue A}
      → IsValid q
      → q.capacity ≤ length q.items
      → IsValid (push_full p v d now q).0
  unfolding push_full
  push_full-IsValid block v d now h e = push_waiting-IsValid v d now h
  push_full-IsValid drop_newest v d now h e = ground arith
  push_full-IsValid drop_oldest v d now {q} h e = ground (arith, length-replace_oldest v q.items)

  pub push_until-IsValid :
      (v : A) (d : Deadline) (now : ℕ) {q : Queue A} → IsValid q → IsValid (push_until v d now q).0
  unfolding push_until
  push_until-IsValid v d now {q} h =
      ground (arith, append-IsValid v h, push_full-IsValid q.policy v d now h)

  take_front-IsValid :
      {q : Queue A}
      → IsValid q
      → (xs : List A) → length xs ≤ length q.items
      → IsValid (take_front q xs).0
  unfolding take_front
  take_front-IsValid h [] e = h
  take_front-IsValid h (x ∷ xs) e = omega arith

  pub pop_waiting-IsValid :
      (d : Deadline) (now : ℕ) {q : Queue A} → IsValid q → IsValid (pop_waiting d now q).0
  unfolding pop_waiting
  pop_waiting-IsValid never now {q} h = ground (arith, take_front-IsValid h q.items)
  pop_waiting-IsValid immediate now {q} h = h
  pop_waiting-IsValid (at t) now {q} h = ground (arith, take_front-IsValid h q.items)

  pub pop_until-IsValid :
      (d : Deadline) (now : ℕ) {q : Queue A} → IsValid q → IsValid (pop_until d now q).0
  unfolding pop_until
  pop_until-IsValid d now {q} h =
      ground (arith, take_front-IsValid h q.items, pop_waiting-IsValid d now h)

  pub close-IsValid : {q : Queue A} → IsValid q → IsValid (close q)
  unfolding close
  close-IsValid h = omega arith

  pub clear-IsValid : {q : Queue A} → IsValid q → IsValid (clear q).0
  unfolding clear
  clear-IsValid h = omega arith

  pub step-IsValid : (c : ℕ × Call A) {q : Queue A} → IsValid q → IsValid (step c q).0
  unfolding step
  step-IsValid (now, start_push v d) h = push_until-IsValid v d now h
  step-IsValid (now, resume_push v d) h = push_waiting-IsValid v d now h
  step-IsValid (now, start_pop d) h = pop_until-IsValid d now h
  step-IsValid (now, resume_pop d) h = pop_waiting-IsValid d now h
  step-IsValid (now, closes) h = close-IsValid h
  step-IsValid (now, clears) h = clear-IsValid h

  -- Whatever slices run, in whatever order, these are kept: the capacity is above 0, the size is at
  -- most the high-water mark, and that at most the capacity.
  pub run-IsValid : (cs : List (ℕ × Call A)) {q : Queue A} → IsValid q → IsValid (run cs q).0
  unfolding run
  run-IsValid [] h = h
  run-IsValid (c ∷ cs) h = run-IsValid cs (step-IsValid c h)
