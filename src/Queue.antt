-- ===== src/Queue.antt =====
-- code/include/rdb/concurrency/bounded_queue.h: a queue of bounded size under one mutex.
--
-- Each definition here is what one thread does while it holds the mutex, from taking it to giving
-- it back: by returning, or by going to sleep on a condition variable (`sleeping`). `now` is the
-- reading of steady_clock that the slice sees.
pub mod Run
pub mod Invariant
pub mod Fifo
pub mod Blocking
pub mod Contents
pub mod Fill
pub mod Change
pub mod Threads
pub mod Wakeup
pub mod Policy
pub mod Block
mod Tests
use mw_study.Prelude.{
  ℕ, ◌+◌, Bool, true, false, not, ◌&&◌, ◌||◌, Option, none, some, List, [], ◌∷◌, ◌++◌, ltb, leb,
  ◌==◌, if◌then◌else◌, length, u64,
}

-- `enum class OverflowPolicy`
pub data OverflowPolicy : Type 0 where
  block drop_newest drop_oldest : OverflowPolicy

-- `enum class PushStatus`
pub data PushStatus : Type 0 where
  ok full dropped_newest dropped_oldest closed : PushStatus

-- The members of `BoundedQueue<T>`; the head of `items` is the front of the deque.
pub record Queue {ℓ} (A : Type ℓ) : Type ℓ where
  pub items : List A
  pub capacity : ℕ
  pub policy : OverflowPolicy
  pub is_closed : Bool
  pub dropped : ℕ
  pub high_water : ℕ

-- A `steady_clock::time_point` as the waits tell them apart: `max()`, `min()`, any other.
pub data Deadline : Type 0 where
  never immediate : Deadline
  at : ℕ → Deadline

-- How a slice ends.
pub data Slice {ℓ} (R : Type ℓ) : Type ℓ where
  returned : R → Slice R
  sleeping : Slice R

module _ {ℓ} {A : Type ℓ} where
  unfoldable pub new : ℕ → OverflowPolicy → Queue A
  new capacity policy = record {
    items = [];
    capacity = if capacity == 0 then 1 else capacity;
    policy = policy;
    is_closed = false;
    dropped = 0;
    high_water = 0;
  }

  -- The lambda `ready` of `wait_for_space`.
  unfoldable pub ready : Queue A → Bool
  ready q = q.is_closed || ltb (length q.items) q.capacity

  -- One look at the condition; `none`: the thread sleeps on `not_full_`. A `wait_until` that starts
  -- past its deadline lets go of the mutex and looks once more; that run is the one whose first look
  -- has an earlier `now`, and it is not told apart.
  unfoldable pub wait_for_space : Deadline → ℕ → Queue A → Option Bool
  unfolding ready
  wait_for_space never now q = if ready q then some true else none
  wait_for_space immediate now q = some false
  wait_for_space (at t) now q =
      if ready q then some true else if leb t now then some false else none

  -- `items_.push_back` and the update of `high_water_`.
  unfoldable pub append : A → Queue A → Queue A
  append value q =
      let items = q.items ++ (value ∷ []) in
      record q {
        items = items;
        high_water = if ltb q.high_water (length items) then length items else q.high_water;
      }

  -- From `wait_for_space` on. A thread that was asleep comes back here.
  unfoldable pub push_waiting : A → Deadline → ℕ → Queue A → Queue A × Option A × Slice PushStatus
  unfolding wait_for_space append
  push_waiting value deadline now q = elim (wait_for_space deadline now q) [
    | none ↦ (q, none, sleeping)
    | some false ↦ (q, none, returned full)
    | some true ↦
        if q.is_closed then (q, none, returned closed) else (append value q, none, returned ok)
  ]

  -- `evicted.emplace(std::move(items_.front())); items_.pop_front();` then `push_back`.
  -- The front of an empty deque is undefined; `Queue.Invariant` rules it out.
  pub replace_oldest : A → List A → List A × Option A
  replace_oldest value [] = (value ∷ [], none)
  replace_oldest value (x ∷ xs) = (xs ++ (value ∷ []), some x)

  -- The `switch` on a full queue.
  unfoldable pub push_full :
      OverflowPolicy → A → Deadline → ℕ → Queue A → Queue A × Option A × Slice PushStatus
  unfolding push_waiting replace_oldest
  push_full drop_newest value deadline now q =
      (record q { dropped = u64 (q.dropped + 1) }, none, returned dropped_newest)
  push_full drop_oldest value deadline now q =
      let (items, evicted) = replace_oldest value q.items in
      (record q { items = items; dropped = u64 (q.dropped + 1) }, evicted, returned dropped_oldest)
  push_full block value deadline now q = push_waiting value deadline now q

  -- `push_until`; the option is what `evicted` holds at the return.
  unfoldable pub push_until : A → Deadline → ℕ → Queue A → Queue A × Option A × Slice PushStatus
  unfolding push_full append
  push_until value deadline now q =
      if q.is_closed
      then (q, none, returned closed)
      else if leb q.capacity (length q.items)
      then push_full q.policy value deadline now q
      else (append value q, none, returned ok)

  unfoldable pub push : A → ℕ → Queue A → Queue A × Option A × Slice PushStatus
  unfolding push_until
  push value now q = push_until value never now q

  -- `now + timeout` as the library computes it, before it could reach `max()`.
  unfoldable pub push_for : A → ℕ → ℕ → Queue A → Queue A × Option A × Slice PushStatus
  unfolding push_until
  push_for value timeout now q = push_until value (at (now + timeout)) now q

  pub try_push : A → ℕ → Queue A → Queue A × Option A × Slice PushStatus
  unfolding push_until
  try_push value now q = push_until value immediate now q

  -- The end of `pop_until`: the front, or nothing.
  unfoldable pub take_front : Queue A → List A → Queue A × Slice (Option A)
  take_front q [] = (q, returned none)
  take_front q (x ∷ xs) = (record q { items = xs }, returned (some x))

  unfoldable pub is_empty : List A → Bool
  is_empty [] = true
  is_empty (x ∷ xs) = false

  -- One look at the condition of the wait on `not_empty_`; a thread that was asleep comes back here.
  unfoldable pub pop_waiting : Deadline → ℕ → Queue A → Queue A × Slice (Option A)
  unfolding take_front is_empty
  pop_waiting never now q =
      if q.is_closed || not (is_empty q.items) then take_front q q.items else (q, sleeping)
  pop_waiting immediate now q = (q, returned none)
  pop_waiting (at t) now q =
      if q.is_closed || not (is_empty q.items)
      then take_front q q.items
      else if leb t now
      then (q, returned none)
      else (q, sleeping)

  unfoldable pub pop_until : Deadline → ℕ → Queue A → Queue A × Slice (Option A)
  unfolding pop_waiting take_front is_empty
  pop_until deadline now q =
      if is_empty q.items && not q.is_closed
      then pop_waiting deadline now q
      else take_front q q.items

  unfoldable pub pop : ℕ → Queue A → Queue A × Slice (Option A)
  unfolding pop_until
  pop now q = pop_until never now q

  pub pop_for : ℕ → ℕ → Queue A → Queue A × Slice (Option A)
  unfolding pop_until
  pop_for timeout now q = pop_until (at (now + timeout)) now q

  pub try_pop : ℕ → Queue A → Queue A × Slice (Option A)
  unfolding pop_until
  try_pop now q = pop_until immediate now q

  -- The part of `close` that holds the mutex; it notifies both variables after that.
  unfoldable pub close : Queue A → Queue A
  close q = record q { is_closed = true }

  -- What is discarded, and the queue; it notifies `not_full_` with the mutex held.
  pub clear : Queue A → Queue A × List A
  clear q = (record q { items = [] }, q.items)

  pub size : Queue A → ℕ
  size q = length q.items

  pub empty : Queue A → Bool
  unfolding size
  empty q = size q == 0
