-- ===== src/Queue/Change.antt =====
-- What a slice of BoundedQueue can do to the number of queued items.
-- (code/include/rdb/concurrency/bounded_queue.h)
use mw_study.Prelude.{
  ℕ, ◌+◌, ◌≤◌, ◌≡◌, refl, Bool, true, false, List, [], ◌∷◌, arith, length, length-append, Option,
  some,
}
use mw_study.Queue.{
  Queue, Deadline, OverflowPolicy, block, drop_newest, drop_oldest, never, immediate, at,
  push_until, push_full, push_waiting, append, replace_oldest, pop_until, pop_waiting, take_front,
  Slice, PushStatus, ok, dropped_oldest, returned,
}

-- The slice ends by `not_empty_.notify_one()`.
abbrev pub signals : Slice PushStatus → Bool
signals (returned ok) = true
signals (returned dropped_oldest) = true
signals _ = false

abbrev pub count : Bool → ℕ
count true = 1
count false = 0

abbrev pub pops_one {ℓ} : {A : Type ℓ} → Slice (Option A) → Bool
pops_one (returned (some x)) = true
pops_one _ = false

module _ {ℓ} {A : Type ℓ} where
  pub record PushChange (q : Queue A) (r : Queue A × Option A × Slice PushStatus) : Type 0 where
    pub same_capacity : r.0.capacity ≡ q.capacity
    pub same_closed : r.0.is_closed ≡ q.is_closed
    pub grows : length q.items ≤ length r.0.items
    pub at_most : length r.0.items ≤ length q.items + count (signals r.2)

  append-grows : (v : A) (q : Queue A) → length (append v q).items ≡ length q.items + 1
  unfolding append
  append-grows v q = omega (arith, length-append q.items (v ∷ []))

  replace_oldest-le :
      (v : A) (xs : List A)
      → (length xs ≤ length (replace_oldest v xs).0)
        × (length (replace_oldest v xs).0 ≤ length xs + 1)
  unfolding replace_oldest
  replace_oldest-le v [] = omega arith
  replace_oldest-le v (x ∷ xs) = omega (arith, length-append xs (v ∷ []))

  pub push_waiting-PushChange :
      (v : A) (d : Deadline) (now : ℕ) (q : Queue A) → PushChange q (push_waiting v d now q)
  unfolding push_waiting append
  push_waiting-PushChange v never now q = ground (arith, append-grows v q)
  push_waiting-PushChange v immediate now q = ground arith
  push_waiting-PushChange v (at t) now q = ground (arith, append-grows v q)

  push_full-PushChange :
      (p : OverflowPolicy) (v : A) (d : Deadline) (now : ℕ) (q : Queue A)
      → PushChange q (push_full p v d now q)
  unfolding push_full
  push_full-PushChange block v d now q = push_waiting-PushChange v d now q
  push_full-PushChange drop_newest v d now q = ground arith
  push_full-PushChange drop_oldest v d now q = ground (arith, replace_oldest-le v q.items)

  pub push_until-PushChange :
      (v : A) (d : Deadline) (now : ℕ) (q : Queue A) → PushChange q (push_until v d now q)
  unfolding push_until append
  push_until-PushChange v d now q =
      ground (arith, append-grows v q, push_full-PushChange q.policy v d now q)

  pub record PopChange (q : Queue A) (r : Queue A × Slice (Option A)) : Type 0 where
    pub same_capacity : r.0.capacity ≡ q.capacity
    pub same_closed : r.0.is_closed ≡ q.is_closed
    pub shrinks : length r.0.items + count (pops_one r.1) ≡ length q.items

  take_front-PopChange : (q : Queue A) (xs : List A) → q.items ≡ xs → PopChange q (take_front q xs)
  unfolding take_front
  take_front-PopChange q [] e = ground arith
  take_front-PopChange q (x ∷ xs) e = ground arith

  pub pop_waiting-PopChange :
      (d : Deadline) (now : ℕ) (q : Queue A) → PopChange q (pop_waiting d now q)
  unfolding pop_waiting
  pop_waiting-PopChange never now q = ground (arith, take_front-PopChange q q.items refl)
  pop_waiting-PopChange immediate now q = ground arith
  pop_waiting-PopChange (at t) now q = ground (arith, take_front-PopChange q q.items refl)

  pub pop_until-PopChange : (d : Deadline) (now : ℕ) (q : Queue A) → PopChange q (pop_until d now q)
  unfolding pop_until
  pop_until-PopChange d now q =
      ground (arith, take_front-PopChange q q.items refl, pop_waiting-PopChange d now q)
