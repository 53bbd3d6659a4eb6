-- ===== src/Queue/Blocking.antt =====
-- When the operations of BoundedQueue put the caller to sleep, and how a closed queue drains.
-- (code/include/rdb/concurrency/bounded_queue.h)
use mw_study.Prelude.{
  ℕ, ◌-◌, ◌≤◌, ◌<◌, ◌≡◌, refl, ◌↔◌, true, false, List, [], ◌∷◌, ◌++◌, map, arith, length, take,
  drop, replicate, take-nil, drop-nil, Option, none, some,
}
use native.Mathlib.Nat.{sub-zero}
use mw_study.Queue.{
  Queue, Deadline, OverflowPolicy, block, drop_newest, drop_oldest, never, immediate, at,
  push_until, push_full, push_waiting, close, clear, pop, pop_until, pop_waiting, take_front,
  is_empty, Slice, closed, returned, sleeping,
}

-- The deadline lets the thread wait at `now`.
abbrev pub Waits : Deadline → ℕ → Type 0
Waits never now = Unit
Waits immediate now = ⊥
Waits (at t) now = now < t

module _ {ℓ} {A : Type ℓ} where
  push_full-sleeping :
      (p : OverflowPolicy) (v : A) (d : Deadline) (now : ℕ) (q : Queue A)
      → q.is_closed ≡ false
      → q.capacity ≤ length q.items
      → ((push_full p v d now q).2 ≡ sleeping) ↔ ((p ≡ block) × Waits d now)
  unfolding push_full push_waiting
  push_full-sleeping drop_newest v d now q h f = ((λ e. cc), (λ e. cc (e.0)))
  push_full-sleeping drop_oldest v d now q h f = ((λ e. cc), (λ e. cc (e.0)))
  push_full-sleeping block v never now q h f = ground arith
  push_full-sleeping block v immediate now q h f = ground arith
  push_full-sleeping block v (at t) now q h f = ground arith

  -- `push_until` blocks the caller exactly when the queue is open, full, of policy Block, and the
  -- deadline is still ahead. (So DropNewest and DropOldest never block, nor does try_push.)
  pub push_until-sleeping_iff :
      (v : A) (d : Deadline) (now : ℕ) (q : Queue A)
      → ((push_until v d now q).2 ≡ sleeping)
        ↔ ((q.is_closed ≡ false) × (q.capacity ≤ length q.items) × (q.policy ≡ block) × Waits d now)
  unfolding push_until
  push_until-sleeping_iff v d now q = ground (arith, push_full-sleeping q.policy v d now q)

  pop_from-sleeping :
      (d : Deadline) (now : ℕ) (q : Queue A) (xs : List A)
      → q.items ≡ xs
      → ((pop_until d now q).1 ≡ sleeping) ↔ ((q.is_closed ≡ false) × (xs ≡ []) × Waits d now)
  unfolding pop_until pop_waiting take_front is_empty
  pop_from-sleeping never now q [] e = ground arith
  pop_from-sleeping never now q (x ∷ xs) e = ground arith
  pop_from-sleeping immediate now q [] e = ground arith
  pop_from-sleeping immediate now q (x ∷ xs) e = ground arith
  pop_from-sleeping (at t) now q [] e = ground arith
  pop_from-sleeping (at t) now q (x ∷ xs) e = ground arith

  -- `pop_until` blocks the caller exactly when the queue is open and empty and the deadline is
  -- still ahead.
  pub pop_until-sleeping_iff :
      (d : Deadline) (now : ℕ) (q : Queue A)
      → ((pop_until d now q).1 ≡ sleeping) ↔ ((q.is_closed ≡ false) × (q.items ≡ []) × Waits d now)
  pop_until-sleeping_iff d now q = pop_from-sleeping d now q q.items refl

  -- `pop_until`, again and again, with the time and the deadline of each call.
  unfoldable pub pops : List (ℕ × Deadline) → Queue A → Queue A × List (Slice (Option A))
  pops [] q = (q, [])
  pops ((now, d) ∷ ds) q =
      let (q₁, r) = pop_until d now q in let (q₂, rs) = pops ds q₁ in (q₂, r ∷ rs)

  closed_pop_front :
      (now : ℕ) (d : Deadline) (q : Queue A) (xs : List A)
      → q.is_closed ≡ true
      → q.items ≡ xs
      → pop_until d now q ≡ take_front q xs
  unfolding pop_until
  closed_pop_front now d q xs h e = ground arith

  -- What successive pops return from a closed queue that holds `xs`.
  abbrev Drains : List A → ℕ → Queue A × List (Slice (Option A)) → Type ℓ
  Drains xs n r =
      (r.1 ≡ map (λ x. returned (some x)) (take n xs) ++ replicate (n - length xs) (returned none))
      × (r.0.items ≡ drop n xs)

  pops-empty :
      (ds : List (ℕ × Deadline)) (q : Queue A)
      → q.is_closed ≡ true
      → q.items ≡ []
      → ((pops ds q).1 ≡ replicate (length ds) (returned none)) × ((pops ds q).0.items ≡ [])
  unfolding pops take_front
  pops-empty [] q h e = (refl, e)
  pops-empty ((now, d) ∷ ds) q h e =
      ground (arith, closed_pop_front now d q [] h e, pops-empty ds q h e)

  pops-Drains :
      (ds : List (ℕ × Deadline)) (q : Queue A) (xs : List A)
      → q.is_closed ≡ true
      → q.items ≡ xs
      → Drains xs (length ds) (pops ds q)
  unfolding pops take_front
  pops-Drains [] q xs h e = let none_left : 0 - length xs ≡ 0 = omega arith in (rw none_left, e)
  pops-Drains ((now, d) ∷ ds) q [] h e =
      rw (take-nil A (length (d' ∷ ds)), drop-nil A (length (d' ∷ ds)), sub-zero)
        (pops-empty (d' ∷ ds) q h e)
    where
      d' : ℕ × Deadline
      d' = (now, d)
  pops-Drains ((now, d) ∷ ds) q (x ∷ xs) h e = ground (
    arith,
    closed_pop_front now d q (x ∷ xs) h e,
    pops-Drains ds (record q { items = xs }) xs h refl,
  )

  -- After close() a consumer is never blocked and loses nothing: successive pops return what was
  -- queued, in order, and `nullopt` from then on.
  pub pops-closed :
      (ds : List (ℕ × Deadline)) (q : Queue A)
      → q.is_closed ≡ true
      → ((pops ds q).1
          ≡ map (λ x. returned (some x)) (take (length ds) q.items)
            ++ replicate (length ds - length q.items) (returned none))
        × ((pops ds q).0.items ≡ drop (length ds) q.items)
  pops-closed ds q h = pops-Drains ds q q.items h refl

  -- A closed queue accepts nothing and does not change.
  pub push_until-closed :
      (v : A) (d : Deadline) (now : ℕ) (q : Queue A)
      → q.is_closed ≡ true
      → push_until v d now q ≡ (q, none, returned closed)
  unfolding push_until
  push_until-closed v d now q h = ground arith

module _ {ℓ} {A : Type ℓ} where
  pub pop-closed_empty :
      (now : ℕ) (q : Queue A) → q.is_closed ≡ true → q.items ≡ [] → pop now q ≡ (q, returned none)
  unfolding pop take_front
  pop-closed_empty now q h e = closed_pop_front now never q [] h e

  pub pop-closed_front :
      (now : ℕ) (q : Queue A) (x : A) (xs : List A)
      → q.is_closed ≡ true
      → q.items ≡ x ∷ xs
      → pop now q ≡ (record q { items = xs }, returned (some x))
  unfolding pop take_front
  pop-closed_front now q x xs h e = closed_pop_front now never q (x ∷ xs) h e

  -- What `close` and `clear` leave.
  pub close-items : (q : Queue A) → ((close q).items ≡ q.items) × ((close q).is_closed ≡ true)
  unfolding close
  close-items q = (refl, refl)

  pub clear-items : (q : Queue A) → (clear q).0.items ≡ []
  unfolding clear
  clear-items q = refl
