-- ===== src/Queue/Fifo.antt =====
-- Order and accounting of BoundedQueue: nothing is lost, invented or reordered.
-- (code/include/rdb/concurrency/bounded_queue.h)
use mw_study.Prelude.{
  ℕ, ◌+◌, ◌^◌, ◌≡◌, refl, not, ◌&&◌, ◌||◌, List, [], ◌∷◌, ◌++◌, arith, ◌<◌, leb, length, if-elim,
  u64, append-nil, append_assoc,
}
use mw_study.Queue.{
  Queue, Deadline, OverflowPolicy, block, drop_newest, drop_oldest, never, immediate, at,
  push_until, push_full, push_waiting, append, replace_oldest, pop_until, pop_waiting, is_empty,
  take_front, close, clear,
}
use mw_study.Queue.Run.{
  Call, Log, to_list, push_log, pop_log, start_push, resume_push, start_pop, resume_pop, closes,
  clears, step, run,
}

module _ {ℓ} {A : Type ℓ} where
  -- One slice: what it takes in goes to the back, what it gives out comes from the front, and each
  -- drop is counted.
  pub record Accounts (q : Queue A) (r : Queue A × Log A) : Type ℓ where
    pub order : q.items ++ r.1.entered ≡ r.1.left ++ r.0.items
    pub counted : r.0.dropped ≡ u64 (q.dropped + r.1.drops)

  push_waiting-Accounts :
      (v : A) (d : Deadline) (now : ℕ) (q : Queue A)
      → q.dropped < 2 ^ 64
      → Accounts q (push_log v (push_waiting v d now q))
  unfolding push_waiting push_log append
  push_waiting-Accounts v never now q h = ground (arith, append-nil q.items)
  push_waiting-Accounts v immediate now q h = ground (arith, append-nil q.items)
  push_waiting-Accounts v (at t) now q h = ground (arith, append-nil q.items)

  replace_oldest_order :
      (v : A) (xs : List A)
      → xs ++ (v ∷ []) ≡ to_list (replace_oldest v xs).1 ++ (replace_oldest v xs).0
  unfolding replace_oldest
  replace_oldest_order v [] = refl
  replace_oldest_order v (x ∷ xs) = refl

  push_full-Accounts :
      (p : OverflowPolicy) (v : A) (d : Deadline) (now : ℕ) (q : Queue A)
      → q.dropped < 2 ^ 64
      → Accounts q (push_log v (push_full p v d now q))
  unfolding push_full push_log
  push_full-Accounts block v d now q h = push_waiting-Accounts v d now q h
  push_full-Accounts drop_newest v d now q h = ground (arith, append-nil q.items)
  push_full-Accounts drop_oldest v d now q h = record {
    order = replace_oldest_order v q.items;
    counted = refl;
  }

  push_until-Accounts :
      (v : A) (d : Deadline) (now : ℕ) (q : Queue A)
      → q.dropped < 2 ^ 64
      → Accounts q (push_log v (push_until v d now q))
  unfolding push_until
  push_until-Accounts v d now q h =
      if-elim (λ r. Accounts q (push_log v r)) q.is_closed
        (λ _. unfold push_log in ground (arith, append-nil q.items))
        (λ _.
          if-elim (λ r. Accounts q (push_log v r)) (leb q.capacity (length q.items))
            (λ _. push_full-Accounts q.policy v d now q h)
            (λ _. unfold push_log append in ground arith))

  take_front-Accounts :
      (q : Queue A) (xs : List A)
      → q.dropped < 2 ^ 64
      → q.items ≡ xs
      → Accounts q (pop_log (take_front q xs))
  unfolding take_front pop_log
  take_front-Accounts q [] h e = ground (arith, append-nil q.items)
  take_front-Accounts q (x ∷ xs) h e = ground (arith, append-nil q.items)

  pop_waiting-Accounts :
      (d : Deadline) (now : ℕ) (q : Queue A)
      → q.dropped < 2 ^ 64
      → Accounts q (pop_log (pop_waiting d now q))
  unfolding pop_waiting
  pop_waiting-Accounts never now q h =
      if-elim (λ r. Accounts q (pop_log r)) (q.is_closed || not (is_empty q.items))
        (λ _. take_front-Accounts q q.items h refl)
        (λ _. unfold pop_log in ground (arith, append-nil q.items))
  pop_waiting-Accounts immediate now q h = unfold pop_log in ground (arith, append-nil q.items)
  pop_waiting-Accounts (at t) now q h =
      if-elim (λ r. Accounts q (pop_log r)) (q.is_closed || not (is_empty q.items))
        (λ _. take_front-Accounts q q.items h refl)
        (λ _. unfold pop_log in ground (arith, append-nil q.items))

  pop_until-Accounts :
      (d : Deadline) (now : ℕ) (q : Queue A)
      → q.dropped < 2 ^ 64
      → Accounts q (pop_log (pop_until d now q))
  unfolding pop_until
  pop_until-Accounts d now q h =
      if-elim (λ r. Accounts q (pop_log r)) (is_empty q.items && not q.is_closed)
        (λ _. pop_waiting-Accounts d now q h) (λ _. take_front-Accounts q q.items h refl)

  step-Accounts : (c : ℕ × Call A) (q : Queue A) → q.dropped < 2 ^ 64 → Accounts q (step c q)
  unfolding step
  step-Accounts (now, start_push v d) q h = push_until-Accounts v d now q h
  step-Accounts (now, resume_push v d) q h = push_waiting-Accounts v d now q h
  step-Accounts (now, start_pop d) q h = pop_until-Accounts d now q h
  step-Accounts (now, resume_pop d) q h = pop_waiting-Accounts d now q h
  step-Accounts (now, closes) q h = unfold close in ground (arith, append-nil q.items)
  step-Accounts (now, clears) q h = unfold clear in ground (arith, append-nil q.items)

  -- Over any sequence of slices: what was queued at the start and what was accepted since, in order
  -- of acceptance, is what came out (popped, evicted or discarded), in that order, followed by what
  -- is queued at the end. And `dropped_` has grown by the number of drops reported, modulo 2 ^ 64.
  pub run-Accounts :
      (cs : List (ℕ × Call A)) (q : Queue A) → q.dropped < 2 ^ 64 → Accounts q (run cs q)
  unfolding run
  run-Accounts [] q h = ground (arith, append-nil q.items)
  run-Accounts (c ∷ cs) q h =
      let (q₁, l₁) = step c q in
      let first = step-Accounts c q h in
      let rest = run-Accounts cs q₁ (omega (arith, first.counted)) in
      record {
        order = ground (
          arith,
          first.order,
          rest.order,
          append_assoc q.items l₁.entered (run cs q₁).1.entered,
          append_assoc l₁.left q₁.items (run cs q₁).1.entered,
          append_assoc l₁.left (run cs q₁).1.left (run cs q₁).0.items,
        );
        counted = omega (arith, first.counted, rest.counted);
      }
