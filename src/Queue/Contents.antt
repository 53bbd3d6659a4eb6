-- ===== src/Queue/Contents.antt =====
-- What every queued item satisfies, every item popped satisfies.
-- (code/include/rdb/concurrency/bounded_queue.h)
use mw_study.Prelude.{
  ◌↔◌, ◌==◌, length, true, refl, arith, ℕ, ◌≡◌, ℕ, ◌+◌, Option, none, some, List, [], ◌∷◌, arith,
  AllOf, AllOf-append,
}
use mw_study.Queue.{
  empty, size, Queue, Deadline, OverflowPolicy, block, drop_newest, drop_oldest, never, immediate,
  at, Slice, returned, sleeping, new, push, push_for, try_push, pop, close, push_until, push_full,
  push_waiting, append, replace_oldest, pop_until, pop_waiting, take_front,
}

module _ {ℓ} {A : Type ℓ} where
  abbrev pub Popped : (A → Type 0) → Slice (Option A) → Type 0
  Popped Q sleeping = Unit
  Popped Q (returned none) = Unit
  Popped Q (returned (some x)) = Q x

module _ {ℓ} {A : Type ℓ} (Q : A → Type 0) where
  append-AllOf : (v : A) (q : Queue A) → Q v → AllOf Q q.items → AllOf Q (append v q).items
  unfolding append
  append-AllOf v q h p = AllOf-append Q q.items (v ∷ []) p (h, tt)

  replace_oldest-AllOf : (v : A) (xs : List A) → Q v → AllOf Q xs → AllOf Q (replace_oldest v xs).0
  unfolding replace_oldest
  replace_oldest-AllOf v [] h p = (h, tt)
  replace_oldest-AllOf v (x ∷ xs) h p = AllOf-append Q xs (v ∷ []) p.1 (h, tt)

  pub push_waiting-AllOf :
      (v : A) (d : Deadline) (now : ℕ) (q : Queue A)
      → Q v
      → AllOf Q q.items
      → AllOf Q (push_waiting v d now q).0.items
  unfolding push_waiting
  push_waiting-AllOf v never now q h p = ground (arith, append-AllOf v q h p)
  push_waiting-AllOf v immediate now q h p = p
  push_waiting-AllOf v (at t) now q h p = ground (arith, append-AllOf v q h p)

  push_full-AllOf :
      (o : OverflowPolicy) (v : A) (d : Deadline) (now : ℕ) (q : Queue A)
      → Q v
      → AllOf Q q.items
      → AllOf Q (push_full o v d now q).0.items
  unfolding push_full
  push_full-AllOf block v d now q h p = push_waiting-AllOf v d now q h p
  push_full-AllOf drop_newest v d now q h p = p
  push_full-AllOf drop_oldest v d now q h p = replace_oldest-AllOf v q.items h p

  pub push_until-AllOf :
      (v : A) (d : Deadline) (now : ℕ) (q : Queue A)
      → Q v
      → AllOf Q q.items
      → AllOf Q (push_until v d now q).0.items
  unfolding push_until
  push_until-AllOf v d now q h p =
      ground (arith, append-AllOf v q h p, push_full-AllOf q.policy v d now q h p)

  take_front-AllOf :
      (q : Queue A) (xs : List A)
      → AllOf Q q.items
      → AllOf Q xs
      → AllOf Q (take_front q xs).0.items × Popped Q (take_front q xs).1
  unfolding take_front
  take_front-AllOf q [] p r = (p, tt)
  take_front-AllOf q (x ∷ xs) p r = (r.1, r.0)

  pop_waiting-AllOf :
      (d : Deadline) (now : ℕ) (q : Queue A)
      → AllOf Q q.items
      → AllOf Q (pop_waiting d now q).0.items × Popped Q (pop_waiting d now q).1
  unfolding pop_waiting
  pop_waiting-AllOf never now q p = ground (arith, take_front-AllOf q q.items p p)
  pop_waiting-AllOf immediate now q p = (p, tt)
  pop_waiting-AllOf (at t) now q p = ground (arith, take_front-AllOf q q.items p p)

  pub pop_until-AllOf :
      (d : Deadline) (now : ℕ) (q : Queue A)
      → AllOf Q q.items
      → AllOf Q (pop_until d now q).0.items × Popped Q (pop_until d now q).1
  unfolding pop_until
  pop_until-AllOf d now q p =
      ground (arith, take_front-AllOf q q.items p p, pop_waiting-AllOf d now q p)

  pub push-AllOf :
      (v : A) (now : ℕ) (q : Queue A) → Q v → AllOf Q q.items → AllOf Q (push v now q).0.items
  unfolding push
  push-AllOf v now q h p = push_until-AllOf v never now q h p

  pub push_for-AllOf :
      (v : A) (t now : ℕ) (q : Queue A)
      → Q v
      → AllOf Q q.items
      → AllOf Q (push_for v t now q).0.items
  unfolding push_for
  push_for-AllOf v t now q h p = push_until-AllOf v (at (now + t)) now q h p

  pub try_push-AllOf :
      (v : A) (now : ℕ) (q : Queue A) → Q v → AllOf Q q.items → AllOf Q (try_push v now q).0.items
  unfolding try_push
  try_push-AllOf v now q h p = push_until-AllOf v immediate now q h p

  pub pop-AllOf :
      (now : ℕ) (q : Queue A)
      → AllOf Q q.items
      → AllOf Q (pop now q).0.items × Popped Q (pop now q).1
  unfolding pop
  pop-AllOf now q p = pop_until-AllOf never now q p

  pub close-AllOf : (q : Queue A) → AllOf Q q.items → AllOf Q (close q).items
  unfolding close
  close-AllOf q p = p

  pub new-AllOf : (n : ℕ) (o : OverflowPolicy) → AllOf Q (new {A = A} n o).items
  unfolding new
  new-AllOf n o = tt

module _ {ℓ} {A : Type ℓ} where
  pub empty-items_iff : (q : Queue A) → (empty q ≡ true) ↔ (q.items ≡ [])
  unfolding empty size
  empty-items_iff q = length_zero q.items
    where
      length_zero : (xs : List A) → ((length xs == 0) ≡ true) ↔ (xs ≡ [])
      length_zero [] = (λ _. refl, λ _. refl)
      length_zero (x ∷ xs) = ((λ e. absurd (ground arith)), λ e. absurd (cc))
