-- ===== src/Queue/Policy.antt =====
-- No operation of a BoundedQueue changes its policy. (code/include/rdb/concurrency/bounded_queue.h)
use mw_study.Prelude.{ℕ, ◌≡◌, ◌≤◌, ◌≢◌, refl, List, [], ◌∷◌, arith, ◌+◌}
use mw_study.Queue.Blocking.{push_until-sleeping_iff}
use mw_study.Queue.{
  Queue, OverflowPolicy, block, drop_newest, drop_oldest, Deadline, never, immediate, at, append,
  wait_for_space, push_waiting, push_full, push_until, push, push_for, try_push, pop_waiting,
  take_front, pop_until, pop, sleeping, new, close,
}

pub new-policy {ℓ} :
    (A : Type ℓ) (capacity : ℕ) (o : OverflowPolicy) → (new {A = A} capacity o).policy ≡ o
unfolding new
new-policy A capacity o = refl

module _ {ℓ} {A : Type ℓ} where
  pub push_waiting-policy :
      (v : A) (d : Deadline) (now : ℕ) (q : Queue A) → (push_waiting v d now q).0.policy ≡ q.policy
  unfolding push_waiting wait_for_space append
  push_waiting-policy v never now q = ground arith
  push_waiting-policy v immediate now q = refl
  push_waiting-policy v (at t) now q = ground arith

  push_full-policy :
      (o : OverflowPolicy) (v : A) (d : Deadline) (now : ℕ) (q : Queue A)
      → (push_full o v d now q).0.policy ≡ q.policy
  unfolding push_full
  push_full-policy block v d now q = push_waiting-policy v d now q
  push_full-policy drop_newest v d now q = refl
  push_full-policy drop_oldest v d now q = refl

  pub push_until-policy :
      (v : A) (d : Deadline) (now : ℕ) (q : Queue A) → (push_until v d now q).0.policy ≡ q.policy
  unfolding push_until append
  push_until-policy v d now q = ground (arith, push_full-policy q.policy v d now q)

  pub push-policy : (v : A) (now : ℕ) (q : Queue A) → (push v now q).0.policy ≡ q.policy
  unfolding push
  push-policy v now q = push_until-policy v never now q

  pub push_for-policy :
      (v : A) (timeout now : ℕ) (q : Queue A) → (push_for v timeout now q).0.policy ≡ q.policy
  unfolding push_for
  push_for-policy v timeout now q = push_until-policy v (at (now + timeout)) now q

  pub try_push-policy : (v : A) (now : ℕ) (q : Queue A) → (try_push v now q).0.policy ≡ q.policy
  unfolding try_push
  try_push-policy v now q = push_until-policy v immediate now q

  take_front-policy : (q : Queue A) (xs : List A) → (take_front q xs).0.policy ≡ q.policy
  unfolding take_front
  take_front-policy q [] = refl
  take_front-policy q (x ∷ xs) = refl

  pub pop-policy : (now : ℕ) (q : Queue A) → (pop now q).0.policy ≡ q.policy
  unfolding pop pop_until pop_waiting
  pop-policy now q = ground (arith, take_front-policy q q.items)

  pub close-policy : (q : Queue A) → (close q).policy ≡ q.policy
  unfolding close
  close-policy q = refl

  -- Past its deadline, a waiter returns.
  pub push_waiting-late :
      (v : A) (t now : ℕ) (q : Queue A) → t ≤ now → (push_waiting v (at t) now q).2 ≢ sleeping
  unfolding push_waiting wait_for_space
  push_waiting-late v t now q h e = ground arith

  -- Without a deadline, only a push on a queue of policy Block waits.
  pub push-sleeping_block :
      (v : A) (now : ℕ) (q : Queue A) → (push v now q).2 ≡ sleeping → q.policy ≡ block
  unfolding push
  push-sleeping_block v now q h =
      let (shut, full, blocks, waits) = (push_until-sleeping_iff v never now q).0 h in blocks
