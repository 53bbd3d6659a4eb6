-- ===== src/Queue/Block.antt =====
-- What a push and a pop that wait do to the items of a queue of policy Block.
-- (code/include/rdb/concurrency/bounded_queue.h)
use mw_study.Prelude.{
  ◌≢◌, ◌⊎◌, inl, inr, Bool-cases, ℕ, ◌≡◌, refl, sym, ap, ◌∙◌, true, false, Option, none, some, List,
  [], ◌∷◌, ◌++◌, append-nil, arith, not, ◌&&◌, ◌||◌, if-elim, leb, ltb, length,
}
use mw_study.Queue.Blocking.{pop_until-sleeping_iff}
use mw_study.Queue.{
  Queue, OverflowPolicy, block, drop_newest, drop_oldest, PushStatus, ok, full, closed, Deadline,
  never, immediate, at, Slice, returned, sleeping, append, ready, wait_for_space, push_waiting,
  push_full, push_until, push, try_push, pop_until, pop_waiting, pop, take_front, is_empty, close,
  clear, new,
}

module _ {ℓ} {A : Type ℓ} where
  -- What a push with this outcome adds.
  abbrev pub added : A → Slice PushStatus → List A
  added v (returned ok) = v ∷ []
  added v _ = []

  -- What a pop with this outcome takes.
  abbrev pub removed : Slice (Option A) → List A
  removed (returned (some x)) = x ∷ []
  removed _ = []

  -- The items are what they were and what was added; nothing is added to a closed queue.
  pub record Adds (v : A) (q : Queue A) (r : Queue A × Option A × Slice PushStatus) : Type ℓ where
    pub items : r.0.items ≡ q.items ++ added v r.2
    pub policy : r.0.policy ≡ q.policy
    pub shut : r.0.is_closed ≡ q.is_closed
    pub refused : q.is_closed ≡ true → r.0.items ≡ q.items

  unchanged :
      (v : A) (q : Queue A) (e : Option A) (s : Slice PushStatus)
      → added v s ≡ []
      → Adds v q (q, e, s)
  unchanged v q e s h = record {
    items = sym (append-nil q.items) ∙ ap (λ l. q.items ++ l) (sym h);
    policy = refl;
    shut = refl;
    refused = λ _. refl;
  }

  appended : (v : A) (q : Queue A) → q.is_closed ≡ false → Adds v q (append v q, none, returned ok)
  unfolding append
  appended v q h = record { items = refl; policy = refl; shut = refl; refused = λ e. absurd (cc) }

  pub push_waiting-Adds :
      (v : A) (d : Deadline) (now : ℕ) (q : Queue A) → Adds v q (push_waiting v d now q)
  unfolding push_waiting wait_for_space ready
  push_waiting-Adds v never now q = ground (
    arith,
    unchanged v q none sleeping refl,
    unchanged v q none (returned closed) refl,
    appended v q,
  )
  push_waiting-Adds v immediate now q = unchanged v q none (returned full) refl
  push_waiting-Adds v (at t) now q = ground (
    arith,
    unchanged v q none sleeping refl,
    unchanged v q none (returned closed) refl,
    unchanged v q none (returned full) refl,
    appended v q,
  )

  -- On an open queue, a push without a deadline adds the value or sleeps.
  pub record Waits (v : A) (q : Queue A) (r : Queue A × Option A × Slice PushStatus) : Type ℓ where
    pub outcome : (r.2 ≡ sleeping) ⊎ (r.2 ≡ returned ok)
    pub adds : Adds v q r

  asleep_or_ok :
      (v : A) (now : ℕ) (q : Queue A)
      → q.is_closed ≡ false
      → ((push_waiting v never now q).2 ≡ sleeping) ⊎ ((push_waiting v never now q).2 ≡ returned ok)
  unfolding push_waiting wait_for_space ready
  asleep_or_ok v now q h = elim (Bool-cases (ltb (length q.items) q.capacity)) [
    | inl room ↦ inr (rw (push_waiting, h, room, h) refl)
    | inr no_room ↦ inl (rw (push_waiting, h, no_room) refl)
  ]

  full_asleep_or_ok :
      (p : OverflowPolicy) (v : A) (now : ℕ) (q : Queue A)
      → q.is_closed ≡ false
      → p ≡ block
      → ((push_full p v never now q).2 ≡ sleeping) ⊎ ((push_full p v never now q).2 ≡ returned ok)
  unfolding push_full
  full_asleep_or_ok block v now q h e = asleep_or_ok v now q h
  full_asleep_or_ok drop_newest v now q h e = absurd (cc)
  full_asleep_or_ok drop_oldest v now q h e = absurd (cc)

  push-asleep_or_ok :
      (v : A) (now : ℕ) (q : Queue A)
      → q.is_closed ≡ false
      → q.policy ≡ block
      → ((push v now q).2 ≡ sleeping) ⊎ ((push v now q).2 ≡ returned ok)
  unfolding push push_until
  push-asleep_or_ok v now q h p =
      if-elim
        (λ (r : Queue A × Option A × Slice PushStatus). (r.2 ≡ sleeping) ⊎ (r.2 ≡ returned ok))
        q.is_closed (λ e. absurd (cc))
        (λ _.
          if-elim
            (λ (r : Queue A × Option A × Slice PushStatus). (r.2 ≡ sleeping) ⊎ (r.2 ≡ returned ok))
            (leb q.capacity (length q.items)) (λ _. full_asleep_or_ok q.policy v now q h p)
            (λ _. inr refl))

  pub push_waiting-Waits :
      (v : A) (now : ℕ) (q : Queue A) → q.is_closed ≡ false → Waits v q (push_waiting v never now q)
  push_waiting-Waits v now q h = record {
    outcome = asleep_or_ok v now q h;
    adds = push_waiting-Adds v never now q;
  }

  push_full-Adds :
      (p : OverflowPolicy) (v : A) (d : Deadline) (now : ℕ) (q : Queue A)
      → p ≡ block
      → Adds v q (push_full p v d now q)
  unfolding push_full
  push_full-Adds block v d now q h = push_waiting-Adds v d now q
  push_full-Adds drop_newest v d now q h = absurd (cc)
  push_full-Adds drop_oldest v d now q h = absurd (cc)

  push_until-Adds :
      (v : A) (d : Deadline) (now : ℕ) (q : Queue A)
      → q.policy ≡ block
      → Adds v q (push_until v d now q)
  unfolding push_until
  push_until-Adds v d now q h =
      if-elim (Adds v q) q.is_closed (λ _. unchanged v q none (returned closed) refl)
        (λ open_now.
          if-elim (Adds v q) (leb q.capacity (length q.items))
            (λ _. push_full-Adds q.policy v d now q h) (λ _. appended v q open_now))

  pub push-Adds : (v : A) (now : ℕ) (q : Queue A) → q.policy ≡ block → Adds v q (push v now q)
  unfolding push
  push-Adds v now q h = push_until-Adds v never now q h

  pub push-Waits :
      (v : A) (now : ℕ) (q : Queue A)
      → q.is_closed ≡ false
      → q.policy ≡ block
      → Waits v q (push v now q)
  push-Waits v now q h p = record {
    outcome = push-asleep_or_ok v now q h p;
    adds = push-Adds v now q p;
  }

  pub try_push-Adds :
      (v : A) (now : ℕ) (q : Queue A) → q.policy ≡ block → Adds v q (try_push v now q)
  unfolding try_push
  try_push-Adds v now q h = push_until-Adds v immediate now q h

  -- What is taken stood first; nothing is taken only from a closed queue that is empty.
  pub record Removes (q : Queue A) (r : Queue A × Slice (Option A)) : Type ℓ where
    pub items : q.items ≡ removed r.1 ++ r.0.items
    pub policy : r.0.policy ≡ q.policy
    pub shut : r.0.is_closed ≡ q.is_closed
    pub over : r.1 ≡ returned none → (q.is_closed ≡ true) × (q.items ≡ [])

  take_front-Removes :
      (q : Queue A) (xs : List A)
      → q.items ≡ xs
      → (xs ≡ [] → q.is_closed ≡ true)
      → Removes q (take_front q xs)
  unfolding take_front
  take_front-Removes q [] e h = record {
    items = refl;
    policy = refl;
    shut = refl;
    over = λ _. (h refl, e);
  }
  take_front-Removes q (x ∷ xs) e h = record {
    items = e;
    policy = refl;
    shut = refl;
    over = λ n. absurd (cc);
  }

  is_empty-nil : (xs : List A) → xs ≡ [] → is_empty xs ≡ true
  unfolding is_empty
  is_empty-nil [] e = refl
  is_empty-nil (x ∷ xs) e = absurd (cc)

  asleep : (q : Queue A) → Removes q (q, sleeping)
  asleep q = record { items = refl; policy = refl; shut = refl; over = λ n. absurd (cc) }

  pub pop-Removes : (now : ℕ) (q : Queue A) → Removes q (pop now q)
  unfolding pop pop_until pop_waiting
  pop-Removes now q =
      let empty = is_empty-nil q.items in
      if-elim (Removes q) (is_empty q.items && not q.is_closed)
        (λ nothing.
          if-elim (Removes q) (q.is_closed || not (is_empty q.items))
            (λ some_now. absurd (ground arith)) (λ _. asleep q))
        (λ some_now. take_front-Removes q q.items refl (λ e. let k = empty e in ground arith))

  -- A pop of a closed queue does not sleep.
  pub pop-closed_awake : (now : ℕ) (q : Queue A) → q.is_closed ≡ true → (pop now q).1 ≢ sleeping
  pop-closed_awake now q h e =
      let (open_now, rest, waits) = (pop_until-sleeping_iff never now q).0 (unfold pop in e) in cc

  pub close-Adds :
      (q : Queue A)
      → ((close q).items ≡ q.items) × ((close q).policy ≡ q.policy) × ((close q).is_closed ≡ true)
  unfolding close
  close-Adds q = (refl, refl, refl)

  pub clear-Removes :
      (q : Queue A)
      → ((clear q).1 ≡ q.items)
        × ((clear q).0.items ≡ [])
        × ((clear q).0.policy ≡ q.policy)
        × ((clear q).0.is_closed ≡ q.is_closed)
  unfolding clear
  clear-Removes q = (refl, refl, refl, refl)

pub new_Block {ℓ} :
    (A : Type ℓ) (capacity : ℕ)
    → ((new {A = A} capacity block).items ≡ [])
      × ((new {A = A} capacity block).policy ≡ block)
      × ((new {A = A} capacity block).is_closed ≡ false)
unfolding new
new_Block A capacity = (refl, refl, refl)
