-- ===== src/Queue/Threads.antt =====
-- Any number of threads on one BoundedQueue: its two condition variables and who waits on them.
-- (code/include/rdb/concurrency/bounded_queue.h)
use mw_study.Prelude.{ℕ, suc, ◌≡◌, Bool, true, false, List, [], ◌∷◌, ◌++◌, Option, none, some}
use mw_study.Queue.{
  Queue, Deadline, never, at, push_until, push_waiting, pop_until, pop_waiting, close, clear, new,
  OverflowPolicy, PushStatus, returned, sleeping,
}
use mw_study.Queue.Change.{signals, pops_one}

-- The deadline of a thread that waits: none is `max()`. (A call with `min()` never waits.)
abbrev pub until : Option ℕ → Deadline
until none = never
until (some t) = at t

-- `asleep`: waiting on the variable. `awake`: notified, timed out or woken without a cause, and not
-- yet holding the mutex again. `closing_empty` and `closing_full` count the calls of `close` that
-- have released the mutex and not yet notified `not_empty_`, or `not_full_`.
pub record System {ℓ} (A : Type ℓ) : Type ℓ where
  pub queue : Queue A
  pub pushers_asleep : List (A × Option ℕ)
  pub pushers_awake : List (A × Option ℕ)
  pub poppers_asleep : List (Option ℕ)
  pub poppers_awake : List (Option ℕ)
  pub closing_empty : ℕ
  pub closing_full : ℕ

-- `notify_one`, if `signalled`: the runtime picks any thread that sleeps.
pub data Notified {ℓ} {W : Type ℓ} (signalled : Bool) (asleep awake asleep' awake' : List W)
    : Type ℓ where
  silent :
      signalled ≡ false
      → asleep' ≡ asleep
      → awake' ≡ awake
      → Notified signalled asleep awake asleep' awake'
  nobody :
      signalled ≡ true
      → asleep ≡ []
      → asleep' ≡ []
      → awake' ≡ awake
      → Notified signalled asleep awake asleep' awake'
  wakes :
      (xs ys : List W) (w : W)
      → signalled ≡ true
      → asleep ≡ xs ++ (w ∷ ys)
      → asleep' ≡ xs ++ ys
      → awake' ≡ w ∷ awake
      → Notified signalled asleep awake asleep' awake'

pub data Step {ℓ} {A : Type ℓ} (s : System A) : System A → Type ℓ where
  push_returns :
      (v : A) (d : Deadline) (now : ℕ) (r : PushStatus) (asleep awake : List (Option ℕ))
      → (push_until v d now s.queue).2 ≡ returned r
      → Notified (signals (returned r)) s.poppers_asleep s.poppers_awake asleep awake
      → Step s (record s {
        queue = (push_until v d now s.queue).0;
        poppers_asleep = asleep;
        poppers_awake = awake;
      })
  push_sleeps :
      (v : A) (t : Option ℕ) (now : ℕ)
      → (push_until v (until t) now s.queue).2 ≡ sleeping
      → Step s (record s {
        queue = (push_until v (until t) now s.queue).0;
        pushers_asleep = (v, t) ∷ s.pushers_asleep;
      })
  push_wakes :
      (xs ys : List (A × Option ℕ)) (w : A × Option ℕ)
      → s.pushers_asleep ≡ xs ++ (w ∷ ys)
      → Step s (record s { pushers_asleep = xs ++ ys; pushers_awake = w ∷ s.pushers_awake })
  resumed_push_returns :
      (xs ys : List (A × Option ℕ)) (v : A) (t : Option ℕ) (now : ℕ) (r : PushStatus)
      (asleep awake : List (Option ℕ))
      → s.pushers_awake ≡ xs ++ ((v, t) ∷ ys)
      → (push_waiting v (until t) now s.queue).2 ≡ returned r
      → Notified (signals (returned r)) s.poppers_asleep s.poppers_awake asleep awake
      → Step s (record s {
        queue = (push_waiting v (until t) now s.queue).0;
        pushers_awake = xs ++ ys;
        poppers_asleep = asleep;
        poppers_awake = awake;
      })
  resumed_push_sleeps :
      (xs ys : List (A × Option ℕ)) (v : A) (t : Option ℕ) (now : ℕ)
      → s.pushers_awake ≡ xs ++ ((v, t) ∷ ys)
      → (push_waiting v (until t) now s.queue).2 ≡ sleeping
      → Step s (record s {
        queue = (push_waiting v (until t) now s.queue).0;
        pushers_awake = xs ++ ys;
        pushers_asleep = (v, t) ∷ s.pushers_asleep;
      })
  pop_returns :
      (d : Deadline) (now : ℕ) (o : Option A) (asleep awake : List (A × Option ℕ))
      → (pop_until d now s.queue).1 ≡ returned o
      → Notified (pops_one (returned o)) s.pushers_asleep s.pushers_awake asleep awake
      → Step s (record s {
        queue = (pop_until d now s.queue).0;
        pushers_asleep = asleep;
        pushers_awake = awake;
      })
  pop_sleeps :
      (t : Option ℕ) (now : ℕ)
      → (pop_until (until t) now s.queue).1 ≡ sleeping
      → Step s (record s {
        queue = (pop_until (until t) now s.queue).0;
        poppers_asleep = t ∷ s.poppers_asleep;
      })
  pop_wakes :
      (xs ys : List (Option ℕ)) (w : Option ℕ)
      → s.poppers_asleep ≡ xs ++ (w ∷ ys)
      → Step s (record s { poppers_asleep = xs ++ ys; poppers_awake = w ∷ s.poppers_awake })
  resumed_pop_returns :
      (xs ys : List (Option ℕ)) (t : Option ℕ) (now : ℕ) (o : Option A)
      (asleep awake : List (A × Option ℕ))
      → s.poppers_awake ≡ xs ++ (t ∷ ys)
      → (pop_waiting (until t) now s.queue).1 ≡ returned o
      → Notified (pops_one (returned o)) s.pushers_asleep s.pushers_awake asleep awake
      → Step s (record s {
        queue = (pop_waiting (until t) now s.queue).0;
        poppers_awake = xs ++ ys;
        pushers_asleep = asleep;
        pushers_awake = awake;
      })
  resumed_pop_sleeps :
      (xs ys : List (Option ℕ)) (t : Option ℕ) (now : ℕ)
      → s.poppers_awake ≡ xs ++ (t ∷ ys)
      → (pop_waiting (until t) now s.queue).1 ≡ sleeping
      → Step s (record s {
        queue = (pop_waiting (until t) now s.queue).0;
        poppers_awake = xs ++ ys;
        poppers_asleep = t ∷ s.poppers_asleep;
      })
  closes : Step s (record s { queue = close s.queue; closing_empty = suc s.closing_empty })
  close_notifies_empty :
      (n : ℕ)
      → s.closing_empty ≡ suc n
      → Step s (record s {
        poppers_asleep = [];
        poppers_awake = s.poppers_asleep ++ s.poppers_awake;
        closing_empty = n;
        closing_full = suc s.closing_full;
      })
  close_notifies_full :
      (n : ℕ)
      → s.closing_full ≡ suc n
      → Step s (record s {
        pushers_asleep = [];
        pushers_awake = s.pushers_asleep ++ s.pushers_awake;
        closing_full = n;
      })
  clears : Step s (record s {
    queue = (clear s.queue).0;
    pushers_asleep = [];
    pushers_awake = s.pushers_asleep ++ s.pushers_awake;
  })

-- A new queue that no thread has called yet.
abbrev pub start {ℓ} : {A : Type ℓ} → ℕ → OverflowPolicy → System A
start capacity policy = record {
  queue = new capacity policy;
  pushers_asleep = [];
  pushers_awake = [];
  poppers_asleep = [];
  poppers_awake = [];
  closing_empty = 0;
  closing_full = 0;
}

pub data Reach {ℓ} {A : Type ℓ} (s : System A) : System A → Type ℓ where
  here : Reach s s
  next : {t u : System A} → Reach s t → Step t u → Reach s u
