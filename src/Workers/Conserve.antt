-- ===== src/Workers/Conserve.antt =====
-- No task of a ThreadPool is lost or run twice. (code/include/rdb/concurrency/thread_pool.h)
pub mod Stop
use mw_study.Prelude.{
  ℕ, ◌+◌, ◌%◌, ◌^◌, ◌≤◌, ◌≡◌, ◌≢◌, refl, ap, sym, ◌∙◌, Bool, true, false, Option, none, some, List,
  [], ◌∷◌, ◌++◌, append-nil, append_assoc, map, arith, if◌then◌else◌, if-elim, length,
  length-append, length-set, get_elem?, AllOf, AllOf-imp, AllOf-set,
}
use mw_study.Queue
use mw_study.Queue.{
  Queue, block, PushStatus, ok, full, dropped_newest, dropped_oldest, closed, Slice, returned,
  sleeping, never,
}
use mw_study.Queue.Block.{added, removed, Adds, Removes, pop-Removes, close-Adds, clear-Removes}
use mw_study.Workers.{ThreadPool, is_ok, posted, joined}
use mw_study.Workers.System.{
  System, Worker, looping, over, running, Stopper, running_on, clearing, closing, joining, stopped,
  taken_by, posted_to, picked, worker_step, all_over, stop_step, stop_flag,
}
use mw_study.Workers.Counting.{
  count, taken, busy, count-append, taken-append, taken-discarded, tasks-discarded, tasks-append,
  busy-set, all_over-get,
}

module _ {ℓ} {T : Type ℓ} where
  -- What a worker that has returned has seen.
  abbrev pub Quiet : Queue T → Worker T → Type ℓ
  Quiet q w = w ≡ over → (q.is_closed ≡ true) × (q.items ≡ [])

  pub record Sound (s : System T) : Type ℓ where
    pub policy : s.pool.queue.policy ≡ block
    pub order : s.accepted ≡ map (λ (x : Bool × T). x.1) s.left ++ s.pool.queue.items
    pub tally :
        (f : T → Bool) → count f (taken s.left) ≡ count f s.finished + count f (busy s.workers)
    pub completed : s.pool.completed ≡ length s.finished % 2 ^ 64
    pub quiet : AllOf (Quiet s.pool.queue) s.workers
    pub some_worker : 1 ≤ length s.workers
    pub joined : s.stopper ≡ stopped → all_over s.workers ≡ true

  -- What a call that posts leaves.
  pub record Posted (task : T) (pool : ThreadPool T) (r : ThreadPool T × Slice Bool) : Type ℓ where
    pub items : r.0.queue.items ≡ pool.queue.items ++ taken_by task r.1
    pub policy : r.0.queue.policy ≡ pool.queue.policy
    pub completed : r.0.completed ≡ pool.completed
    pub refused :
        pool.queue.is_closed ≡ true
        → (r.0.queue.is_closed ≡ true) × (r.0.queue.items ≡ pool.queue.items)

  pub posted-Posted :
      (task : T) (pool : ThreadPool T) (r : Queue T × Option T × Slice PushStatus)
      → Adds task pool.queue r
      → Posted task pool (posted pool r)
  unfolding posted is_ok
  posted-Posted task pool (queue, evicted, sleeping) h = record {
    items = h.items;
    policy = h.policy;
    completed = refl;
    refused = λ e. (h.shut ∙ e, h.refused e);
  }
  posted-Posted task pool (queue, evicted, returned status) h = record {
    items = h.items ∙ ap (λ l. pool.queue.items ++ l) (same status);
    policy = h.policy;
    completed = refl;
    refused = λ e. (h.shut ∙ e, h.refused e);
  }
    where
      same : (p : PushStatus) → added task (returned p) ≡ taken_by task (returned (is_ok p))
      same ok = refl
      same full = refl
      same dropped_newest = refl
      same dropped_oldest = refl
      same closed = refl

  pub posted_to-Sound :
      (task : T) (r : ThreadPool T × Slice Bool) (s : System T)
      → Sound s
      → Posted task s.pool r
      → Sound (posted_to task r s)
  unfolding posted_to
  posted_to-Sound task (pool, slice) s h p = record {
    policy = p.policy ∙ h.policy;
    order =
        ap (λ l. l ++ taken_by task slice) h.order
        ∙ append_assoc (map (λ (x : Bool × T). x.1) s.left) s.pool.queue.items (taken_by task slice)
        ∙ ap (λ l. map (λ (x : Bool × T). x.1) s.left ++ l) (sym p.items);
    tally = h.tally;
    completed = p.completed ∙ h.completed;
    quiet =
        AllOf-imp s.workers
          (λ w q e.
            let (shut, none_left) = q e in
            let (shut', same) = p.refused shut in (shut', same ∙ none_left))
          h.quiet;
    some_worker = h.some_worker;
    joined = h.joined;
  }

  still-Quiet :
      {q : Queue T} {r : Queue T × Slice (Option T)} (p : Removes q r) (w : Worker T)
      → Quiet q w
      → Quiet r.0 w
  still-Quiet {q} {r} p w h e =
      let (shut, none_left) = h e in
      (p.shut ∙ shut, rest (removed r.1) r.0.items (sym p.items ∙ none_left))
    where
      rest : (xs ys : List T) → xs ++ ys ≡ [] → ys ≡ []
      rest [] ys k = k
      rest (x ∷ xs) ys k = absurd (cc)

  -- When the joins have returned, no worker is in its loop.
  not_looping :
      (s : System T) (h : Sound s)
      → s.stopper ≡ stopped
      → (i : ℕ) → get_elem? s.workers i ≢ some looping
  not_looping s h f i e = let k = all_over-get s.workers i {w = looping} (h.joined f) e in cc

  picked-Sound :
      (i : ℕ) (r : Queue T × Slice (Option T)) (s : System T)
      → Sound s
      → get_elem? s.workers i ≡ some looping
      → Removes s.pool.queue r
      → Sound (picked i r s)
  unfolding picked
  picked-Sound i (queue, sleeping) s h e p = record {
    policy = p.policy ∙ h.policy;
    order = h.order ∙ ap (λ l. map (λ (x : Bool × T). x.1) s.left ++ l) p.items;
    tally = h.tally;
    completed = h.completed;
    quiet = AllOf-imp s.workers (still-Quiet p) h.quiet;
    some_worker = h.some_worker;
    joined = h.joined;
  }
  picked-Sound i (queue, returned none) s h e p =
      let (shut, none_left) = p.over refl in
      record {
        policy = p.policy ∙ h.policy;
        order = h.order ∙ ap (λ l. map (λ (x : Bool × T). x.1) s.left ++ l) p.items;
        tally = λ f. omega (arith, h.tally f, busy-set f s.workers i {w = looping} over e);
        completed = h.completed;
        quiet =
            AllOf-set (Quiet queue) s.workers i over (AllOf-imp s.workers (still-Quiet p) h.quiet)
              (λ _. (p.shut ∙ shut, sym p.items ∙ none_left));
        some_worker = rw (length-set s.workers i over) h.some_worker;
        joined = λ f. absurd (not_looping s h f i e);
      }
  picked-Sound i (queue, returned (some task)) s h e p = record {
    policy = p.policy ∙ h.policy;
    order =
        h.order
        ∙ ap (λ l. map (λ (x : Bool × T). x.1) s.left ++ l) p.items
        ∙ sym (append_assoc (map (λ (x : Bool × T). x.1) s.left) (task ∷ []) queue.items)
        ∙ ap (λ l. l ++ queue.items) (sym (tasks-append s.left ((true, task) ∷ [])));
    tally = λ f. omega (
      arith,
      h.tally f,
      busy-set f s.workers i {w = looping} (running task) e,
      ap (count f) (taken-append s.left ((true, task) ∷ [])),
      count-append f (taken s.left) (task ∷ []),
    );
    completed = h.completed;
    quiet =
        AllOf-set (Quiet queue) s.workers i (running task)
          (AllOf-imp s.workers
            (λ w q o. let (shut, none_left) = q o in absurd (let t = p.items in cc)) h.quiet)
          (λ o. absurd (cc));
    some_worker = rw (length-set s.workers i (running task)) h.some_worker;
    joined = λ f. absurd (not_looping s h f i e);
  }

  ran-Sound :
      (now i : ℕ) (task : T) (s : System T)
      → Sound s
      → get_elem? s.workers i ≡ some (running task)
      → Sound (worker_step now i (running task) s)
  unfolding worker_step
  ran-Sound now i task s h e = record {
    policy = h.policy;
    order = h.order;
    tally = λ f. omega (
      arith,
      h.tally f,
      busy-set f s.workers i {w = running task} looping e,
      count-append f s.finished (task ∷ []),
    );
    completed = omega (arith, h.completed, length-append s.finished (task ∷ []));
    quiet = AllOf-set (Quiet s.pool.queue) s.workers i looping h.quiet (λ o. absurd (cc));
    some_worker = rw (length-set s.workers i looping) h.some_worker;
    joined = λ f. let k = all_over-get s.workers i {w = running task} (h.joined f) e in absurd (cc);
  }

  pub worker_step-Sound :
      (now i : ℕ) (w : Worker T) (s : System T)
      → Sound s
      → get_elem? s.workers i ≡ some w
      → Sound (worker_step now i w s)
  unfolding worker_step
  worker_step-Sound now i looping s h e =
      picked-Sound i (Queue.pop now s.pool.queue) s h e (pop-Removes now s.pool.queue)
  worker_step-Sound now i (running task) s h e = ran-Sound now i task s h e
  worker_step-Sound now i over s h e = h
