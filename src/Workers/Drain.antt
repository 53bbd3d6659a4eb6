-- ===== src/Workers/Drain.antt =====
-- What a ThreadPool has run when stop() returns. (code/include/rdb/concurrency/thread_pool.h)
use mw_study.Prelude.{
  ℕ, zero, suc, ◌+◌, ◌%◌, ◌^◌, ◌≤◌, ◌≡◌, ◌≢◌, refl, ap, sym, ◌∙◌, Bool, true, false, Option, none,
  some, List, [], ◌∷◌, ◌++◌, append-nil, map, arith, ◌==◌, if◌then◌else◌, if-elim, length,
  length-replicate, get_elem?, replicate, Option-cases, inl, inr, AllOf,
}
use mw_study.Queue
use mw_study.Queue.{
  Queue, block, PushStatus, ok, full, dropped_newest, dropped_oldest, closed, Slice, returned,
  sleeping, never,
}
use mw_study.Queue.Block.{push-Adds, try_push-Adds, push_waiting-Adds, new_Block}
use mw_study.Workers.{new, post, try_post}
use mw_study.Workers.System.{
  System, Worker, looping, over, running, Stopper, running_on, clearing, closing, joining, stopped,
  Action, posts, resumes, tries, worker_moves, stops, stop_moves, start, posted_to, picked,
  worker_step, all_over, stop_step, stop_flag, act, interleave,
}
use mw_study.Workers.Counting.{count, taken, busy, taken-append, tasks-append, all_over-busy}
use mw_study.Workers.Conserve.{Sound, Quiet, posted-Posted, posted_to-Sound, worker_step-Sound}
use mw_study.Workers.Conserve.Stop.{stop_step-Sound, stop_flag-Sound}

module _ {ℓ} {T : Type ℓ} where
  pub act-Sound : (a : Action T) (s : System T) → Sound s → Sound (act a s)
  unfolding act post try_post
  act-Sound (posts task now) s h =
      posted_to-Sound task _ s h
        (posted-Posted task s.pool _ (push-Adds task now s.pool.queue h.policy))
  act-Sound (resumes task now) s h =
      posted_to-Sound task _ s h
        (posted-Posted task s.pool _ (push_waiting-Adds task never now s.pool.queue))
  act-Sound (tries task now) s h =
      posted_to-Sound task _ s h
        (posted-Posted task s.pool _ (try_push-Adds task now s.pool.queue h.policy))
  act-Sound (worker_moves now i) s h = elim (Option-cases (get_elem? s.workers i)) [
    | inl none_there ↦ rw (act, none_there) h
    | inr (worker, e) ↦ rw (act, e) (worker_step-Sound now i worker s h e)
  ]
  act-Sound (stops drain) s h = stop_flag-Sound drain s h
  act-Sound stop_moves s h = stop_step-Sound s.stopper s refl h

  interleave-Sound :
      (actions : List (Action T)) (s : System T) → Sound s → Sound (interleave actions s)
  unfolding interleave
  interleave-Sound [] s h = h
  interleave-Sound (a ∷ actions) s h = interleave-Sound actions (act a s) (act-Sound a s h)

  abbrev new_workers : ℕ → List (Worker T)
  new_workers n = replicate n looping

  pub start-Sound : (threads queue_capacity : ℕ) → Sound {T = T} (start threads queue_capacity)
  unfolding start new
  start-Sound threads queue_capacity =
      let (items, policy, open_now) = new_Block T queue_capacity in
      let n = if threads == 0 then 1 else threads in
      record {
        policy = policy;
        order = sym items;
        tally = λ f. none_busy f n;
        completed = omega arith;
        quiet = all_looping n;
        some_worker =
            let e : length (new_workers n) ≡ n = length-replicate n looping in ground arith;
        joined = λ e. absurd (cc);
      }
    where
      none_busy : (f : T → Bool) (k : ℕ) → 0 ≡ 0 + count f (busy (new_workers k))
      none_busy f zero = omega arith
      none_busy f (suc k) = none_busy f k

      all_looping : (k : ℕ) → AllOf (Quiet (Queue.new queue_capacity block)) (new_workers k)
      all_looping zero = tt
      all_looping (suc k) = ((λ e. absurd (cc)), all_looping k)

  -- From a new pool, in any interleaving of its workers with threads that post and threads that
  -- stop it: the tasks accepted are those that left the queue, in that order, and then those in it;
  -- those that workers took are, by any test on tasks, as many as those that have run to their end
  -- and those that are running; completed() is how many have run to their end, modulo 2^64; a
  -- worker has returned only if the queue is closed and empty; and once stop() has joined, all have.
  pub interleave-start-Sound :
      (threads queue_capacity : ℕ) (actions : List (Action T))
      → Sound (interleave actions (start threads queue_capacity))
  interleave-start-Sound threads queue_capacity actions =
      interleave-Sound actions (start threads queue_capacity) (start-Sound threads queue_capacity)

  -- No call of stop() discards.
  abbrev pub Drains : Action T → Type 0
  Drains (stops drain) = drain ≡ true
  Drains _ = Unit

  -- Nothing has been discarded, and no thread is about to.
  record Keeps (s : System T) : Type ℓ where
    all_taken : taken s.left ≡ map (λ (x : Bool × T). x.1) s.left
    not_clearing : s.stopper ≢ clearing

  picked-Keeps :
      (i : ℕ) (r : Queue T × Slice (Option T)) (s : System T) → Keeps s → Keeps (picked i r s)
  unfolding picked
  picked-Keeps i (queue, sleeping) s h = record {
    all_taken = h.all_taken;
    not_clearing = h.not_clearing;
  }
  picked-Keeps i (queue, returned none) s h = record {
    all_taken = h.all_taken;
    not_clearing = h.not_clearing;
  }
  picked-Keeps i (queue, returned (some task)) s h = record {
    all_taken =
        taken-append s.left ((true, task) ∷ [])
        ∙ ap (λ l. l ++ (task ∷ [])) h.all_taken
        ∙ sym (tasks-append s.left ((true, task) ∷ []));
    not_clearing = h.not_clearing;
  }

  worker_step-Keeps :
      (now i : ℕ) (w : Worker T) (s : System T) → Keeps s → Keeps (worker_step now i w s)
  unfolding worker_step
  worker_step-Keeps now i looping s h = picked-Keeps i (Queue.pop now s.pool.queue) s h
  worker_step-Keeps now i (running task) s h = record {
    all_taken = h.all_taken;
    not_clearing = h.not_clearing;
  }
  worker_step-Keeps now i over s h = h

  stop_step-Keeps : (p : Stopper) (s : System T) → s.stopper ≡ p → Keeps s → Keeps (stop_step p s)
  unfolding stop_step
  stop_step-Keeps running_on s e h = h
  stop_step-Keeps clearing s e h = absurd (h.not_clearing e)
  stop_step-Keeps closing s e h = record {
    all_taken = h.all_taken;
    not_clearing = λ f. absurd (cc);
  }
  stop_step-Keeps joining s e h =
      if-elim Keeps (all_over s.workers)
        (λ _. record { all_taken = h.all_taken; not_clearing = λ f. absurd (cc) }) (λ _. h)
  stop_step-Keeps stopped s e h = h

  act-Keeps : (a : Action T) (s : System T) → Drains a → Keeps s → Keeps (act a s)
  unfolding act posted_to stop_flag
  act-Keeps (posts task now) s d h = record {
    all_taken = h.all_taken;
    not_clearing = h.not_clearing;
  }
  act-Keeps (resumes task now) s d h = record {
    all_taken = h.all_taken;
    not_clearing = h.not_clearing;
  }
  act-Keeps (tries task now) s d h = record {
    all_taken = h.all_taken;
    not_clearing = h.not_clearing;
  }
  act-Keeps (worker_moves now i) s d h = elim (Option-cases (get_elem? s.workers i)) [
    | inl none_there ↦ rw (act, none_there) h
    | inr (worker, e) ↦ rw (act, e) (worker_step-Keeps now i worker s h)
  ]
  act-Keeps (stops drain) s d h =
      if-elim Keeps s.pool.stopping (λ _. h)
        (λ _. record { all_taken = h.all_taken; not_clearing = λ f. closes drain d f })
    where
      closes : (b : Bool) → b ≡ true → (if b then closing else clearing) ≢ clearing
      closes true e f = cc
      closes false e f = cc
  act-Keeps stop_moves s d h = stop_step-Keeps s.stopper s refl h

  interleave-Keeps :
      (actions : List (Action T)) (s : System T)
      → AllOf Drains actions
      → Keeps s
      → Keeps (interleave actions s)
  unfolding interleave
  interleave-Keeps [] s d h = h
  interleave-Keeps (a ∷ actions) s d h =
      interleave-Keeps actions (act a s) d.1 (act-Keeps a s d.0 h)

  start-Keeps : (threads queue_capacity : ℕ) → Keeps (start threads queue_capacity)
  unfolding start
  start-Keeps threads queue_capacity = record { all_taken = refl; not_clearing = λ e. absurd (cc) }

  -- All accepted tasks have run, and no other.
  pub record AllRun (s : System T) : Type ℓ where
    pub empty : s.pool.queue.items ≡ []
    pub closed : s.pool.queue.is_closed ≡ true
    pub same_tasks : (f : T → Bool) → count f s.finished ≡ count f s.accepted
    pub completed : s.pool.completed ≡ length s.accepted % 2 ^ 64

  over-shut :
      (q : Queue T) (ws : List (Worker T))
      → AllOf (Quiet q) ws
      → all_over ws ≡ true
      → 1 ≤ length ws
      → (q.is_closed ≡ true) × (q.items ≡ [])
  over-shut q [] h e l = absurd (omega arith)
  over-shut q (over ∷ ws) h e l = h.0 refl
  over-shut q (looping ∷ ws) h e l = absurd (cc)
  over-shut q (running task ∷ ws) h e l = absurd (cc)

  count_all : (xs : List T) → count (λ _. true) xs ≡ length xs
  count_all [] = refl
  count_all (x ∷ xs) = ap suc (count_all xs)

  joined-AllRun : (s : System T) → Sound s → Keeps s → s.stopper ≡ stopped → AllRun s
  joined-AllRun s h k e =
      let (shut, none_left) = over-shut s.pool.queue s.workers h.quiet (h.joined e) h.some_worker in
      let all : s.accepted ≡ taken s.left =
        h.order
        ∙ ap (λ l. map (λ (x : Bool × T). x.1) s.left ++ l) none_left
        ∙ append-nil (map (λ (x : Bool × T). x.1) s.left)
        ∙ sym k.all_taken in
      let same : (f : T → Bool) → count f s.finished ≡ count f s.accepted = λ f.
        let idle = ap (count f) (all_over-busy s.workers (h.joined e)) in
        let t = h.tally f in let a = ap (count f) all in omega (arith, idle, t, a) in
      let n : length s.finished ≡ length s.accepted =
        sym (count_all s.finished) ∙ same (λ _. true) ∙ count_all s.accepted in
      record {
        empty = none_left;
        closed = shut;
        same_tasks = same;
        completed = h.completed ∙ ap (λ (m : ℕ). m % 2 ^ 64) n;
      }

  -- A pool with no stop(false): in any interleaving, when stop() has joined, the queue is closed and
  -- empty, the tasks that have run to their end are the accepted ones, each as often as it was
  -- accepted (by any test on tasks they are as many), and completed() is their number modulo 2^64.
  pub stopped-AllRun :
      (threads queue_capacity : ℕ) (actions : List (Action T))
      → AllOf Drains actions
      → (interleave actions (start threads queue_capacity)).stopper ≡ stopped
      → AllRun (interleave actions (start threads queue_capacity))
  stopped-AllRun threads queue_capacity actions d e =
      let first : System T = start threads queue_capacity in
      let kept = interleave-Keeps actions first d (start-Keeps threads queue_capacity) in
      joined-AllRun (interleave actions first)
        (interleave-start-Sound threads queue_capacity actions) kept e
