-- ===== src/Workers/Shut.antt =====
-- While stop() joins the workers, the queue is closed. (code/include/rdb/concurrency/thread_pool.h)
use mw_study.Prelude.{
  ℕ, ◌≡◌, ◌≢◌, refl, ◌∙◌, Bool, true, false, Option, none, some, List, [], ◌∷◌, if◌then◌else◌,
  if-elim, get_elem?, Option-cases, inl, inr,
}
use mw_study.Queue
use mw_study.Queue.{Queue, Slice, returned, sleeping, never}
use mw_study.Queue.Block.{
  Removes, pop-Removes, push-Adds, try_push-Adds, push_waiting-Adds, close-Adds,
}
use mw_study.Workers.{ThreadPool, post, try_post}
use mw_study.Workers.System.{
  System, Worker, looping, over, running, Stopper, running_on, clearing, closing, joining, stopped,
  Action, posts, resumes, tries, worker_moves, stops, stop_moves, posted_to, picked, worker_step,
  all_over, stop_step, stop_flag, act, interleave,
}
use mw_study.Workers.Conserve.{Sound, Posted, posted-Posted}
use mw_study.Workers.Drain.{act-Sound}

module _ {ℓ} {T : Type ℓ} where
  -- While the stopping thread joins, the queue is closed.
  abbrev pub IsShut : System T → Type 0
  IsShut s = s.stopper ≡ joining → s.pool.queue.is_closed ≡ true

  posted_to-IsShut :
      (task : T) (r : ThreadPool T × Slice Bool) (s : System T)
      → IsShut s
      → Posted task s.pool r
      → IsShut (posted_to task r s)
  unfolding posted_to
  posted_to-IsShut task r s h p e = (p.refused (h e)).0

  picked-IsShut :
      (i : ℕ) (r : Queue T × Slice (Option T)) (s : System T)
      → IsShut s
      → Removes s.pool.queue r
      → IsShut (picked i r s)
  unfolding picked
  picked-IsShut i (queue, sleeping) s h p e = p.shut ∙ h e
  picked-IsShut i (queue, returned none) s h p e = p.shut ∙ h e
  picked-IsShut i (queue, returned (some task)) s h p e = p.shut ∙ h e

  worker_step-IsShut :
      (now i : ℕ) (w : Worker T) (s : System T) → IsShut s → IsShut (worker_step now i w s)
  unfolding worker_step
  worker_step-IsShut now i looping s h =
      picked-IsShut i (Queue.pop now s.pool.queue) s h (pop-Removes now s.pool.queue)
  worker_step-IsShut now i (running task) s h = h
  worker_step-IsShut now i over s h = h

  stop_step-IsShut :
      (p : Stopper) (s : System T) → IsShut s → s.stopper ≡ p → IsShut (stop_step p s)
  unfolding stop_step
  stop_step-IsShut running_on s h e = h
  stop_step-IsShut clearing s h e = λ f. absurd (cc)
  stop_step-IsShut closing s h e = λ f. (close-Adds s.pool.queue).2
  stop_step-IsShut joining s h e = if-elim IsShut (all_over s.workers) (λ _ f. absurd (cc)) (λ _. h)
  stop_step-IsShut stopped s h e = h

  stop_flag-IsShut : (drain : Bool) (s : System T) → IsShut s → IsShut (stop_flag drain s)
  unfolding stop_flag
  stop_flag-IsShut drain s h =
      if-elim IsShut s.pool.stopping (λ _. h) (λ _ f. absurd (not_joining drain f))
    where
      not_joining : (b : Bool) → (if b then closing else clearing) ≢ joining
      not_joining true e = cc
      not_joining false e = cc

  act-IsShut : (a : Action T) (s : System T) → Sound s → IsShut s → IsShut (act a s)
  unfolding act post try_post
  act-IsShut (posts task now) s k h =
      posted_to-IsShut task _ s h
        (posted-Posted task s.pool _ (push-Adds task now s.pool.queue k.policy))
  act-IsShut (resumes task now) s k h =
      posted_to-IsShut task _ s h
        (posted-Posted task s.pool _ (push_waiting-Adds task never now s.pool.queue))
  act-IsShut (tries task now) s k h =
      posted_to-IsShut task _ s h
        (posted-Posted task s.pool _ (try_push-Adds task now s.pool.queue k.policy))
  act-IsShut (worker_moves now i) s k h = elim (Option-cases (get_elem? s.workers i)) [
    | inl none_there ↦ rw (act, none_there) h
    | inr (worker, e) ↦ rw (act, e) (worker_step-IsShut now i worker s h)
  ]
  act-IsShut (stops drain) s k h = stop_flag-IsShut drain s h
  act-IsShut stop_moves s k h = stop_step-IsShut s.stopper s h refl

  pub interleave-IsShut :
      (actions : List (Action T)) (s : System T)
      → Sound s
      → IsShut s
      → IsShut (interleave actions s)
  unfolding interleave
  interleave-IsShut [] s k h = h
  interleave-IsShut (a ∷ actions) s k h =
      interleave-IsShut actions (act a s) (act-Sound a s k) (act-IsShut a s k h)
