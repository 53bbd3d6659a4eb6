-- ===== src/Workers/Conserve/Stop.antt =====
-- `stop` of a ThreadPool loses no task and runs none twice.
-- (code/include/rdb/concurrency/thread_pool.h)
use mw_study.Prelude.{
  ◌≡◌, ◌≢◌, ap, sym, ◌∙◌, Bool, true, false, List, ◌++◌, append-nil, map, if◌then◌else◌, if-elim,
  AllOf-imp,
}
use mw_study.Queue
use mw_study.Queue.{
  Queue, block, PushStatus, ok, full, dropped_newest, dropped_oldest, closed, Slice, returned,
  sleeping, never,
}
use mw_study.Queue.Block.{close-Adds, clear-Removes}
use mw_study.Workers.{joined}
use mw_study.Workers.System.{
  System, Stopper, running_on, clearing, closing, joining, stopped, all_over, stop_step, stop_flag,
}
use mw_study.Workers.Counting.{
  count, taken, taken-append, taken-discarded, tasks-discarded, tasks-append,
}
use mw_study.Workers.Conserve.{Sound}

module _ {ℓ} {T : Type ℓ} where
  pub stop_step-Sound :
      (p : Stopper) (s : System T) → s.stopper ≡ p → Sound s → Sound (stop_step p s)
  unfolding stop_step joined
  stop_step-Sound running_on s e h = h
  stop_step-Sound clearing s e h =
      let (out, empty, policy, shut) = clear-Removes s.pool.queue in
      let discarded : List (Bool × T) = map (λ task. (false, task)) (Queue.clear s.pool.queue).1 in
      record {
        policy = policy ∙ h.policy;
        order =
            h.order
            ∙ ap (λ l. map (λ (x : Bool × T). x.1) s.left ++ l)
                (sym (tasks-discarded (Queue.clear s.pool.queue).1 ∙ out))
            ∙ sym (tasks-append s.left discarded)
            ∙ sym (append-nil (map (λ (x : Bool × T). x.1) (s.left ++ discarded)))
            ∙ ap (λ l. map (λ (x : Bool × T). x.1) (s.left ++ discarded) ++ l) (sym empty);
        tally = λ f.
            ap (count f) (
              taken-append s.left discarded
              ∙ ap (λ l. taken s.left ++ l) (taken-discarded (Queue.clear s.pool.queue).1)
              ∙ append-nil (taken s.left))
            ∙ h.tally f;
        completed = h.completed;
        quiet = AllOf-imp s.workers (λ w q o. (shut ∙ (q o).0, empty)) h.quiet;
        some_worker = h.some_worker;
        joined = λ f. absurd (cc);
      }
  stop_step-Sound closing s e h =
      let (items, policy, shut) = close-Adds s.pool.queue in
      record {
        policy = policy ∙ h.policy;
        order = h.order ∙ ap (λ l. map (λ (x : Bool × T). x.1) s.left ++ l) (sym items);
        tally = h.tally;
        completed = h.completed;
        quiet = AllOf-imp s.workers (λ w q o. (shut, items ∙ (q o).1)) h.quiet;
        some_worker = h.some_worker;
        joined = λ f. absurd (cc);
      }
  stop_step-Sound joining s e h =
      if-elim Sound (all_over s.workers)
        (λ all. record {
          policy = h.policy;
          order = h.order;
          tally = h.tally;
          completed = h.completed;
          quiet = h.quiet;
          some_worker = h.some_worker;
          joined = λ _. all;
        })
        (λ _. h)
  stop_step-Sound stopped s e h = h

  pub stop_flag-Sound : (drain : Bool) (s : System T) → Sound s → Sound (stop_flag drain s)
  unfolding stop_flag
  stop_flag-Sound drain s h =
      if-elim Sound s.pool.stopping (λ _. h)
        (λ _. record {
          policy = h.policy;
          order = h.order;
          tally = h.tally;
          completed = h.completed;
          quiet = h.quiet;
          some_worker = h.some_worker;
          joined = λ f. absurd (not_stopped drain f);
        })
    where
      not_stopped : (b : Bool) → (if b then closing else clearing) ≢ stopped
      not_stopped true e = cc
      not_stopped false e = cc
