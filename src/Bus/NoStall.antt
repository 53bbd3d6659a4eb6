-- ===== src/Bus/NoStall.antt =====
-- No publisher is held up for ever, in any interleaving. (code/include/rdb/bus/topic_bus.h)
use mw_study.Prelude.{
  ℕ, ◌≡◌, refl, some, Option-cases, Bool-cases, inl, inr, List, [], ◌∷◌, if-elim, ◌&&◌, get_elem?,
  set, AllOf-append, AllOf-set, AllOf-get,
}
use mw_study.Queue
use mw_study.Queue.{
  Queue, block, drop_oldest, Deadline, never, immediate, at, Slice, returned, sleeping, PushStatus,
}
use mw_study.Bus.{Envelope, Subscription, new}
use mw_study.Bus.Publish.{Publishing, Publisher, publish, publish_step, advertise}
use mw_study.Bus.Deliver.{deliver_round}
use mw_study.Bus.System.{
  System, Action, advertises, subscribes, publishes, runs, fills, delivers, unlinks, clears_topics,
  closes, ends_join, start, run_call, fill, delivered_to, act, run,
}
use mw_study.Bus.Steady.{reliables, deliver_round-Same}
use mw_study.Bus.Waiting.{Waits, publish-Started, publish_step-Stepped}
use mw_study.Bus.SteadySystem.{
  SystemSteady, with_kept, with_heap, with_sub, Waits-Grows, subscribed-SystemSteady,
  push_backlog-SystemSteady, start_worker-SystemSteady, stop_close-SystemSteady,
  stop_joined-SystemSteady, unlink-heap,
}

module _ {P : Type 0} where
  fill-SystemSteady :
      (now i : ℕ) (join : ℕ × List (Envelope P)) (s : System P)
      → SystemSteady s
      → SystemSteady (fill now i join s)
  unfolding fill
  fill-SystemSteady now i (id, []) s h = start_worker-SystemSteady id s h
  fill-SystemSteady now i (id, e ∷ es) s h =
      let k = push_backlog-SystemSteady now id e s h in
      record { queues = k.queues; calls = k.calls }

  delivered_to-SystemSteady :
      (now id : ℕ) (sub : Subscription P) (s : System P)
      → SystemSteady s
      → get_elem? s.bus.heap id ≡ some sub
      → SystemSteady (delivered_to id (deliver_round now sub) s)
  unfolding delivered_to
  delivered_to-SystemSteady now id sub s h there =
      let same = deliver_round-Same now sub in
      let k =
        with_sub s id {old = sub} (deliver_round now sub).0
          (record s.bus { heap = set s.bus.heap id (deliver_round now sub).0 }) h there same.qos
          same.policy refl in
      record { queues = k.queues; calls = k.calls }

  run_call-SystemSteady :
      (now i : ℕ) (call : Publishing P) (s : System P)
      → SystemSteady s
      → get_elem? s.calls i ≡ some call
      → SystemSteady (run_call now i call s)
  unfolding run_call
  run_call-SystemSteady now i call s h there =
      let w = AllOf-get (Waits (reliables s.bus.heap)) s.calls i h.calls there in
      let r = publish_step now s.bus call in
      let stepped = publish_step-Stepped now s.bus call h.queues w in
      let k = with_kept s r.0 h stepped.kept in
      record {
        queues = k.queues;
        calls = AllOf-set (Waits (reliables r.0.heap)) s.calls i r.1 k.calls (
            Waits-Grows (reliables s.bus.heap) (reliables r.0.heap) r.1
              (λ id e. rw stepped.kept.same e) stepped.waits);
      }

  publish-SystemSteady :
      (p : Publisher) (payload : P) (now : ℕ) (s : System P)
      → SystemSteady s
      → SystemSteady (act (publishes p payload now) s)
  unfolding act
  publish-SystemSteady p payload now s h =
      let r = publish p payload now s.bus in
      let (kept, waits) = publish-Started p payload now s.bus h.queues in
      let k = with_kept s r.0 h kept in
      record {
        queues = k.queues;
        calls = AllOf-append (Waits (reliables r.0.heap)) s.calls (r.1 ∷ []) k.calls (
          Waits-Grows (reliables s.bus.heap) (reliables r.0.heap) r.1 (λ id e. rw kept.same e)
              waits,
          tt,
        );
      }

  act-SystemSteady : (a : Action P) (s : System P) → SystemSteady s → SystemSteady (act a s)
  unfolding act advertise
  act-SystemSteady (advertises topic t q) s h = with_heap s _ h refl
  act-SystemSteady (subscribes topic t q) s h = subscribed-SystemSteady topic t q s h
  act-SystemSteady (publishes p payload now) s h = publish-SystemSteady p payload now s h
  act-SystemSteady (runs now i) s h = elim (Option-cases (get_elem? s.calls i)) [
    | inl none_left ↦ rw (act, none_left) h
    | inr (call, e) ↦ rw (act, e) (run_call-SystemSteady now i call s h e)
  ]
  act-SystemSteady (fills now i) s h = elim (Option-cases (get_elem? s.joins i)) [
    | inl none_left ↦ rw (act, none_left) h
    | inr (join, e) ↦ rw (act, e) (fill-SystemSteady now i join s h)
  ]
  act-SystemSteady (delivers now id) s h = elim (Option-cases (get_elem? s.bus.heap id)) [
    | inl none_left ↦ rw (act, none_left) h
    | inr (sub, e) ↦
        rw (act, e)
          (if-elim SystemSteady sub.joinable (λ _. delivered_to-SystemSteady now id sub s h e)
            (λ _. h))
  ]
  act-SystemSteady (unlinks id) s h = elim (Option-cases (get_elem? s.bus.heap id)) [
    | inl none_left ↦ rw (act, none_left) h
    | inr (sub, e) ↦ rw (act, e) (with_heap s _ h (unlink-heap sub.topic id s.bus))
  ]
  act-SystemSteady clears_topics s h = with_heap s _ h refl
  act-SystemSteady (closes id) s h = stop_close-SystemSteady id s h
  act-SystemSteady (ends_join id) s h = elim (Option-cases (get_elem? s.bus.heap id)) [
    | inl none_left ↦ rw (act, none_left) h
    | inr (sub, e) ↦ elim (Bool-cases (sub.queue.is_closed && Queue.empty sub.queue)) [
      | inl over ↦ rw (act, e, over) (stop_joined-SystemSteady id s h)
      | inr busy ↦ rw (act, e, busy) h
    ]
  ]

  run-SystemSteady :
      (actions : List (Action P)) (s : System P) → SystemSteady s → SystemSteady (run actions s)
  unfolding run
  run-SystemSteady [] s h = h
  run-SystemSteady (a ∷ actions) s h = run-SystemSteady actions (act a s) (act-SystemSteady a s h)

  -- From a new bus, in any interleaving of the threads in advertise, subscribe, publish, unsubscribe
  -- and shutdown with the delivering threads: the queue of each subscription has the policy Block if
  -- it is Reliable and DropOldest if not, and a publisher that sleeps in a push does so for a
  -- Reliable subscription and with a deadline, never for a BestEffort one.
  pub run-start-SystemSteady : (actions : List (Action P)) → SystemSteady (run actions start)
  unfolding new
  run-start-SystemSteady actions =
      run-SystemSteady actions start (record { queues = tt; calls = tt })
