-- ===== src/Bus/TypeSafety.antt =====
-- In any interleaving, a callback gets only payloads of the type it was subscribed with.
-- (code/include/rdb/bus/topic_bus.h)
use mw_study.Prelude.{
  ℕ, ◌≡◌, refl, sym, subst, ◌&&◌, Option, none, some, Option-cases, Bool-cases, inl, inr, List, [],
  ◌∷◌, if-elim, get_elem?, set, get_elem?-map-some, AllOf, AllOf-imp, AllOf-append, AllOf-set,
  AllOf-get,
}
use mw_study.Queue
use mw_study.Queue.{Queue, Slice, returned, sleeping}
use mw_study.Bus.{Envelope, Subscription, TopicBus, new}
use mw_study.Bus.Publish.{Publishing, publish, publish_step, advertise}
use mw_study.Bus.Subscribe.{
  subscribe_locked, push_backlog, start_worker, unlink, stop_close, stop_joined,
}
use mw_study.Bus.Deliver.{Round, waiting, ended, expiry, delivery, deliver_round}
use mw_study.Bus.System.{
  System, Action, advertises, subscribes, publishes, runs, fills, delivers, unlinks, clears_topics,
  closes, ends_join, start, subscribed, run_call, fill, sent_by, delivered_to, act, run,
}
use mw_study.Bus.Typed.{
  types, TypeAt, SubTyped, CallTyped, JoinTyped, SentTyped, BusTyped, Moved, Grows, CallTyped-Grows,
  JoinTyped-Grows, set-BusTyped, ensure_topic-TopicsTyped,
}
use mw_study.Bus.TypedPublish.{publish-Moved, publish_step-Moved}
use mw_study.Bus.TypedSubscribe.{
  Joined, subscribe_locked-Joined, push_backlog-Moved, start_worker-Moved, stop_joined-Moved,
  stop_close-Moved, unlink-Moved, clear_topics-TopicsTyped,
}
use mw_study.Bus.TypedDeliver.{Sends, RoundTyped, deliver_round-RoundTyped}

module _ {P : Type 0} (type_of : P → ℕ) where
  pub record SystemTyped (s : System P) : Type 0 where
    pub bus : BusTyped type_of s.bus
    pub calls : AllOf (CallTyped type_of (types s.bus.heap)) s.calls
    pub joins : AllOf (JoinTyped type_of (types s.bus.heap)) s.joins
    pub sent : AllOf (SentTyped type_of (types s.bus.heap)) s.sent

  -- `Publisher<T>` publishes only a `T`.
  abbrev pub ActionTyped : Action P → Type 0
  ActionTyped (publishes p payload now) = type_of payload ≡ p.type_index
  ActionTyped _ = Unit

  same-Grows : {ts ts' : List ℕ} → ts' ≡ ts → Grows type_of ts ts'
  same-Grows p id t h = rw p h

  -- The rest of the system, when the bus has moved on.
  with_bus :
      (s : System P) (bus : TopicBus P)
      → SystemTyped s
      → BusTyped type_of bus
      → Grows type_of (types s.bus.heap) (types bus.heap)
      → SystemTyped (record s { bus = bus })
  with_bus s bus h typed g = record {
    bus = typed;
    calls =
        AllOf-imp s.calls (λ c. CallTyped-Grows type_of (types s.bus.heap) (types bus.heap) c g)
          h.calls;
    joins =
        AllOf-imp s.joins (λ j. JoinTyped-Grows type_of (types s.bus.heap) (types bus.heap) j g)
          h.joins;
    sent = AllOf-imp s.sent (λ x. g x.0 (type_of x.1.payload)) h.sent;
  }

  with_bus-Moved :
      (s : System P) (bus : TopicBus P)
      → SystemTyped s
      → Moved type_of s.bus bus
      → SystemTyped (record s { bus = bus })
  with_bus-Moved s bus h m = with_bus s bus h m.typed (same-Grows m.same)

  subscribed-SystemTyped :
      (s : System P) (r : TopicBus P × Option (ℕ × List (Envelope P)))
      → SystemTyped s
      → Joined type_of s.bus r
      → SystemTyped (subscribed r s)
  unfolding subscribed
  subscribed-SystemTyped s (bus, none) h j = with_bus s bus h j.typed j.grows
  subscribed-SystemTyped s (bus, some join) h j =
      let k = with_bus s bus h j.typed j.grows in
      record {
        bus = k.bus;
        calls = k.calls;
        sent = k.sent;
        joins =
            AllOf-append (JoinTyped type_of (types bus.heap)) s.joins (join ∷ []) k.joins
              (j.join join refl, tt);
      }

  run_call-SystemTyped :
      (now i : ℕ) (call : Publishing P) (s : System P)
      → SystemTyped s
      → get_elem? s.calls i ≡ some call
      → SystemTyped (run_call now i call s)
  unfolding run_call
  run_call-SystemTyped now i call s h e =
      let c = AllOf-get (CallTyped type_of (types s.bus.heap)) s.calls i h.calls e in
      let r = publish_step now s.bus call in
      let (m, next) = publish_step-Moved type_of now s.bus call h.bus c in
      let k = with_bus-Moved s r.0 h m in
      record {
        bus = k.bus;
        joins = k.joins;
        sent = k.sent;
        calls = AllOf-set (CallTyped type_of (types r.0.heap)) s.calls i r.1 k.calls (
            CallTyped-Grows type_of (types s.bus.heap) (types r.0.heap) r.1 (same-Grows m.same)
              next);
      }

  fill-SystemTyped :
      (now i : ℕ) (join : ℕ × List (Envelope P)) (s : System P)
      → SystemTyped s
      → get_elem? s.joins i ≡ some join
      → SystemTyped (fill now i join s)
  unfolding fill
  fill-SystemTyped now i (id, []) s h e =
      with_bus-Moved s (start_worker id s.bus) h (start_worker-Moved type_of id s.bus h.bus)
  fill-SystemTyped now i (id, x ∷ xs) s h e =
      let c = AllOf-get (JoinTyped type_of (types s.bus.heap)) s.joins i h.joins e in
      let m = push_backlog-Moved type_of now id x s.bus h.bus c.0 in
      let k = with_bus-Moved s (push_backlog now id x s.bus) h m in
      let ts = types (push_backlog now id x s.bus).heap in
      record {
        bus = k.bus;
        calls = k.calls;
        sent = k.sent;
        joins =
            AllOf-set (JoinTyped type_of ts) s.joins i (id, xs) k.joins
              (JoinTyped-Grows type_of (types s.bus.heap) ts (id, xs) (same-Grows m.same) c.1);
      }

  sent_by-SentTyped :
      (ts : List ℕ) (id : ℕ) (sub : Subscription P) (round : Round P) (sent : List (ℕ × Envelope P))
      → TypeAt ts id sub.type_index
      → AllOf (SentTyped type_of ts) sent
      → Sends type_of sub round
      → AllOf (SentTyped type_of ts) (sent_by id round sent)
  unfolding sent_by
  sent_by-SentTyped ts id sub waiting sent h k r = k
  sent_by-SentTyped ts id sub ended sent h k r = k
  sent_by-SentTyped ts id sub (expiry e) sent h k r = k
  sent_by-SentTyped ts id sub (delivery e) sent h k out =
      (subst (λ u. TypeAt ts id u) (sym out) h, k)

  delivered_to-SystemTyped :
      (id : ℕ) (old : Subscription P) (r : Subscription P × Round P) (s : System P)
      → SystemTyped s
      → get_elem? s.bus.heap id ≡ some old
      → RoundTyped type_of old r
      → SystemTyped (delivered_to id r s)
  unfolding delivered_to
  delivered_to-SystemTyped id old (sub, round) s h e (same, typed, out) =
      let (t, p) = set-BusTyped type_of id sub h.bus e same typed in
      let bus : TopicBus P = record s.bus { heap = set s.bus.heap id sub } in
      let k = with_bus-Moved s bus h (record { typed = t; same = p }) in
      let here : TypeAt (types bus.heap) id old.type_index =
        rw p (get_elem?-map-some (λ (x : Subscription P). x.type_index) s.bus.heap id e) in
      record {
        bus = k.bus;
        calls = k.calls;
        joins = k.joins;
        sent = sent_by-SentTyped (types bus.heap) id old round s.sent here k.sent out;
      }

  act-SystemTyped :
      (a : Action P) (s : System P) → ActionTyped a → SystemTyped s → SystemTyped (act a s)
  unfolding act advertise
  act-SystemTyped (advertises topic t q) s a h =
      let typed =
        ensure_topic-TopicsTyped type_of (types s.bus.heap) topic t s.bus.topics h.bus.topics in
      with_bus s _ h (record { subs = h.bus.subs; topics = typed.0 }) (λ id u k. k)
  act-SystemTyped (subscribes topic t q) s a h =
      subscribed-SystemTyped s (subscribe_locked topic t q s.bus) h
        (subscribe_locked-Joined type_of topic t q s.bus h.bus)
  act-SystemTyped (publishes p payload now) s a h =
      let r = publish p payload now s.bus in
      let (m, call) = publish-Moved type_of p payload now s.bus h.bus a in
      let k = with_bus-Moved s r.0 h m in
      record {
        bus = k.bus;
        calls = AllOf-append (CallTyped type_of (types r.0.heap)) s.calls (r.1 ∷ []) k.calls (
          CallTyped-Grows type_of (types s.bus.heap) (types r.0.heap) r.1 (same-Grows m.same) call,
          tt,
        );
        joins = k.joins;
        sent = k.sent;
      }
  act-SystemTyped (runs now i) s a h = elim (Option-cases (get_elem? s.calls i)) [
    | inl none_left ↦ rw (act, none_left) h
    | inr (call, e) ↦ rw (act, e) (run_call-SystemTyped now i call s h e)
  ]
  act-SystemTyped (fills now i) s a h = elim (Option-cases (get_elem? s.joins i)) [
    | inl none_left ↦ rw (act, none_left) h
    | inr (join, e) ↦ rw (act, e) (fill-SystemTyped now i join s h e)
  ]
  act-SystemTyped (delivers now id) s a h = elim (Option-cases (get_elem? s.bus.heap id)) [
    | inl none_left ↦ rw (act, none_left) h
    | inr (sub, e) ↦
        let typed = AllOf-get (SubTyped type_of) s.bus.heap id h.bus.subs e in
        let round = deliver_round-RoundTyped type_of now sub typed in
        rw (act, e)
          (if-elim (λ r. SystemTyped r) sub.joinable
            (λ _. delivered_to-SystemTyped id sub (deliver_round now sub) s h e round) (λ _. h))
  ]
  act-SystemTyped (unlinks id) s a h = elim (Option-cases (get_elem? s.bus.heap id)) [
    | inl none_left ↦ rw (act, none_left) h
    | inr (sub, e) ↦
        rw (act, e)
          (with_bus-Moved s (unlink sub.topic id s.bus) h
            (unlink-Moved type_of sub.topic id s.bus h.bus))
  ]
  act-SystemTyped clears_topics s a h =
      with_bus s _ h
        (record {
          subs = h.bus.subs;
          topics = clear_topics-TopicsTyped type_of (types s.bus.heap) s.bus.topics;
        })
        (λ id u k. k)
  act-SystemTyped (closes id) s a h =
      with_bus-Moved s (stop_close id s.bus) h (stop_close-Moved type_of id s.bus h.bus)
  act-SystemTyped (ends_join id) s a h = elim (Option-cases (get_elem? s.bus.heap id)) [
    | inl none_left ↦ rw (act, none_left) h
    | inr (sub, e) ↦ elim (Bool-cases (sub.queue.is_closed && Queue.empty sub.queue)) [
      | inl over ↦
          rw (act, e, over)
            (with_bus-Moved s (stop_joined id s.bus) h (stop_joined-Moved type_of id s.bus h.bus))
      | inr busy ↦ rw (act, e, busy) h
    ]
  ]

  run-SystemTyped :
      (actions : List (Action P)) (s : System P)
      → AllOf ActionTyped actions
      → SystemTyped s
      → SystemTyped (run actions s)
  unfolding run
  run-SystemTyped [] s a h = h
  run-SystemTyped (x ∷ actions) s a h =
      run-SystemTyped actions (act x s) a.1 (act-SystemTyped x s a.0 h)

  start-SystemTyped : SystemTyped start
  unfolding new
  start-SystemTyped = record {
    bus = record { subs = tt; topics = tt };
    calls = tt;
    joins = tt;
    sent = tt;
  }

  -- From a new bus, by any interleaving of the threads in advertise, subscribe, publish, unsubscribe
  -- and shutdown with the delivering threads, where each payload published has its publisher's
  -- type: every call of a callback was for a subscription whose type is that of the payload, and so
  -- it will be for every envelope that is in a queue, kept by a topic or on its way.
  pub run-start-SystemTyped :
      (actions : List (Action P)) → AllOf ActionTyped actions → SystemTyped (run actions start)
  run-start-SystemTyped actions a = run-SystemTyped actions start a start-SystemTyped
