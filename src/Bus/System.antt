-- ===== src/Bus/System.antt =====
-- A TopicBus with the calls in flight on it, moved on one slice at a time in any order.
-- (code/include/rdb/bus/topic_bus.h)
use Prim.Native.String.{String}
use mw_study.Prelude.{
  ℕ, ◌&&◌, Option, none, some, List, [], ◌∷◌, ◌++◌, if◌then◌else◌, get_elem?, set,
}
use mw_study.Qos.{Qos}
use mw_study.Queue
use mw_study.Bus.{Envelope, Subscription, TopicBus, new}
use mw_study.Bus.Publish.{Publishing, Publisher, publish, publish_step, advertise}
use mw_study.Bus.Subscribe.{
  subscribe_locked, push_backlog, start_worker, unlink, stop_close, stop_joined, clear_topics,
}
use mw_study.Bus.Deliver.{Round, waiting, ended, expiry, delivery, deliver_round}

-- `calls` are the threads in `publish_erased`, `joins` those in `subscribe` with the backlog that is
-- left to push, `sent` what the callbacks were called with, latest first, and for which subscription.
pub record System (P : Type 0) : Type 0 where
  pub bus : TopicBus P
  pub calls : List (Publishing P)
  pub joins : List (ℕ × List (Envelope P))
  pub sent : List (ℕ × Envelope P)

-- One slice of some thread. `unsubscribe` is `unlinks` and then `closes`; `shutdown` is
-- `clears_topics` and then `closes` for each.
pub data Action (P : Type 0) : Type 0 where
  advertises : String → ℕ → Qos → Action P
  subscribes : String → ℕ → Qos → Action P
  publishes : Publisher → P → ℕ → Action P
  runs : (now i : ℕ) → Action P
  fills : (now i : ℕ) → Action P
  delivers : (now id : ℕ) → Action P
  unlinks : ℕ → Action P
  clears_topics : Action P
  closes : ℕ → Action P
  ends_join : ℕ → Action P

module _ {P : Type 0} where
  abbrev pub start : System P
  start = record { bus = new P; calls = []; joins = []; sent = [] }

  unfoldable pub subscribed : TopicBus P × Option (ℕ × List (Envelope P)) → System P → System P
  subscribed (bus, none) s = record s { bus = bus }
  subscribed (bus, some join) s = record s { bus = bus; joins = s.joins ++ (join ∷ []) }

  unfoldable pub run_call : ℕ → ℕ → Publishing P → System P → System P
  run_call now i call s =
      let (bus, next) = publish_step now s.bus call in
      record s { bus = bus; calls = set s.calls i next }

  -- The loop over the backlog, and the start of the thread after it.
  unfoldable pub fill : ℕ → ℕ → ℕ × List (Envelope P) → System P → System P
  fill now i (id, []) s = record s { bus = start_worker id s.bus }
  fill now i (id, e ∷ es) s = record s {
    bus = push_backlog now id e s.bus;
    joins = set s.joins i (id, es);
  }

  unfoldable pub sent_by : ℕ → Round P → List (ℕ × Envelope P) → List (ℕ × Envelope P)
  sent_by id waiting sent = sent
  sent_by id ended sent = sent
  sent_by id (expiry e) sent = sent
  sent_by id (delivery e) sent = (id, e) ∷ sent

  unfoldable pub delivered_to : ℕ → Subscription P × Round P → System P → System P
  delivered_to id (sub, round) s = record s {
    bus = record s.bus { heap = set s.bus.heap id sub };
    sent = sent_by id round s.sent;
  }

  unfoldable pub act : Action P → System P → System P
  act (advertises topic t qos) s = record s { bus = (advertise topic t qos s.bus).0 }
  act (subscribes topic t qos) s = subscribed (subscribe_locked topic t qos s.bus) s
  act (publishes p payload now) s =
      let r = publish p payload now s.bus in record s { bus = r.0; calls = s.calls ++ (r.1 ∷ []) }
  act (runs now i) s = elim (get_elem? s.calls i) [ none ↦ s | some call ↦ run_call now i call s ]
  act (fills now i) s = elim (get_elem? s.joins i) [ none ↦ s | some join ↦ fill now i join s ]
  act (delivers now id) s = elim (get_elem? s.bus.heap id) [
    | none ↦ s
    | some sub ↦ if sub.joinable then delivered_to id (deliver_round now sub) s else s
  ]
  act (unlinks id) s = elim (get_elem? s.bus.heap id) [
    | none ↦ s
    | some sub ↦ record s { bus = unlink sub.topic id s.bus }
  ]
  act clears_topics s = record s { bus = record s.bus { topics = clear_topics s.bus.topics } }
  act (closes id) s = record s { bus = stop_close id s.bus }
  act (ends_join id) s = elim (get_elem? s.bus.heap id) [
    | none ↦ s
    | some sub ↦
        if sub.queue.is_closed && Queue.empty sub.queue
        then record s { bus = stop_joined id s.bus }
        else s
  ]

  unfoldable pub run : List (Action P) → System P → System P
  run [] s = s
  run (a ∷ actions) s = run actions (act a s)
