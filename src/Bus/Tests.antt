-- ===== src/Bus/Tests.antt =====
-- The bus at concrete values. (code/include/rdb/bus/topic_bus.h)
use mw_study.Prelude.{
  ℕ, ◌≡◌, refl, true, false, some, List, [], ◌∷◌, arith, take, get_elem?, if◌then◌else◌, ◌==◌,
}
use mw_study.Prelude.Int.{pos}
use mw_study.Qos.{Qos, best_effort, transient_local, default_qos}
use mw_study.Queue.{Queue, block}
use mw_study.Bus.{Envelope, Subscription, TopicEntry, TopicBus}
use mw_study.Bus.Topics.{find}
use mw_study.Bus.Publish.{Publisher, publish_erased}
use mw_study.Bus.Deliver.{deliver_loop, is_expired}
use mw_study.Bus.System.{
  Action, advertises, subscribes, publishes, runs, fills, delivers, closes, start, run,
}
use mw_study.Bus.Latched.{Published, publish_erased-Published}
use mw_study.Bus.TypeSafety.{SystemTyped, run-start-SystemTyped}
use mw_study.Bus.Subscribe.{subscribe}
use mw_study.Bus.History.{subscribe-history}
use mw_study.Bus.Drain.{Drained, deliver_loop-Drained, fresh}

-- A payload is its type and a number.
abbrev Payload : Type 0
Payload = ℕ × ℕ

abbrev type_of : Payload → ℕ
type_of p = p.0

abbrev first : Envelope Payload
first = record { payload = (3, 10); seq = 1; publish_ns = 100 }

abbrev second : Envelope Payload
second = record { payload = (3, 20); seq = 2; publish_ns = 900 }

-- Messages live for 500 ns; the queue is closed and holds two.
abbrev short_lived : Qos
short_lived = record default_qos { lifespan = pos 500 }

abbrev queue_of : List (Envelope Payload) → Queue (Envelope Payload)
queue_of items = record {
  items = items;
  capacity = 10;
  policy = block;
  is_closed = true;
  dropped = 0;
  high_water = 2;
}

abbrev sub_of : Qos → Subscription Payload
sub_of qos = record {
  topic = "scan";
  type_index = 3;
  qos = qos;
  queue = queue_of (first ∷ second ∷ []);
  joinable = true;
  delivered = 0;
  expired = 0;
  deadline_missed = 0;
  qos_rejected = 0;
  last_delivery_ns = 0;
  mismatch_reported = false;
}

abbrev clock : ℕ → ℕ
clock n = 1000

deliver_loop-Drained_example :
    Drained clock
      (sub_of short_lived)
      (first ∷ second ∷ [])
      (deliver_loop 3 clock (sub_of short_lived))
deliver_loop-Drained_example = deliver_loop-Drained 3 clock (sub_of short_lived) refl (omega arith)

-- The first has expired by then.
fresh-second : fresh short_lived clock (first ∷ second ∷ []) ≡ second ∷ []
unfolding is_expired
fresh-second = refl

abbrev sensor : Qos
sensor = record default_qos { reliability = best_effort }

abbrev entry : TopicEntry Payload
entry = record { type_index = 3; subs = 0 ∷ 1 ∷ []; latched = first ∷ []; published = 1 }

abbrev bus : TopicBus Payload
bus = record {
  topics = ("scan", entry) ∷ [];
  heap = sub_of default_qos ∷ sub_of sensor ∷ [];
  has_handler = false;
  qos_mismatches = 0;
  type_mismatches = 0;
  reliable_timeout = 100;
}

find_scan : find "scan" bus.topics ≡ some entry
unfolding find
find_scan = refl

publish_erased-Published_example :
    Published "scan" entry sensor
      (3, 20)
      900
      bus
      (publish_erased "scan" entry.type_index sensor (3, 20) 900 bus)
publish_erased-Published_example =
    publish_erased-Published "scan" entry sensor (3, 20) 900 bus find_scan

abbrev scan_publisher : Publisher
scan_publisher = record { attached = true; topic = "scan"; type_index = 3; qos = default_qos }

-- A subscription, a publication and its delivery, and a subscription of another type.
abbrev actions : List (Action Payload)
actions =
    advertises "scan" 3 default_qos
    ∷ subscribes "scan" 3 default_qos
    ∷ fills 0 0
    ∷ publishes scan_publisher (3, 20) 900
    ∷ runs 900 0
    ∷ delivers 1000 0
    ∷ subscribes "scan" 4 default_qos
    ∷ closes 0
    ∷ []

run-start-SystemTyped_example : SystemTyped type_of (run actions start)
run-start-SystemTyped_example =
    run-start-SystemTyped type_of actions (tt, (tt, (tt, (refl, (tt, (tt, (tt, (tt, tt))))))))

-- A Reliable subscriber of depth 1 to a topic that has kept two.
abbrev late : Qos
late = record default_qos { durability = transient_local; depth = 1 }

abbrev kept_two : TopicEntry Payload
kept_two = record entry { latched = first ∷ second ∷ [] }

abbrev late_bus : TopicBus Payload
late_bus = record bus { topics = ("scan", kept_two) ∷ [] }

find_late : find "scan" late_bus.topics ≡ some kept_two
unfolding find
find_late = refl

-- It gets the older one.
late_history : take (if late.depth == 0 then 1 else late.depth) kept_two.latched ≡ first ∷ []
late_history = refl

subscribe-history_example :
    (sub : Subscription Payload) × (get_elem? (subscribe 0 "scan" 3 late late_bus).0.heap 2
      ≡ some sub)
    × (sub.queue.items ≡ take (if late.depth == 0 then 1 else late.depth) kept_two.latched)
subscribe-history_example = subscribe-history 0 "scan" late late_bus kept_two find_late refl refl
