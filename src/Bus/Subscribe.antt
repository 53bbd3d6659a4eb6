-- ===== src/Bus/Subscribe.antt =====
-- Subscribing to a TopicBus and leaving it. (code/include/rdb/bus/topic_bus.h)
use Prim.Native.String.{String}
use mw_study.Prelude.{
  ℕ, true, false, Option, none, some, List, [], ◌∷◌, ◌++◌, ◌==◌, if◌then◌else◌, length, get_elem?,
  set,
}
use mw_study.Qos.{Qos, is_reliable, is_transient_local}
use mw_study.Queue.{Queue, OverflowPolicy, block, drop_oldest}
use mw_study.Queue
use mw_study.Bus.{Envelope, Subscription, TopicEntry, TopicBus}
use mw_study.Bus.Topics.{find, put, ensure_topic}

-- `SubscriberStats`
pub record SubscriberStats : Type 0 where
  pub delivered : ℕ
  pub dropped : ℕ
  pub expired : ℕ
  pub deadline_missed : ℕ
  pub qos_rejected : ℕ
  pub queue_high_water : ℕ

-- `subs.erase` of the first that is `sub`.
unfoldable pub erase : ℕ → List ℕ → List ℕ
erase id [] = []
erase id (x ∷ xs) = if x == id then xs else x ∷ erase id xs

module _ {P : Type 0} where
  -- `Subscription(topic, type, qos)`
  unfoldable pub new_subscription : String → ℕ → Qos → Subscription P
  new_subscription topic type_index qos = record {
    topic = topic;
    type_index = type_index;
    qos = qos;
    queue = Queue.new qos.depth (if is_reliable qos.reliability then block else drop_oldest);
    joinable = false;
    delivered = 0;
    expired = 0;
    deadline_missed = 0;
    qos_rejected = 0;
    last_delivery_ns = 0;
    mismatch_reported = false;
  }

  -- The part of `subscribe` under the lock: the new subscription and the backlog, or nothing where
  -- the topic has another type.
  unfoldable pub subscribe_locked :
      String → ℕ → Qos → TopicBus P → TopicBus P × Option (ℕ × List (Envelope P))
  subscribe_locked topic type_index qos bus =
      let (topics, entry) = ensure_topic topic type_index bus.topics in
      let id = length bus.heap in
      if entry.type_index == type_index
      then (
        record bus {
          topics = put topic (record entry { subs = entry.subs ++ (id ∷ []) }) topics;
          heap = bus.heap ++ (new_subscription topic type_index qos ∷ []);
        },
        some (id, if is_transient_local qos.durability then entry.latched else []),
      )
      else (record bus { topics = topics }, none)

  -- `sub->queue.try_push(std::move(env))`
  unfoldable pub push_backlog : ℕ → ℕ → Envelope P → TopicBus P → TopicBus P
  push_backlog now id envelope bus = elim (get_elem? bus.heap id) [
    | none ↦ bus
    | some sub ↦ record bus {
      heap = set bus.heap id (record sub { queue = (Queue.try_push envelope now sub.queue).0 });
    }
  ]

  unfoldable pub push_backlogs : ℕ → ℕ → List (Envelope P) → TopicBus P → TopicBus P
  push_backlogs now id [] bus = bus
  push_backlogs now id (e ∷ es) bus = push_backlogs now id es (push_backlog now id e bus)

  -- `sub->worker = std::thread(...)`
  unfoldable pub start_worker : ℕ → TopicBus P → TopicBus P
  start_worker id bus = elim (get_elem? bus.heap id) [
    | none ↦ bus
    | some sub ↦ record bus { heap = set bus.heap id (record sub { joinable = true }) }
  ]

  -- What `subscribe` does once the lock is released; the handle is the option.
  unfoldable pub subscribe_rest :
      ℕ → TopicBus P × Option (ℕ × List (Envelope P)) → TopicBus P × Option ℕ
  subscribe_rest now (bus, none) = (bus, none)
  subscribe_rest now (bus, some (id, backlog)) =
      (start_worker id (push_backlogs now id backlog bus), some id)

  -- `subscribe`, when no other thread comes between.
  unfoldable pub subscribe : ℕ → String → ℕ → Qos → TopicBus P → TopicBus P × Option ℕ
  subscribe now topic type_index qos bus =
      subscribe_rest now (subscribe_locked topic type_index qos bus)

  -- The part of `unsubscribe` under the lock, for subscription `id` of this topic.
  unfoldable pub unlink : String → ℕ → TopicBus P → TopicBus P
  unlink topic id bus = elim (find topic bus.topics) [
    | none ↦ bus
    | some entry ↦ record bus {
      topics = put topic (record entry { subs = erase id entry.subs }) bus.topics;
    }
  ]

  -- `stop_subscription` up to `join()`.
  unfoldable pub stop_close : ℕ → TopicBus P → TopicBus P
  stop_close id bus = elim (get_elem? bus.heap id) [
    | none ↦ bus
    | some sub ↦ record bus {
      heap = set bus.heap id (record sub { queue = Queue.close sub.queue });
    }
  ]

  -- `join()` has returned: the thread is no longer joinable.
  unfoldable pub stop_joined : ℕ → TopicBus P → TopicBus P
  stop_joined id bus = elim (get_elem? bus.heap id) [
    | none ↦ bus
    | some sub ↦ record bus { heap = set bus.heap id (record sub { joinable = false }) }
  ]

  -- `unsubscribe` up to `join()`; an empty handle changes nothing.
  unfoldable pub unsubscribe : Option ℕ → TopicBus P → TopicBus P
  unsubscribe none bus = bus
  unsubscribe (some id) bus = elim (get_elem? bus.heap id) [
    | none ↦ bus
    | some sub ↦ stop_close id (unlink sub.topic id bus)
  ]

  -- What `shutdown` collects, and the topics it leaves.
  unfoldable pub all_subs : List (String × TopicEntry P) → List ℕ
  all_subs [] = []
  all_subs ((name, entry) ∷ rest) = entry.subs ++ all_subs rest

  unfoldable pub clear_topics : List (String × TopicEntry P) → List (String × TopicEntry P)
  clear_topics [] = []
  clear_topics ((name, entry) ∷ rest) =
      (name, record entry { subs = []; latched = [] }) ∷ clear_topics rest

  unfoldable pub stop_all : List ℕ → TopicBus P → TopicBus P
  stop_all [] bus = bus
  stop_all (id ∷ ids) bus = stop_all ids (stop_close id bus)

  -- `shutdown`, with the joins left out.
  unfoldable pub shutdown : TopicBus P → TopicBus P
  shutdown bus = stop_all (all_subs bus.topics) (record bus { topics = clear_topics bus.topics })

  -- `SubscriptionHandle::stats`
  pub stats : Option (Subscription P) → SubscriberStats
  stats none = record {
    delivered = 0;
    dropped = 0;
    expired = 0;
    deadline_missed = 0;
    qos_rejected = 0;
    queue_high_water = 0;
  }
  stats (some sub) = record {
    delivered = sub.delivered;
    dropped = sub.queue.dropped;
    expired = sub.expired;
    deadline_missed = sub.deadline_missed;
    qos_rejected = sub.qos_rejected;
    queue_high_water = sub.queue.high_water;
  }

  pub queue_size : Option (Subscription P) → ℕ
  queue_size none = 0
  queue_size (some sub) = Queue.size sub.queue
