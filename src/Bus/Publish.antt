-- ===== src/Bus/Publish.antt =====
-- Publishing on a TopicBus. (code/include/rdb/bus/topic_bus.h)
use Prim.Native.String.{String}
use mw_study.Prelude.{
  ℕ, ◌+◌, Bool, true, false, ◌&&◌, Option, none, some, List, [], ◌∷◌, ◌++◌, ltb, ◌==◌,
  if◌then◌else◌, length, get_elem?, set, u64,
}
use mw_study.Qos.{
  Qos, QosMismatch, compatible, reliability_mismatch, durability_mismatch, deadline_mismatch,
  check_compatible, is_reliable, is_transient_local,
}
use mw_study.Queue.{
  Queue, Deadline, never, at, Slice, returned, sleeping, PushStatus, ok, full, dropped_newest,
  dropped_oldest, closed,
}
use mw_study.Queue
use mw_study.Bus.{Envelope, Subscription, TopicEntry, TopicBus}
use mw_study.Bus.Topics.{find, put, ensure_topic}

unfoldable pub is_compatible : QosMismatch → Bool
is_compatible compatible = true
is_compatible reliability_mismatch = false
is_compatible durability_mismatch = false
is_compatible deadline_mismatch = false

-- What the loop over the subscribers changes and collects.
pub record Matching (P : Type 0) : Type 0 where
  pub heap : List (Subscription P)
  pub qos_mismatches : ℕ
  pub targets : List ℕ
  pub mismatches : List QosMismatch

-- Where a call of `publish_erased` stands once the lock is released: before the push to the first
-- of `targets`, asleep in that push, or returned.
pub data Publishing (P : Type 0) : Type 0 where
  pushing : Envelope P → List ℕ → Bool → Publishing P
  blocked : Envelope P → Deadline → ℕ → List ℕ → Bool → Publishing P
  finished : Bool → Publishing P

-- `Publisher<T>`; `attached` is `bus_ != nullptr`.
pub record Publisher : Type 0 where
  pub attached : Bool
  pub topic : String
  pub type_index : ℕ
  pub qos : Qos

-- `status == Ok || status == DroppedOldest`
unfoldable pub is_accepted : PushStatus → Bool
is_accepted ok = true
is_accepted full = false
is_accepted dropped_newest = false
is_accepted dropped_oldest = true
is_accepted closed = false

module _ {P : Type 0} where
  -- The loop's body for one subscription.
  unfoldable pub match_found : Qos → ℕ → Subscription P → Matching P → Matching P
  match_found pub_qos id sub m =
      let mismatch = check_compatible pub_qos sub.qos in
      if is_compatible mismatch then record m { targets = m.targets ++ (id ∷ []) } else record m {
        heap =
            set m.heap id
              (record sub { qos_rejected = u64 (sub.qos_rejected + 1); mismatch_reported = true });
        qos_mismatches = u64 (m.qos_mismatches + 1);
        mismatches =
            if sub.mismatch_reported then m.mismatches else m.mismatches ++ (mismatch ∷ []);
      }

  unfoldable pub match_sub : Qos → ℕ → Matching P → Matching P
  match_sub pub_qos id m = elim (get_elem? m.heap id) [
    | none ↦ m
    | some sub ↦ match_found pub_qos id sub m
  ]

  unfoldable pub match_subs : Qos → List ℕ → Matching P → Matching P
  match_subs pub_qos [] m = m
  match_subs pub_qos (id ∷ ids) m = match_subs pub_qos ids (match_sub pub_qos id m)

  -- `while (entry.latched.size() > pub_qos.depth) entry.latched.pop_front()`
  unfoldable pub trim : ℕ → List (Envelope P) → List (Envelope P)
  trim depth [] = []
  trim depth (x ∷ xs) = if ltb depth (length (x ∷ xs)) then trim depth xs else x ∷ xs

  unfoldable pub latch : Qos → Envelope P → List (Envelope P) → List (Envelope P)
  latch pub_qos envelope kept =
      if is_transient_local pub_qos.durability
      then trim pub_qos.depth (kept ++ (envelope ∷ []))
      else kept

  unfoldable pub publish_entry :
      String
      → TopicEntry P
      → Qos
      → P
      → ℕ
      → TopicBus P
      → TopicBus P × Publishing P × List QosMismatch
  publish_entry topic entry pub_qos payload now bus =
      let published = u64 (entry.published + 1) in
      let envelope : Envelope P = record { payload = payload; seq = published; publish_ns = now } in
      let m : Matching P = match_subs pub_qos entry.subs (record {
        heap = bus.heap;
        qos_mismatches = bus.qos_mismatches;
        targets = [];
        mismatches = [];
      }) in
      (
        record bus {
          topics =
              put topic
                (record entry {
                  published = published;
                  latched = latch pub_qos envelope entry.latched;
                })
                bus.topics;
          heap = m.heap;
          qos_mismatches = m.qos_mismatches;
        },
        pushing envelope m.targets true,
        if bus.has_handler then m.mismatches else [],
      )

  -- `publish_erased` up to the pushes: the part under the lock, and what the handler is called with.
  unfoldable pub publish_erased :
      String → ℕ → Qos → P → ℕ → TopicBus P → TopicBus P × Publishing P × List QosMismatch
  publish_erased topic type_index pub_qos payload now bus = elim (find topic bus.topics) [
    | none ↦ (bus, finished false, [])
    | some entry ↦
        if entry.type_index == type_index
        then publish_entry topic entry pub_qos payload now bus
        else (record bus { type_mismatches = u64 (bus.type_mismatches + 1) }, finished false, [])
  ]

  -- What follows a slice of a push to the queue of subscription `id`.
  unfoldable pub pushed :
      Envelope P
      → Deadline
      → ℕ
      → List ℕ
      → Bool
      → Subscription P
      → TopicBus P
      → Queue (Envelope P) × Option (Envelope P) × Slice PushStatus
      → TopicBus P × Publishing P
  pushed envelope deadline id rest all_accepted sub bus (queue, evicted, slice) = (
    record bus { heap = set bus.heap id (record sub { queue = queue }) },
    elim slice [
      | returned status ↦ pushing envelope rest (all_accepted && is_accepted status)
      | sleeping ↦ blocked envelope deadline id rest all_accepted
    ],
  )

  unfoldable pub push_to :
      ℕ → Envelope P → ℕ → List ℕ → Bool → Subscription P → TopicBus P → TopicBus P × Publishing P
  push_to now envelope id rest all_accepted sub bus =
      if is_reliable sub.qos.reliability
      then pushed envelope (at (now + bus.reliable_timeout)) id rest all_accepted sub bus
          (Queue.push_for envelope bus.reliable_timeout now sub.queue)
      else pushed envelope never id rest all_accepted sub bus (Queue.push envelope now sub.queue)

  -- The thread of `publish_erased` runs on: one push, or one look after a wakeup.
  unfoldable pub publish_step : ℕ → TopicBus P → Publishing P → TopicBus P × Publishing P
  publish_step now bus (pushing envelope [] all_accepted) = (bus, finished all_accepted)
  publish_step now bus (pushing envelope (id ∷ rest) all_accepted) = elim (get_elem? bus.heap id) [
    | none ↦ (bus, pushing envelope rest all_accepted)
    | some sub ↦ push_to now envelope id rest all_accepted sub bus
  ]
  publish_step now bus (blocked envelope deadline id rest all_accepted) =
      elim (get_elem? bus.heap id) [
        | none ↦ (bus, pushing envelope rest all_accepted)
        | some sub ↦
            pushed envelope deadline id rest all_accepted sub bus
              (Queue.push_waiting envelope deadline now sub.queue)
      ]
  publish_step now bus (finished accepted) = (bus, finished accepted)

  -- `advertise`
  unfoldable pub advertise : String → ℕ → Qos → TopicBus P → TopicBus P × Publisher
  advertise topic type_index qos bus = (
    record bus { topics = (ensure_topic topic type_index bus.topics).0 },
    record { attached = true; topic = topic; type_index = type_index; qos = qos },
  )

  -- `Publisher::publish`
  unfoldable pub publish :
      Publisher → P → ℕ → TopicBus P → TopicBus P × Publishing P × List QosMismatch
  publish p payload now bus =
      if p.attached
      then publish_erased p.topic p.type_index p.qos payload now bus
      else (bus, finished false, [])
