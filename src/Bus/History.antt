-- ===== src/Bus/History.antt =====
-- What a late subscriber finds in its queue. (code/include/rdb/bus/topic_bus.h)
use Prim.Native.String.{String}
use mw_study.Prelude.{
  ℕ, zero, suc, ◌-◌, ◌≤◌, ◌≡◌, refl, ap, sym, ◌∙◌, true, false, some, List, [], ◌∷◌, ◌++◌,
  append-nil, arith, ◌==◌, if◌then◌else◌, length, take, take-nil, get_elem?, set,
  get_elem?-append_last,
}
use native.Mathlib.Nat.{sub-zero}
use mw_study.Qos.{Qos, reliable, transient_local, is_reliable}
use mw_study.Queue
use mw_study.Queue.{Queue, block, drop_oldest}
use mw_study.Queue.Fill.{Filled, length-Filled, try_push-Filled, Filled-trans, new-Filled}
use mw_study.Bus.{Envelope, Subscription, TopicEntry, TopicBus}
use mw_study.Bus.Topics.{find, put, ensure_topic}
use mw_study.Bus.Subscribe.{
  new_subscription, subscribe_locked, push_backlog, push_backlogs, start_worker, subscribe_rest,
  subscribe,
}

module _ {P : Type 0} where
  get_elem?-set_there :
      (xs : List (Subscription P)) (i : ℕ) {old : Subscription P} (y : Subscription P)
      → get_elem? xs i ≡ some old
      → get_elem? (set xs i y) i ≡ some y
  get_elem?-set_there [] i y e = absurd (cc)
  get_elem?-set_there (x ∷ xs) zero y e = refl
  get_elem?-set_there (x ∷ xs) (suc i) y e = get_elem?-set_there xs i y e

  -- A subscription whose queue took in this way what was pushed.
  pub record Got (old : Subscription P) (id : ℕ) (es : List (Envelope P)) (bus : TopicBus P)
      : Type 0 where
    pub sub : Subscription P
    pub found : get_elem? bus.heap id ≡ some sub
    pub filled : Filled old.queue es sub.queue

  push_backlogs-Got :
      (now id : ℕ) (es : List (Envelope P)) (bus : TopicBus P) (sub : Subscription P)
      → get_elem? bus.heap id ≡ some sub
      → sub.queue.is_closed ≡ false
      → sub.queue.policy ≡ block
      → length sub.queue.items ≤ sub.queue.capacity
      → Got sub id es (push_backlogs now id es bus)
  unfolding push_backlogs push_backlog
  push_backlogs-Got now id [] bus sub e h p fits = record {
    sub = sub;
    found = e;
    filled = record {
      items_left =
          sym (append-nil sub.queue.items)
          ∙ ap (λ t. sub.queue.items ++ t)
              (sym (take-nil (Envelope P) (sub.queue.capacity - length sub.queue.items)));
      same_capacity = refl;
      same_closed = refl;
      same_policy = refl;
    };
  }
  push_backlogs-Got now id (x ∷ xs) bus sub e h p fits =
      let one = try_push-Filled x now sub.queue h p in
      let next : Subscription P = record sub { queue = (Queue.try_push x now sub.queue).0 } in
      let bus' : TopicBus P = record bus { heap = set bus.heap id next } in
      let fits' : length next.queue.items ≤ next.queue.capacity = (length-Filled fits one).0 in
      let rest =
        push_backlogs-Got now id xs bus' next (get_elem?-set_there bus.heap id next e)
          (one.same_closed ∙ h) (one.same_policy ∙ p) fits' in
      rw (push_backlogs, push_backlog, e)
        (record { sub = rest.sub; found = rest.found; filled = Filled-trans fits one rest.filled })

  new_subscription-queue :
      (topic : String) (t : ℕ) (q : Qos)
      → q.reliability ≡ reliable
      → (new_subscription {P = P} topic t q).queue ≡ Queue.new q.depth block
  unfolding new_subscription
  new_subscription-queue topic t q r =
      ap (λ x. Queue.new q.depth (if is_reliable x then block else drop_oldest)) r

  -- The bus with the new subscription.
  abbrev joined_bus : String → Qos → TopicBus P → TopicEntry P → TopicBus P
  joined_bus topic q bus entry = record bus {
    topics = put topic (record entry { subs = entry.subs ++ (length bus.heap ∷ []) }) bus.topics;
    heap = bus.heap ++ (new_subscription topic entry.type_index q ∷ []);
  }

  subscribe_locked-found :
      (topic : String) (q : Qos) (bus : TopicBus P) (entry : TopicEntry P)
      → find topic bus.topics ≡ some entry
      → q.durability ≡ transient_local
      → subscribe_locked topic entry.type_index q bus
        ≡ (joined_bus topic q bus entry, some (length bus.heap, entry.latched))
  unfolding subscribe_locked ensure_topic
  subscribe_locked-found topic q bus entry e d =
      let same : (entry.type_index == entry.type_index) ≡ true = ground arith in
      rw (subscribe_locked, ensure_topic, e, same, d) refl

  subscribe-found :
      (now : ℕ) (topic : String) (q : Qos) (bus : TopicBus P) (entry : TopicEntry P)
      → find topic bus.topics ≡ some entry
      → q.durability ≡ transient_local
      → subscribe now topic entry.type_index q bus ≡ (
        start_worker
            (length bus.heap)
            (push_backlogs now (length bus.heap) entry.latched (joined_bus topic q bus entry)),
        some (length bus.heap),
      )
  unfolding subscribe subscribe_rest
  subscribe-found now topic q bus entry e d =
      ap (subscribe_rest now) (subscribe_locked-found topic q bus entry e d)

  start_worker-found :
      (id : ℕ) (bus : TopicBus P) {sub : Subscription P}
      → get_elem? bus.heap id ≡ some sub
      → get_elem? (start_worker id bus).heap id ≡ some (record sub { joinable = true })
  unfolding start_worker
  start_worker-found id bus e = rw (start_worker, e) (get_elem?-set_there bus.heap id _ e)

  -- A subscriber with Reliable and TransientLocal on a topic of its type, when no other thread
  -- comes between: its queue holds the oldest that the topic has kept, as many as fit in the
  -- queue (the depth, at least one), and not the rest.
  pub subscribe-history :
      (now : ℕ) (topic : String) (q : Qos) (bus : TopicBus P) (entry : TopicEntry P)
      → find topic bus.topics ≡ some entry
      → q.reliability ≡ reliable
      → q.durability ≡ transient_local
      → (sub : Subscription P) × (get_elem?
            (subscribe now topic entry.type_index q bus).0.heap
            (length bus.heap)
          ≡ some sub)
        × (sub.queue.items ≡ take (if q.depth == 0 then 1 else q.depth) entry.latched)
  subscribe-history now topic q bus entry e r d =
      let bus' = joined_bus topic q bus entry in
      let (items, capacity, shut, policy) = new-Filled {A = Envelope P} q.depth in
      let sub : Subscription P = new_subscription topic entry.type_index q in
      let queue = new_subscription-queue topic entry.type_index q r in
      let got =
        push_backlogs-Got now (length bus.heap) entry.latched bus' sub
          (get_elem?-append_last bus.heap sub) (ap (λ x. x.is_closed) queue ∙ shut)
          (ap (λ x. x.policy) queue ∙ policy) (rw (queue, items) (omega arith)) in
      (
        record got.sub { joinable = true },
        rw (subscribe-found now topic q bus entry e d) (
            start_worker-found (length bus.heap)
              (push_backlogs now (length bus.heap) entry.latched bus') got.found),
        got.filled.items_left
            ∙ ap (λ x. x.items ++ take (x.capacity - length x.items) entry.latched) queue
            ∙ rw (items, capacity, sub-zero) refl,
      )
