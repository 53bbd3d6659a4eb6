-- ===== src/Bus/TypedSubscribe.antt =====
-- Subscribing and leaving keep every queue to its subscription's type.
-- (code/include/rdb/bus/topic_bus.h)
use Prim.Native.String.{String}
use mw_study.Prelude.{
  ℕ, ◌≡◌, refl, ap, sym, subst, Bool, true, false, Option, some, Option-cases, Bool-cases, inl, inr,
  List, [], ◌∷◌, ◌++◌, arith, ◌==◌, if◌then◌else◌, length, get_elem?, set, get_elem?-map-some,
  get_elem?-append, get_elem?-append_last, AllOf, AllOf-imp, AllOf-append, AllOf-get,
}
use mw_study.Qos.{Qos, is_reliable, is_transient_local}
use mw_study.Queue.{block, drop_oldest}
use mw_study.Queue.Contents.{try_push-AllOf, close-AllOf, new-AllOf}
use mw_study.Bus.{Envelope, Subscription, TopicEntry, TopicBus}
use mw_study.Bus.Topics.{find, put, ensure_topic}
use mw_study.Bus.Subscribe.{
  new_subscription, subscribe_locked, push_backlog, start_worker, erase, unlink, stop_close,
  stop_joined, clear_topics,
}
use mw_study.Bus.Typed.{
  types, TypeAt, Carries, SubTyped, EntryTyped, TopicsTyped, JoinTyped, BusTyped, Moved, Grows,
  type_at, set-BusTyped, find-EntryTyped, put-TopicsTyped, ensure_topic-TopicsTyped,
  TopicsTyped-Grows,
}
use mw_study.Bus.TypedPublish.{still}

erase-AllOf : (Q : ℕ → Type 0) (id : ℕ) (ids : List ℕ) → AllOf Q ids → AllOf Q (erase id ids)
unfolding erase
erase-AllOf Q id [] h = tt
erase-AllOf Q id (x ∷ ids) h = ground (arith, erase-AllOf Q id ids h.1)

module _ {P : Type 0} (type_of : P → ℕ) where
  types-append : (xs ys : List (Subscription P)) → types (xs ++ ys) ≡ types xs ++ types ys
  types-append [] ys = refl
  types-append (x ∷ xs) ys = ap (◌∷◌ x.type_index) (types-append xs ys)

  types-Grows :
      (heap : List (Subscription P)) (sub : Subscription P)
      → Grows type_of (types heap) (types (heap ++ (sub ∷ [])))
  types-Grows heap sub id t h =
      rw (types-append heap (sub ∷ [])) (get_elem?-append (types heap) (sub.type_index ∷ []) id h)

  -- What the locked part of `subscribe` leaves.
  pub record Joined (bus : TopicBus P) (r : TopicBus P × Option (ℕ × List (Envelope P)))
      : Type 0 where
    pub typed : BusTyped type_of r.0
    pub grows : Grows type_of (types bus.heap) (types r.0.heap)
    pub join : (j : ℕ × List (Envelope P)) → r.1 ≡ some j → JoinTyped type_of (types r.0.heap) j

  backlog-typed :
      (ts : List ℕ) (id t : ℕ) (b : Bool) (kept : List (Envelope P))
      → TypeAt ts id t
      → AllOf (Carries type_of t) kept
      → JoinTyped type_of ts (id, if b then kept else [])
  backlog-typed ts id t true kept h k =
      AllOf-imp kept (λ e c. subst (λ u. TypeAt ts id u) (sym c) h) k
  backlog-typed ts id t false kept h k = tt

  locked-Joined :
      (topic : String) (t : ℕ) (q : Qos) (bus : TopicBus P) (topics : List (String × TopicEntry P))
      (entry : TopicEntry P)
      → BusTyped type_of bus
      → TopicsTyped type_of (types bus.heap) topics
      → EntryTyped type_of (types bus.heap) entry
      → entry.type_index ≡ t
      → Joined bus (
        record bus {
          topics = put topic (record entry { subs = entry.subs ++ (length bus.heap ∷ []) }) topics;
          heap = bus.heap ++ (new_subscription topic t q ∷ []);
        },
        some (length bus.heap, if is_transient_local q.durability then entry.latched else []),
      )
  unfolding new_subscription
  locked-Joined topic t q bus topics entry h k (latched, ids) same =
      let heap = bus.heap ++ (new_subscription topic t q ∷ []) in
      let grows = types-Grows bus.heap (new_subscription topic t q) in
      let here : TypeAt (types heap) (length bus.heap) t =
        get_elem?-map-some (λ (s : Subscription P). s.type_index) heap (length bus.heap)
          (get_elem?-append_last bus.heap (new_subscription topic t q)) in
      let next : TopicEntry P = record entry { subs = entry.subs ++ (length bus.heap ∷ []) } in
      let there = subst (λ u. TypeAt (types heap) (length bus.heap) u) (sym same) here in
      let ids' =
        AllOf-append (λ id. TypeAt (types heap) id entry.type_index) entry.subs
          (length bus.heap ∷ []) (AllOf-imp entry.subs (λ id. grows id entry.type_index) ids)
          (there, tt) in
      let no_items =
        new-AllOf (Carries type_of t) q.depth
          (if is_reliable q.reliability then block else drop_oldest) in
      let typed_join =
        backlog-typed (types heap) (length bus.heap) entry.type_index
          (is_transient_local q.durability) entry.latched there latched in
      record {
        typed = record {
          subs =
              AllOf-append (SubTyped type_of) bus.heap (new_subscription topic t q ∷ []) h.subs
                (no_items, tt);
          topics =
              put-TopicsTyped type_of (types heap) topic next topics
                (TopicsTyped-Grows type_of (types bus.heap) (types heap) topics grows k)
                (latched, ids');
        };
        grows = grows;
        join = λ j e.
            let p : (length bus.heap, if is_transient_local q.durability then entry.latched else [])
                ≡ j =
              cc in
            subst (JoinTyped type_of (types heap)) p typed_join;
      }

  pub subscribe_locked-Joined :
      (topic : String) (t : ℕ) (q : Qos) (bus : TopicBus P)
      → BusTyped type_of bus
      → Joined bus (subscribe_locked topic t q bus)
  unfolding subscribe_locked
  subscribe_locked-Joined topic t q bus h =
      let r = ensure_topic topic t bus.topics in
      let (ts, e) = ensure_topic-TopicsTyped type_of (types bus.heap) topic t bus.topics h.topics in
      elim (Bool-cases (r.1.type_index == t)) [
        | inl same ↦
            let p : r.1.type_index ≡ t = ground arith in
            rw (subscribe_locked, same) (locked-Joined topic t q bus r.0 r.1 h ts e p)
        | inr other ↦
            rw (subscribe_locked, other)
              (record {
                typed = record { subs = h.subs; topics = ts };
                grows = λ id u k. k;
                join = λ j k. absurd (cc);
              })
      ]

  -- A subscription found by its position and written back with its type.
  written :
      (bus : TopicBus P) (id : ℕ) {old : Subscription P} (sub : Subscription P)
      → BusTyped type_of bus
      → get_elem? bus.heap id ≡ some old
      → sub.type_index ≡ old.type_index
      → SubTyped type_of sub
      → Moved type_of bus (record bus { heap = set bus.heap id sub })
  written bus id sub h here same k =
      let (typed, kept) = set-BusTyped type_of id sub h here same k in
      record { typed = typed; same = kept }

  pub push_backlog-Moved :
      (now id : ℕ) (e : Envelope P) (bus : TopicBus P)
      → BusTyped type_of bus
      → TypeAt (types bus.heap) id (type_of e.payload)
      → Moved type_of bus (push_backlog now id e bus)
  unfolding push_backlog
  push_backlog-Moved now id e bus h k = elim (Option-cases (get_elem? bus.heap id)) [
    | inl gone ↦ rw (push_backlog, gone) (still type_of bus h)
    | inr (sub, here) ↦
        let items = AllOf-get (SubTyped type_of) bus.heap id h.subs here in
        rw (push_backlog, here)
          (written bus id _ h here refl (
            try_push-AllOf (Carries type_of sub.type_index) e now sub.queue
              (type_at type_of bus id here k) items))
  ]

  pub start_worker-Moved :
      (id : ℕ) (bus : TopicBus P) → BusTyped type_of bus → Moved type_of bus (start_worker id bus)
  unfolding start_worker
  start_worker-Moved id bus h = elim (Option-cases (get_elem? bus.heap id)) [
    | inl gone ↦ rw (start_worker, gone) (still type_of bus h)
    | inr (sub, here) ↦
        rw (start_worker, here)
          (written bus id _ h here refl (AllOf-get (SubTyped type_of) bus.heap id h.subs here))
  ]

  pub stop_joined-Moved :
      (id : ℕ) (bus : TopicBus P) → BusTyped type_of bus → Moved type_of bus (stop_joined id bus)
  unfolding stop_joined
  stop_joined-Moved id bus h = elim (Option-cases (get_elem? bus.heap id)) [
    | inl gone ↦ rw (stop_joined, gone) (still type_of bus h)
    | inr (sub, here) ↦
        rw (stop_joined, here)
          (written bus id _ h here refl (AllOf-get (SubTyped type_of) bus.heap id h.subs here))
  ]

  pub stop_close-Moved :
      (id : ℕ) (bus : TopicBus P) → BusTyped type_of bus → Moved type_of bus (stop_close id bus)
  unfolding stop_close
  stop_close-Moved id bus h = elim (Option-cases (get_elem? bus.heap id)) [
    | inl gone ↦ rw (stop_close, gone) (still type_of bus h)
    | inr (sub, here) ↦
        rw (stop_close, here)
          (written bus id _ h here refl (
            close-AllOf (Carries type_of sub.type_index) sub.queue
              (AllOf-get (SubTyped type_of) bus.heap id h.subs here)))
  ]

  pub unlink-Moved :
      (topic : String) (id : ℕ) (bus : TopicBus P)
      → BusTyped type_of bus
      → Moved type_of bus (unlink topic id bus)
  unfolding unlink
  unlink-Moved topic id bus h = elim (Option-cases (find topic bus.topics)) [
    | inl gone ↦ rw (unlink, gone) (still type_of bus h)
    | inr (entry, here) ↦
        let (latched, ids) =
          find-EntryTyped type_of (types bus.heap) topic bus.topics h.topics here in
        let next : TopicEntry P = record entry { subs = erase id entry.subs } in
        rw (unlink, here)
          (record {
            typed = record {
              subs = h.subs;
              topics = put-TopicsTyped type_of (types bus.heap) topic next bus.topics h.topics (
                latched,
                erase-AllOf (λ i. TypeAt (types bus.heap) i entry.type_index) id entry.subs ids,
              );
            };
            same = refl;
          })
  ]

  pub clear_topics-TopicsTyped :
      (ts : List ℕ) (topics : List (String × TopicEntry P))
      → TopicsTyped type_of ts (clear_topics topics)
  unfolding clear_topics
  clear_topics-TopicsTyped ts [] = tt
  clear_topics-TopicsTyped ts ((name, entry) ∷ rest) = ((tt, tt), clear_topics-TopicsTyped ts rest)
