-- ===== src/Bus/SteadySystem.antt =====
-- The policies of the queues and the waiting publishers, from one slice to the next. (code/include/rdb/bus/topic_bus.h)
use Prim.Native.String.{String}
use mw_study.Prelude.{
  ℕ, ◌≡◌, refl, ap, Bool, true, false, Option, some, Option-cases, inl, inr, List, [], ◌∷◌, ◌++◌,
  ◌==◌, if-elim, length, get_elem?, get_elem?-append, set, AllOf, AllOf-append, AllOf-imp,
}
use mw_study.Qos.{Qos, is_reliable}
use mw_study.Queue
use mw_study.Queue.{
  Queue, block, drop_oldest, Deadline, never, immediate, at, Slice, returned, sleeping, PushStatus,
}
use mw_study.Queue.Policy.{new-policy, close-policy, try_push-policy}
use mw_study.Bus.{Envelope, Subscription, TopicBus}
use mw_study.Bus.Topics.{find, put, ensure_topic}
use mw_study.Bus.Publish.{Publishing, pushing, blocked, finished}
use mw_study.Bus.Subscribe.{
  subscribe_locked, new_subscription, push_backlog, start_worker, unlink, stop_close, stop_joined,
}
use mw_study.Bus.System.{System, subscribed}
use mw_study.Bus.Steady.{policy_of, reliables, Sound, Kept, set-Kept, same-Kept}
use mw_study.Bus.Waiting.{Waits}

new_subscription-Sound :
    (P : Type 0) (topic : String) (t : ℕ) (q : Qos) → Sound (new_subscription {P = P} topic t q)
unfolding new_subscription
new_subscription-Sound P topic t q = new-policy (Envelope P) q.depth (policy_of q)

module _ {P : Type 0} where
  -- Every queue has the policy of its QoS, and a publisher sleeps only for a Reliable subscription
  -- and with a deadline.
  pub record SystemSteady (s : System P) : Type 0 where
    pub queues : AllOf Sound s.bus.heap
    pub calls : AllOf (Waits (reliables s.bus.heap)) s.calls

  pub Waits-Grows :
      (rs rs' : List Bool) (call : Publishing P)
      → ((id : ℕ) → get_elem? rs id ≡ some true → get_elem? rs' id ≡ some true)
      → Waits rs call
      → Waits rs' call
  Waits-Grows rs rs' (pushing e ids accepted) g w = tt
  Waits-Grows rs rs' (blocked e d id ids accepted) g (here, timed) = (g id here, timed)
  Waits-Grows rs rs' (finished accepted) g w = tt

  pub with_kept :
      (s : System P) (bus : TopicBus P)
      → SystemSteady s
      → Kept s.bus.heap bus.heap
      → SystemSteady (record s { bus = bus })
  with_kept s bus h k = record {
    queues = k.sound;
    calls =
        AllOf-imp s.calls
          (λ c. Waits-Grows (reliables s.bus.heap) (reliables bus.heap) c (λ id e. rw k.same e))
          h.calls;
  }

  -- A bus whose subscriptions are as they were.
  pub with_heap :
      (s : System P) (bus : TopicBus P)
      → SystemSteady s
      → bus.heap ≡ s.bus.heap
      → SystemSteady (record s { bus = bus })
  with_heap s bus h e = with_kept s bus h (rw e (same-Kept s.bus.heap h.queues))

  reliables-append :
      (xs ys : List (Subscription P)) → reliables (xs ++ ys) ≡ reliables xs ++ reliables ys
  reliables-append [] ys = refl
  reliables-append (x ∷ xs) ys = ap (◌∷◌ (is_reliable x.qos.reliability)) (reliables-append xs ys)

  -- One more subscription.
  with_new :
      (s : System P) (bus : TopicBus P) (sub : Subscription P)
      → SystemSteady s
      → Sound sub
      → bus.heap ≡ s.bus.heap ++ (sub ∷ [])
      → SystemSteady (record s { bus = bus })
  with_new s bus sub h k e = record {
    queues = rw e (AllOf-append Sound s.bus.heap (sub ∷ []) h.queues (k, tt));
    calls =
        AllOf-imp s.calls
          (λ c. Waits-Grows (reliables s.bus.heap) (reliables bus.heap) c (λ id there.
            rw (e, reliables-append s.bus.heap (sub ∷ []))
              (get_elem?-append (reliables s.bus.heap) _ id there)))
          h.calls;
  }

  pub subscribed-SystemSteady :
      (topic : String) (t : ℕ) (q : Qos) (s : System P)
      → SystemSteady s
      → SystemSteady (subscribed (subscribe_locked topic t q s.bus) s)
  unfolding subscribed subscribe_locked
  subscribed-SystemSteady topic t q s h =
      let (topics, entry) = ensure_topic topic t s.bus.topics in
      let with_sub : TopicBus P = record s.bus {
        topics = put topic (record entry { subs = entry.subs ++ (length s.bus.heap ∷ []) }) topics;
        heap = s.bus.heap ++ (new_subscription topic t q ∷ []);
      } in
      let k =
        with_new s with_sub (new_subscription topic t q) h (new_subscription-Sound P topic t q)
          refl in
      let l = with_heap s (record s.bus { topics = topics }) h refl in
      if-elim (λ (r : TopicBus P × Option (ℕ × List (Envelope P))). SystemSteady (subscribed r s))
        (entry.type_index == t) (λ _. record { queues = k.queues; calls = k.calls })
        (λ _. record { queues = l.queues; calls = l.calls })

  -- A subscription is written back.
  pub with_sub :
      (s : System P) (id : ℕ) {old : Subscription P} (sub : Subscription P) (bus : TopicBus P)
      → SystemSteady s
      → get_elem? s.bus.heap id ≡ some old
      → sub.qos ≡ old.qos
      → sub.queue.policy ≡ old.queue.policy
      → bus.heap ≡ set s.bus.heap id sub
      → SystemSteady (record s { bus = bus })
  with_sub s id {old} sub bus h there q p e =
      with_kept s bus h (rw e (set-Kept s.bus.heap id {old = old} sub h.queues there q p))

  pub push_backlog-SystemSteady :
      (now id : ℕ) (e : Envelope P) (s : System P)
      → SystemSteady s
      → SystemSteady (record s { bus = push_backlog now id e s.bus })
  unfolding push_backlog
  push_backlog-SystemSteady now id e s h = elim (Option-cases (get_elem? s.bus.heap id)) [
    | inl gone ↦ rw (push_backlog, gone) h
    | inr (sub, there) ↦
        rw (push_backlog, there)
          (with_sub s id {old = sub} (record sub { queue = (Queue.try_push e now sub.queue).0 }) _ h
            there refl (try_push-policy e now sub.queue) refl)
  ]

  pub start_worker-SystemSteady :
      (id : ℕ) (s : System P)
      → SystemSteady s
      → SystemSteady (record s { bus = start_worker id s.bus })
  unfolding start_worker
  start_worker-SystemSteady id s h = elim (Option-cases (get_elem? s.bus.heap id)) [
    | inl gone ↦ rw (start_worker, gone) h
    | inr (sub, there) ↦
        rw (start_worker, there)
          (with_sub s id {old = sub} (record sub { joinable = true }) _ h there refl refl refl)
  ]

  pub stop_close-SystemSteady :
      (id : ℕ) (s : System P)
      → SystemSteady s
      → SystemSteady (record s { bus = stop_close id s.bus })
  unfolding stop_close
  stop_close-SystemSteady id s h = elim (Option-cases (get_elem? s.bus.heap id)) [
    | inl gone ↦ rw (stop_close, gone) h
    | inr (sub, there) ↦
        rw (stop_close, there)
          (with_sub s id {old = sub} (record sub { queue = Queue.close sub.queue }) _ h there refl
            (close-policy sub.queue) refl)
  ]

  pub stop_joined-SystemSteady :
      (id : ℕ) (s : System P)
      → SystemSteady s
      → SystemSteady (record s { bus = stop_joined id s.bus })
  unfolding stop_joined
  stop_joined-SystemSteady id s h = elim (Option-cases (get_elem? s.bus.heap id)) [
    | inl gone ↦ rw (stop_joined, gone) h
    | inr (sub, there) ↦
        rw (stop_joined, there)
          (with_sub s id {old = sub} (record sub { joinable = false }) _ h there refl refl refl)
  ]

  pub unlink-heap :
      (topic : String) (id : ℕ) (bus : TopicBus P) → (unlink topic id bus).heap ≡ bus.heap
  unfolding unlink
  unlink-heap topic id bus = elim (Option-cases (find topic bus.topics)) [
    | inl gone ↦ rw (unlink, gone) refl
    | inr (entry, there) ↦ rw (unlink, there) refl
  ]
