-- ===== src/Bus/Waiting.antt =====
-- Whom a publisher can wait for, and how long. (code/include/rdb/bus/topic_bus.h)
use Prim.Native.String.{String}
use mw_study.Prelude.{
  ℕ, ◌+◌, ◌≡◌, ◌≢◌, refl, ap, sym, ◌∙◌, Bool, true, false, Option, some, Option-cases, Bool-cases,
  inl, inr, List, [], ◌∷◌, ◌==◌, if-elim, if◌then◌else◌, get_elem?, get_elem?-map-some, AllOf,
  AllOf-get,
}
use mw_study.Qos.{Qos, QosMismatch, is_reliable}
use mw_study.Queue
use mw_study.Queue.{
  Queue, block, drop_oldest, Deadline, never, immediate, at, Slice, returned, sleeping, PushStatus,
}
use mw_study.Queue.Policy.{push-policy, push_for-policy, push_waiting-policy, push-sleeping_block}
use mw_study.Bus.{Envelope, Subscription, TopicEntry, TopicBus}
use mw_study.Bus.Topics.{find}
use mw_study.Bus.Publish.{
  Publishing, pushing, blocked, finished, Publisher, publish_entry, publish_erased, publish, pushed,
  push_to, publish_step,
}
use mw_study.Bus.Steady.{reliables, Sound, Kept, set-Kept, same-Kept, match_subs-Kept}

module _ {P : Type 0} where
  -- If the thread sleeps, it is for a Reliable subscription and with a deadline.
  abbrev pub Waits : List Bool → Publishing P → Type 0
  Waits rs (pushing e ids accepted) = Unit
  Waits rs (blocked e deadline id ids accepted) =
      (get_elem? rs id ≡ some true) × ((t : ℕ) × (deadline ≡ at t))
  Waits rs (finished accepted) = Unit

  -- What a slice of a publisher leaves.
  pub record Stepped (heap : List (Subscription P)) (r : TopicBus P × Publishing P) : Type 0 where
    pub kept : Kept heap r.0.heap
    pub waits : Waits (reliables heap) r.1

  pushed-Stepped :
      (e : Envelope P) (d : Deadline) (id : ℕ) (ids : List ℕ) (accepted : Bool)
      (sub : Subscription P) (bus : TopicBus P)
      (r : Queue (Envelope P) × Option (Envelope P) × Slice PushStatus)
      → AllOf Sound bus.heap
      → get_elem? bus.heap id ≡ some sub
      → r.0.policy ≡ sub.queue.policy
      → (r.2 ≡ sleeping → Waits (reliables bus.heap) (blocked e d id ids accepted))
      → Stepped bus.heap (pushed e d id ids accepted sub bus r)
  unfolding pushed
  pushed-Stepped e d id ids accepted sub bus (queue, evicted, returned status) h there p k =
      record { kept = set-Kept bus.heap id _ h there refl p; waits = tt }
  pushed-Stepped e d id ids accepted sub bus (queue, evicted, sleeping) h there p k = record {
    kept = set-Kept bus.heap id _ h there refl p;
    waits = k refl;
  }

  -- A push to a BestEffort subscription does not sleep.
  best_effort-sleeping :
      (e : Envelope P) (now : ℕ) (sub : Subscription P)
      → Sound sub
      → is_reliable sub.qos.reliability ≡ false
      → (Queue.push e now sub.queue).2 ≢ sleeping
  best_effort-sleeping e now sub h b k =
      let p : drop_oldest ≡ block =
        ap (λ (t : Bool). if t then block else drop_oldest) (sym b)
        ∙ sym h
        ∙ push-sleeping_block e now sub.queue k in
      absurd (cc)

  push_to-Stepped :
      (now : ℕ) (e : Envelope P) (id : ℕ) (ids : List ℕ) (accepted : Bool) (sub : Subscription P)
      (bus : TopicBus P)
      → AllOf Sound bus.heap
      → get_elem? bus.heap id ≡ some sub
      → Stepped bus.heap (push_to now e id ids accepted sub bus)
  unfolding push_to
  push_to-Stepped now e id ids accepted sub bus h there =
      let here : get_elem? (reliables bus.heap) id ≡ some (is_reliable sub.qos.reliability) =
        get_elem?-map-some (λ (s : Subscription P). is_reliable s.qos.reliability) bus.heap id
          there in
      if-elim (λ r. Stepped bus.heap r) (is_reliable sub.qos.reliability)
        (λ b.
          pushed-Stepped e (at (now + bus.reliable_timeout)) id ids accepted sub bus
            (Queue.push_for e bus.reliable_timeout now sub.queue) h there
            (push_for-policy e bus.reliable_timeout now sub.queue)
            (λ k. (here ∙ ap some b, (now + bus.reliable_timeout, refl))))
        (λ b.
          pushed-Stepped e never id ids accepted sub bus (Queue.push e now sub.queue) h there
            (push-policy e now sub.queue)
            (λ k.
              absurd (best_effort-sleeping e now sub (AllOf-get Sound bus.heap id h there) b k)))

  pub publish_step-Stepped :
      (now : ℕ) (bus : TopicBus P) (call : Publishing P)
      → AllOf Sound bus.heap
      → Waits (reliables bus.heap) call
      → Stepped bus.heap (publish_step now bus call)
  unfolding publish_step
  publish_step-Stepped now bus (pushing e [] accepted) h w = record {
    kept = same-Kept bus.heap h;
    waits = tt;
  }
  publish_step-Stepped now bus (pushing e (id ∷ ids) accepted) h w =
      elim (Option-cases (get_elem? bus.heap id)) [
        | inl gone ↦
            let k : Stepped bus.heap (bus, pushing e ids accepted) = record {
              kept = same-Kept bus.heap h;
              waits = tt;
            } in
            rw (publish_step, gone) k
        | inr (sub, there) ↦
            rw (publish_step, there) (push_to-Stepped now e id ids accepted sub bus h there)
      ]
  publish_step-Stepped now bus (blocked e d id ids accepted) h w =
      elim (Option-cases (get_elem? bus.heap id)) [
        | inl gone ↦
            let k : Stepped bus.heap (bus, pushing e ids accepted) = record {
              kept = same-Kept bus.heap h;
              waits = tt;
            } in
            rw (publish_step, gone) k
        | inr (sub, there) ↦
            rw (publish_step, there)
              (pushed-Stepped e d id ids accepted sub bus (Queue.push_waiting e d now sub.queue) h
                there (push_waiting-policy e d now sub.queue) (λ _. w))
      ]
  publish_step-Stepped now bus (finished accepted) h w = record {
    kept = same-Kept bus.heap h;
    waits = tt;
  }

  -- The same of what a call of `publish` starts with.
  abbrev pub Started : List (Subscription P) → TopicBus P × Publishing P × List QosMismatch → Type 0
  Started heap r = Kept heap r.0.heap × Waits (reliables heap) r.1

  publish_entry-Started :
      (topic : String) (entry : TopicEntry P) (q : Qos) (payload : P) (now : ℕ) (bus : TopicBus P)
      → AllOf Sound bus.heap
      → Started bus.heap (publish_entry topic entry q payload now bus)
  unfolding publish_entry
  publish_entry-Started topic entry q payload now bus h = (match_subs-Kept q entry.subs _ h, tt)

  publish_erased-Started :
      (topic : String) (t : ℕ) (q : Qos) (payload : P) (now : ℕ) (bus : TopicBus P)
      → AllOf Sound bus.heap
      → Started bus.heap (publish_erased topic t q payload now bus)
  unfolding publish_erased
  publish_erased-Started topic t q payload now bus h = elim (Option-cases (find topic bus.topics)) [
    | inl e ↦ rw (publish_erased, e) (same-Kept bus.heap h, tt)
    | inr (entry, e) ↦ elim (Bool-cases (entry.type_index == t)) [
      | inl same ↦
          rw (publish_erased, e, same) (publish_entry-Started topic entry q payload now bus h)
      | inr other ↦ rw (publish_erased, e, other) (same-Kept bus.heap h, tt)
    ]
  ]

  pub publish-Started :
      (p : Publisher) (payload : P) (now : ℕ) (bus : TopicBus P)
      → AllOf Sound bus.heap
      → Started bus.heap (publish p payload now bus)
  unfolding publish
  publish-Started p payload now bus h = elim (Bool-cases p.attached) [
    | inl there ↦
        rw (publish, there) (publish_erased-Started p.topic p.type_index p.qos payload now bus h)
    | inr null ↦ rw (publish, null) (same-Kept bus.heap h, tt)
  ]
