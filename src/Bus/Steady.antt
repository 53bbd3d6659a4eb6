-- ===== src/Bus/Steady.antt =====
-- The queue of a subscription keeps the policy that its QoS chose. (code/include/rdb/bus/topic_bus.h)
use mw_study.Prelude.{
  ℕ, ◌≡◌, refl, ap, sym, ◌∙◌, Bool, Option, none, some, Option-cases, inl, inr, List, [], ◌∷◌, map,
  if-elim, if◌then◌else◌, get_elem?, set, map-set_same, AllOf, AllOf-set, AllOf-get,
}
use mw_study.Qos.{Qos, check_compatible, is_reliable}
use mw_study.Queue.{
  Queue, OverflowPolicy, block, drop_newest, drop_oldest, Deadline, never, immediate, at, Slice,
  returned, sleeping, PushStatus, push_waiting, push_full, push_until, push, push_for, try_push,
  append, pop_waiting, take_front, pop_until, pop, close,
}
use mw_study.Queue
use mw_study.Bus.Deliver.{Round, popped, handle, is_expired, deliver_round}
use mw_study.Queue.Policy.{pop-policy}
use mw_study.Bus.{Envelope, Subscription}
use mw_study.Bus.Publish.{Matching, is_compatible, match_found, match_sub, match_subs}

-- The member initialiser of `queue`.
abbrev pub policy_of : Qos → OverflowPolicy
policy_of q = if is_reliable q.reliability then block else drop_oldest

-- Which subscriptions are Reliable.
abbrev pub reliables : {P : Type 0} → List (Subscription P) → List Bool
reliables heap = map (λ sub. is_reliable sub.qos.reliability) heap

module _ {P : Type 0} where
  abbrev pub Sound : Subscription P → Type 0
  Sound sub = sub.queue.policy ≡ policy_of sub.qos

  -- What an operation leaves of the subscriptions that were there.
  pub record Kept (heap heap' : List (Subscription P)) : Type 0 where
    pub sound : AllOf Sound heap'
    pub same : reliables heap' ≡ reliables heap

  -- A subscription is written back with its QoS and its policy.
  pub set-Kept :
      (heap : List (Subscription P)) (id : ℕ) {old : Subscription P} (sub : Subscription P)
      → AllOf Sound heap
      → get_elem? heap id ≡ some old
      → sub.qos ≡ old.qos
      → sub.queue.policy ≡ old.queue.policy
      → Kept heap (set heap id sub)
  set-Kept heap id {old} sub h e q p =
      let k : Sound old = AllOf-get Sound heap id h e in
      record {
        sound = AllOf-set Sound heap id sub h (p ∙ k ∙ ap policy_of (sym q));
        same =
            map-set_same (λ (s : Subscription P). is_reliable s.qos.reliability) heap id sub e
              (ap (λ (t : Qos). is_reliable t.reliability) q);
      }

  pub same-Kept : (heap : List (Subscription P)) → AllOf Sound heap → Kept heap heap
  same-Kept heap h = record { sound = h; same = refl }

  match_found-Kept :
      (q : Qos) (id : ℕ) (sub : Subscription P) (m : Matching P)
      → AllOf Sound m.heap
      → get_elem? m.heap id ≡ some sub
      → Kept m.heap (match_found q id sub m).heap
  unfolding match_found
  match_found-Kept q id sub m h e =
      if-elim (λ (r : Matching P). Kept m.heap r.heap) (is_compatible (check_compatible q sub.qos))
        (λ _. same-Kept m.heap h) (λ _. set-Kept m.heap id _ h e refl refl)

  match_sub-Kept :
      (q : Qos) (id : ℕ) (m : Matching P) → AllOf Sound m.heap → Kept m.heap (match_sub q id m).heap
  unfolding match_sub
  match_sub-Kept q id m h = elim (Option-cases (get_elem? m.heap id)) [
    | inl e ↦ rw (match_sub, e) (same-Kept m.heap h)
    | inr (sub, e) ↦ rw (match_sub, e) (match_found-Kept q id sub m h e)
  ]

  pub match_subs-Kept :
      (q : Qos) (ids : List ℕ) (m : Matching P)
      → AllOf Sound m.heap
      → Kept m.heap (match_subs q ids m).heap
  unfolding match_subs
  match_subs-Kept q [] m h = same-Kept m.heap h
  match_subs-Kept q (id ∷ ids) m h =
      let first = match_sub-Kept q id m h in
      let rest = match_subs-Kept q ids (match_sub q id m) first.sound in
      record { sound = rest.sound; same = rest.same ∙ first.same }

  -- The thread of a subscription keeps them.
  pub record Same (old sub : Subscription P) : Type 0 where
    pub qos : sub.qos ≡ old.qos
    pub policy : sub.queue.policy ≡ old.queue.policy

  popped-Same :
      (now : ℕ) (old : Subscription P) (r : Queue (Envelope P) × Slice (Option (Envelope P)))
      → r.0.policy ≡ old.queue.policy
      → Same old (popped now old r).0
  unfolding popped handle
  popped-Same now old (queue, sleeping) h = record { qos = refl; policy = h }
  popped-Same now old (queue, returned none) h = record { qos = refl; policy = h }
  popped-Same now old (queue, returned (some e)) h =
      if-elim (λ (r : Subscription P × Round P). Same old r.0) (is_expired old.qos now e)
        (λ _. record { qos = refl; policy = h }) (λ _. record { qos = refl; policy = h })

  pub deliver_round-Same : (now : ℕ) (sub : Subscription P) → Same sub (deliver_round now sub).0
  unfolding deliver_round
  deliver_round-Same now sub =
      popped-Same now sub (Queue.pop now sub.queue) (pop-policy now sub.queue)
