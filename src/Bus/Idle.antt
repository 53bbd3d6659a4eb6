-- ===== src/Bus/Idle.antt =====
-- Waiting until the queues are empty. (code/include/rdb/bus/topic_bus.h)
use Prim.Native.String.{String}
use mw_study.Prelude.{
  ℕ, zero, suc, ◌≤◌, ◌≡◌, refl, ap, subst, ◌↔◌, Bool, true, false, ◌&&◌, Option, none, some,
  Option-cases, Bool-cases, inl, inr, ◌⊎◌, List, [], ◌∷◌, arith, leb, leb→le, if◌then◌else◌,
  get_elem?, AllOf,
}
use mw_study.Queue
use mw_study.Queue.Contents.{empty-items_iff}
use mw_study.Queue.{Queue}
use mw_study.Bus.{Subscription, TopicEntry, TopicBus}
use mw_study.Bus.Topics.{idle_sub, idle_subs, idle_topics}

empty_iff {ℓ} : {A : Type ℓ} (q : Queue A) → (Queue.empty q ≡ true) ↔ (q.items ≡ [])
empty_iff q = empty-items_iff q

and_iff :
    {a b : Bool} {A B : Type 0} → (a ≡ true) ↔ A → (b ≡ true) ↔ B → ((a && b) ≡ true) ↔ (A × B)
and_iff {a = true} {b = b} f g = ((λ h. (f.0 refl, g.0 h)), λ p. g.1 p.1)
and_iff {a = false} {b = b} f g = ((λ h. absurd (cc)), λ p. let e = f.1 p.0 in absurd (cc))

module _ {P : Type 0} where
  -- `wait_for_idle`: what each round sees of the bus with the lock held, and reads from the clock
  -- after it. `none`: it sleeps after the last of these.
  unfoldable pub wait_for_idle : (deadline : ℕ) → List (ℕ × TopicBus P) → Option Bool
  wait_for_idle deadline [] = none
  wait_for_idle deadline ((now, bus) ∷ rounds) =
      let rest = wait_for_idle deadline rounds in
      if idle_topics bus.heap bus.topics
      then some true
      else if leb deadline now
      then some false
      else rest

  -- It has nothing queued.
  abbrev pub Empty : List (Subscription P) → ℕ → Type 0
  Empty heap id = (sub : Subscription P) → get_elem? heap id ≡ some sub → sub.queue.items ≡ []

  -- No subscription of any topic has an envelope queued.
  abbrev pub Quiet : TopicBus P → Type 0
  Quiet bus = AllOf (λ t. AllOf (Empty bus.heap) t.1.subs) bus.topics

  idle_sub-Empty :
      (heap : List (Subscription P)) (id : ℕ) → (idle_sub heap id ≡ true) ↔ Empty heap id
  unfolding idle_sub
  idle_sub-Empty heap id = elim (Option-cases (get_elem? heap id)) [
    | inl gone ↦ rw (idle_sub, gone) ((λ _ sub e. absurd (cc)), λ _. refl)
    | inr (sub, there) ↦ rw (idle_sub, there) (only sub)
  ]
    where
      only :
          (x : Subscription P)
          → (Queue.empty x.queue ≡ true)
            ↔ ((y : Subscription P) → some x ≡ some y → y.queue.items ≡ [])
      only x = (
        λ h y e. let p : x ≡ y = cc in subst (λ z. z.queue.items ≡ []) p ((empty_iff x.queue).0 h),
        λ k. (empty_iff x.queue).1 (k x refl),
      )

  idle_subs-Empty :
      (heap : List (Subscription P)) (ids : List ℕ)
      → (idle_subs heap ids ≡ true) ↔ AllOf (Empty heap) ids
  unfolding idle_subs
  idle_subs-Empty heap [] = (λ _. tt, λ _. refl)
  idle_subs-Empty heap (id ∷ ids) = and_iff (idle_sub-Empty heap id) (idle_subs-Empty heap ids)

  idle_topics-Quiet :
      (heap : List (Subscription P)) (topics : List (String × TopicEntry P))
      → (idle_topics heap topics ≡ true) ↔ AllOf (λ t. AllOf (Empty heap) t.1.subs) topics
  unfolding idle_topics
  idle_topics-Quiet heap [] = (λ _. tt, λ _. refl)
  idle_topics-Quiet heap ((name, entry) ∷ topics) =
      and_iff (idle_subs-Empty heap entry.subs) (idle_topics-Quiet heap topics)

  -- What the answer says: some round saw every queue empty; or some round at or after the deadline
  -- saw one that was not.
  unfoldable pub Answers : ℕ → List (ℕ × TopicBus P) → Bool → Type 0
  Answers deadline rounds true =
      (i : ℕ) × ((r : ℕ × TopicBus P) × ((get_elem? rounds i ≡ some r) × Quiet r.1))
  Answers deadline rounds false =
      (i : ℕ) × ((r : ℕ × TopicBus P) × ((get_elem? rounds i ≡ some r)
          × (deadline ≤ r.0)
          × (Quiet r.1 → ⊥)))

  later :
      (deadline : ℕ) (r : ℕ × TopicBus P) (rounds : List (ℕ × TopicBus P)) (b : Bool)
      → Answers deadline rounds b
      → Answers deadline (r ∷ rounds) b
  unfolding Answers
  later deadline r rounds true (i, rest) = (suc i, rest)
  later deadline r rounds false (i, rest) = (suc i, rest)

  -- The round decides, or it was neither idle nor late.
  decides :
      (deadline now : ℕ) (bus : TopicBus P) (rounds : List (ℕ × TopicBus P))
      → ((idle_topics bus.heap bus.topics ≡ false) × (leb deadline now ≡ false))
        ⊎ ((b : Bool) × ((wait_for_idle deadline ((now, bus) ∷ rounds) ≡ some b)
              × Answers deadline ((now, bus) ∷ rounds) b))
  unfolding wait_for_idle Answers
  decides deadline now bus rounds =
      let quiet = idle_topics-Quiet bus.heap bus.topics in
      elim (Bool-cases (idle_topics bus.heap bus.topics)) [
        | inl idle ↦
            inr (true, (rw (wait_for_idle, idle) refl, (0, ((now, bus), (refl, quiet.0 idle)))))
        | inr busy ↦ elim (Bool-cases (leb deadline now)) [
          | inl late ↦ inr (
            false,
            (
              rw (wait_for_idle, busy, late) refl,
              (
                0,
                (
                  (now, bus),
                  (refl, leb→le deadline now late, λ h. let t = quiet.1 h in absurd (cc)),
                ),
              ),
            ),
          )
          | inr early ↦ inl (busy, early)
        ]
      ]

  -- wait_for_idle returns once a round reads a time at or after its deadline, if not before. When it
  -- returns true, some round saw the queues of all linked subscriptions empty; when it returns
  -- false, a round at the deadline or later saw one that was not.
  pub wait_for_idle-Answers :
      (deadline : ℕ) (rounds : List (ℕ × TopicBus P)) (i : ℕ) (r : ℕ × TopicBus P)
      → get_elem? rounds i ≡ some r
      → deadline ≤ r.0
      → (b : Bool) × ((wait_for_idle deadline rounds ≡ some b) × Answers deadline rounds b)
  unfolding wait_for_idle Answers
  wait_for_idle-Answers deadline [] i r e h = absurd (cc)
  wait_for_idle-Answers deadline ((now, bus) ∷ rounds) zero r e h =
      elim (decides deadline now bus rounds) [
        | inl (busy, early) ↦
            let p : now ≡ r.0 =
              ap (λ (o : Option (ℕ × TopicBus P)). elim o [ none ↦ now | some x ↦ x.0 ]) e in
            absurd (ground (arith, p, h))
        | inr answer ↦ answer
      ]
  wait_for_idle-Answers deadline ((now, bus) ∷ rounds) (suc i) r e h =
      let (b, (q, k)) = wait_for_idle-Answers deadline rounds i r e h in
      elim (decides deadline now bus rounds) [
        | inl (busy, early) ↦
            (b, (rw (wait_for_idle, busy, early) q, later deadline (now, bus) rounds b k))
        | inr answer ↦ answer
      ]
