-- ===== src/Bus/Finishes.antt =====
-- A call of publish returns. (code/include/rdb/bus/topic_bus.h)
use mw_study.Prelude.{
  ℕ, ◌+◌, ◌-◌, ◌*◌, ◌≤◌, ◌≡◌, ◌≢◌, refl, subst, Bool, true, Option, Option-cases, inl, inr, List,
  [], ◌∷◌, arith, if-elim, length, get_elem?, AllOf,
}
use mw_study.Qos.{is_reliable}
use mw_study.Queue
use mw_study.Queue.{Queue, Deadline, never, immediate, at, Slice, returned, sleeping, PushStatus}
use mw_study.Queue.Policy.{push_waiting-late}
use mw_study.Bus.{Envelope, Subscription, TopicBus}
use mw_study.Bus.Publish.{Publishing, pushing, blocked, finished, publish_step, push_to, pushed}
use mw_study.Bus.Steady.{reliables, Sound}
use mw_study.Bus.Waiting.{Waits, publish_step-Stepped}

module _ {P : Type 0} where
  -- The slices of one publisher, each at its time and on the bus as the other threads left it.
  unfoldable pub publish_through : List (ℕ × TopicBus P) → Publishing P → Publishing P
  publish_through [] call = call
  publish_through ((now, bus) ∷ slices) call = publish_through slices (publish_step now bus call).1

  -- How many slices it can still take.
  unfoldable pub turns : Publishing P → ℕ
  turns (pushing e ids accepted) = 2 * length ids + 1
  turns (blocked e deadline id ids accepted) = 2 * length ids + 2
  turns (finished accepted) = 0

  -- If the thread sleeps, its deadline has come.
  unfoldable pub IsDue : ℕ → Publishing P → Type 0
  IsDue now (pushing e ids accepted) = Unit
  IsDue now (blocked e never id ids accepted) = Unit
  IsDue now (blocked e immediate id ids accepted) = Unit
  IsDue now (blocked e (at t) id ids accepted) = t ≤ now
  IsDue now (finished accepted) = Unit

  unfoldable pub AllDue : List (ℕ × TopicBus P) → Publishing P → Type 0
  unfolding IsDue
  AllDue [] call = Unit
  AllDue ((now, bus) ∷ slices) call = IsDue now call × AllDue slices (publish_step now bus call).1

  -- If the thread sleeps, it has a deadline.
  unfoldable pub Timed : Publishing P → Type 0
  Timed (pushing e ids accepted) = Unit
  Timed (blocked e deadline id ids accepted) = (t : ℕ) × (deadline ≡ at t)
  Timed (finished accepted) = Unit

  Waits-Timed : (rs : List Bool) (call : Publishing P) → Waits rs call → Timed call
  unfolding Timed
  Waits-Timed rs (pushing e ids accepted) w = tt
  Waits-Timed rs (blocked e d id ids accepted) w = w.1
  Waits-Timed rs (finished accepted) w = tt

  pushed-Timed :
      (e : Envelope P) (d : Deadline) (id : ℕ) (ids : List ℕ) (accepted : Bool)
      (sub : Subscription P) (bus : TopicBus P)
      (r : Queue (Envelope P) × Option (Envelope P) × Slice PushStatus)
      → Timed (blocked e d id ids accepted)
      → Timed (pushed e d id ids accepted sub bus r).1
  unfolding pushed Timed
  pushed-Timed e d id ids accepted sub bus (queue, evicted, returned status) h = tt
  pushed-Timed e d id ids accepted sub bus (queue, evicted, sleeping) h = h

  publish_step-Timed :
      (now : ℕ) (bus : TopicBus P) (call : Publishing P)
      → AllOf Sound bus.heap
      → Timed call
      → Timed (publish_step now bus call).1
  unfolding publish_step
  publish_step-Timed now bus (pushing e ids accepted) h w =
      Waits-Timed (reliables bus.heap) _
        (publish_step-Stepped now bus (pushing e ids accepted) h tt).waits
  publish_step-Timed now bus (blocked e d id ids accepted) h w =
      elim (Option-cases (get_elem? bus.heap id)) [
        | inl gone ↦ rw (publish_step, gone) (unfold Timed in tt)
        | inr (sub, there) ↦
            rw (publish_step, there)
              (pushed-Timed e d id ids accepted sub bus (Queue.push_waiting e d now sub.queue) w)
      ]
  publish_step-Timed now bus (finished accepted) h w = w

  -- The push to the next target either is over or sleeps.
  pushed-turns :
      (e : Envelope P) (d : Deadline) (id : ℕ) (ids : List ℕ) (accepted : Bool)
      (sub : Subscription P) (bus : TopicBus P)
      (r : Queue (Envelope P) × Option (Envelope P) × Slice PushStatus)
      → turns (pushed e d id ids accepted sub bus r).1 ≤ 2 * length ids + 2
  unfolding pushed turns
  pushed-turns e d id ids accepted sub bus (queue, evicted, returned status) = omega arith
  pushed-turns e d id ids accepted sub bus (queue, evicted, sleeping) = omega arith

  pushed-turns_over :
      (e : Envelope P) (d : Deadline) (id : ℕ) (ids : List ℕ) (accepted : Bool)
      (sub : Subscription P) (bus : TopicBus P)
      (r : Queue (Envelope P) × Option (Envelope P) × Slice PushStatus)
      → r.2 ≢ sleeping
      → turns (pushed e d id ids accepted sub bus r).1 ≤ 2 * length ids + 1
  unfolding pushed turns
  pushed-turns_over e d id ids accepted sub bus (queue, evicted, returned status) h = omega arith
  pushed-turns_over e d id ids accepted sub bus (queue, evicted, sleeping) h = absurd (h refl)

  push_to-turns :
      (now : ℕ) (e : Envelope P) (id : ℕ) (ids : List ℕ) (accepted : Bool) (sub : Subscription P)
      (bus : TopicBus P)
      → turns (push_to now e id ids accepted sub bus).1 ≤ 2 * length ids + 2
  unfolding push_to
  push_to-turns now e id ids accepted sub bus =
      if-elim (λ (r : TopicBus P × Publishing P). turns r.1 ≤ 2 * length ids + 2)
        (is_reliable sub.qos.reliability) (λ _. pushed-turns e _ id ids accepted sub bus _)
        (λ _. pushed-turns e _ id ids accepted sub bus _)

  -- A slice brings the return nearer.
  publish_step-turns :
      (now : ℕ) (bus : TopicBus P) (call : Publishing P)
      → Timed call
      → IsDue now call
      → turns (publish_step now bus call).1 ≤ turns call - 1
  unfolding publish_step turns IsDue Timed
  publish_step-turns now bus (pushing e [] accepted) w due = omega arith
  publish_step-turns now bus (pushing e (id ∷ ids) accepted) w due =
      elim (Option-cases (get_elem? bus.heap id)) [
        | inl gone ↦ rw (publish_step, gone) (omega arith)
        | inr (sub, there) ↦
            rw (publish_step, there)
              (let k = push_to-turns now e id ids accepted sub bus in omega (arith, k))
      ]
  publish_step-turns now bus (blocked e d id ids accepted) (t, e') due =
      elim (Option-cases (get_elem? bus.heap id)) [
        | inl gone ↦ rw (publish_step, gone) (omega arith)
        | inr (sub, there) ↦
            let late : (Queue.push_waiting e d now sub.queue).2 ≢ sleeping = rw e' (
              push_waiting-late e t now sub.queue
                (subst (λ x. IsDue now (blocked e x id ids accepted)) e' due)) in
            rw (publish_step, there)
              (let k =
                  pushed-turns_over e d id ids accepted sub bus
                    (Queue.push_waiting e d now sub.queue) late in
                omega (arith, k))
      ]
  publish_step-turns now bus (finished accepted) w due = omega arith

  no_turns-finished :
      (call : Publishing P) → turns call ≤ 0 → (accepted : Bool) × (call ≡ finished accepted)
  unfolding turns
  no_turns-finished (pushing e ids accepted) h = absurd (omega arith)
  no_turns-finished (blocked e d id ids accepted) h = absurd (omega arith)
  no_turns-finished (finished accepted) h = (accepted, refl)

  through-finished :
      (slices : List (ℕ × TopicBus P)) (call : Publishing P)
      → Timed call
      → AllOf (λ s. AllOf Sound s.1.heap) slices
      → AllDue slices call
      → turns call ≤ length slices
      → (accepted : Bool) × (publish_through slices call ≡ finished accepted)
  unfolding publish_through AllDue
  through-finished [] call w sound due few = no_turns-finished call few
  through-finished ((now, bus) ∷ slices) call w sound due few =
      let k = publish_step-turns now bus call w due.0 in
      through-finished slices (publish_step now bus call).1
        (publish_step-Timed now bus call sound.0 w) sound.1 due.1 (omega (arith, k, few))

  -- A call of publish returns: from its pushes to `n` targets on, after at most 2 n + 1 slices of its
  -- thread, whatever other threads do to the bus between them, if in each of these states every
  -- queue has the policy of its QoS and each slice that comes out of a wait is at the deadline of
  -- the wait or later.
  pub publish_through-finished :
      (slices : List (ℕ × TopicBus P)) (envelope : Envelope P) (targets : List ℕ)
      → AllOf (λ s. AllOf Sound s.1.heap) slices
      → AllDue slices (pushing envelope targets true)
      → 2 * length targets + 1 ≤ length slices
      → (accepted : Bool) × (publish_through slices (pushing envelope targets true)
          ≡ finished accepted)
  unfolding turns Timed
  publish_through-finished slices e ids sound due few =
      through-finished slices (pushing e ids true) tt sound due few
