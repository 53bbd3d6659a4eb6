-- ===== src/Spsc/WaitFree.antt =====
-- The calls of a SpscRing return after a few steps of their thread.
-- (code/include/rdb/concurrency/spsc_ring.h)
use mw_study.Prelude.{
  ℕ, suc, ◌-◌, ◌≤◌, ◌≡◌, refl, List, [], ◌∷◌, arith, if-elim, Bool-cases, inl, inr,
}
use mw_study.Spsc.{Ring, is_full, is_empty}
use mw_study.Spsc.Threads.{
  Producer, outside, reloading, writing, publishing, Consumer, away, rewatching, reading, leaving,
  System, Action, enters_push, producer_moves, enters_pop, consumer_moves, did, enter_push,
  producer_step, enter_pop, consumer_step, act, interleave,
}

-- A thread of the ring.
pub data Side : Type 0 where
  producing consuming : Side

module _ {ℓ} {A : Type ℓ} where
  -- How many more steps of its own the call of the producer can take.
  unfoldable pub push_steps : Producer A → ℕ
  push_steps outside = 0
  push_steps (reloading v) = 3
  push_steps (writing v) = 2
  push_steps (publishing v) = 1

  unfoldable pub pop_steps : Consumer A → ℕ
  pop_steps away = 0
  pop_steps rewatching = 3
  pop_steps reading = 2
  pop_steps (leaving o) = 1

  unfoldable pub steps_left : Side → System A → ℕ
  unfolding push_steps pop_steps
  steps_left producing s = push_steps s.producer
  steps_left consuming s = pop_steps s.consumer

  -- How many of the steps are steps of a call of that thread, and how many enter one.
  unfoldable pub moves : Side → List (Action A) → ℕ
  moves side [] = 0
  moves producing (producer_moves ∷ actions) = suc (moves producing actions)
  moves consuming (consumer_moves ∷ actions) = suc (moves consuming actions)
  moves side (_ ∷ actions) = moves side actions

  unfoldable pub entries : Side → List (Action A) → ℕ
  entries side [] = 0
  entries producing (enters_push v ∷ actions) = suc (entries producing actions)
  entries consuming (enters_pop ∷ actions) = suc (entries consuming actions)
  entries side (_ ∷ actions) = entries side actions

  -- The thread is in no call.
  unfoldable pub Returned : Side → System A → Type ℓ
  Returned producing s = s.producer ≡ outside
  Returned consuming s = s.consumer ≡ away

  enter_pop-producer : (k : Consumer A) (s : System A) → (enter_pop k s).producer ≡ s.producer
  unfolding enter_pop
  enter_pop-producer away s =
      if-elim (λ (t : System A). t.producer ≡ s.producer) (is_empty s.ring) (λ _. refl) (λ _. refl)
  enter_pop-producer rewatching s = refl
  enter_pop-producer reading s = refl
  enter_pop-producer (leaving o) s = refl

  consumer_step-producer :
      (k : Consumer A) (s : System A) → (consumer_step k s).producer ≡ s.producer
  unfolding consumer_step did
  consumer_step-producer away s = refl
  consumer_step-producer rewatching s =
      if-elim (λ (t : System A). t.producer ≡ s.producer) _ (λ _. refl) (λ _. refl)
  consumer_step-producer reading s = refl
  consumer_step-producer (leaving o) s = refl

  enter_push-consumer :
      (v : A) (p : Producer A) (s : System A) → (enter_push v p s).consumer ≡ s.consumer
  unfolding enter_push
  enter_push-consumer v outside s =
      if-elim (λ (t : System A). t.consumer ≡ s.consumer) (is_full s.ring) (λ _. refl) (λ _. refl)
  enter_push-consumer v (reloading w) s = refl
  enter_push-consumer v (writing w) s = refl
  enter_push-consumer v (publishing w) s = refl

  producer_step-consumer :
      (p : Producer A) (s : System A) → (producer_step p s).consumer ≡ s.consumer
  unfolding producer_step did
  producer_step-consumer outside s = refl
  producer_step-consumer (reloading v) s =
      if-elim (λ (t : System A). t.consumer ≡ s.consumer) _ (λ _. refl) (λ _. refl)
  producer_step-consumer (writing v) s = refl
  producer_step-consumer (publishing v) s = refl

  producer_step-steps :
      (p : Producer A) (s : System A)
      → s.producer ≡ p
      → push_steps (producer_step p s).producer ≤ push_steps p - 1
  unfolding producer_step did push_steps
  producer_step-steps outside s e = rw e (omega arith)
  producer_step-steps (reloading v) s e =
      let ring : Ring A = record s.ring { read_cache = s.ring.read } in
      elim (Bool-cases (is_full ring)) [ inl f ↦ rw f (omega arith) | inr f ↦ rw f (omega arith) ]
  producer_step-steps (writing v) s e = omega arith
  producer_step-steps (publishing v) s e = omega arith

  consumer_step-steps :
      (k : Consumer A) (s : System A)
      → s.consumer ≡ k
      → pop_steps (consumer_step k s).consumer ≤ pop_steps k - 1
  unfolding consumer_step did pop_steps
  consumer_step-steps away s e = rw e (omega arith)
  consumer_step-steps rewatching s e =
      let ring : Ring A = record s.ring { write_cache = s.ring.write } in
      elim (Bool-cases (is_empty ring)) [ inl f ↦ rw f (omega arith) | inr f ↦ rw f (omega arith) ]
  consumer_step-steps reading s e = omega arith
  consumer_step-steps (leaving o) s e = omega arith

  -- A step that enters no call of that thread; its own steps bring the return nearer.
  act-steps :
      (side : Side) (a : Action A) (actions : List (Action A)) (s : System A)
      → entries side (a ∷ actions) ≡ 0
      → (entries side actions ≡ 0)
        × (moves side actions ≤ moves side (a ∷ actions))
        × (steps_left side (act a s)
            ≤ steps_left side s - (moves side (a ∷ actions) - moves side actions))
  unfolding act steps_left entries moves
  act-steps producing (enters_push v) actions s h = absurd (omega arith)
  act-steps producing producer_moves actions s h =
      (h, omega arith, let d = producer_step-steps s.producer s refl in omega (arith, d))
  act-steps producing enters_pop actions s h =
      (h, omega arith, rw (enter_pop-producer s.consumer s) (omega arith))
  act-steps producing consumer_moves actions s h =
      (h, omega arith, rw (consumer_step-producer s.consumer s) (omega arith))
  act-steps consuming (enters_push v) actions s h =
      (h, omega arith, rw (enter_push-consumer v s.producer s) (omega arith))
  act-steps consuming producer_moves actions s h =
      (h, omega arith, rw (producer_step-consumer s.producer s) (omega arith))
  act-steps consuming enters_pop actions s h = absurd (omega arith)
  act-steps consuming consumer_moves actions s h =
      (h, omega arith, let d = consumer_step-steps s.consumer s refl in omega (arith, d))

  interleave-steps :
      (side : Side) (actions : List (Action A)) (s : System A)
      → entries side actions ≡ 0
      → steps_left side (interleave actions s) ≤ steps_left side s - moves side actions
  unfolding interleave
  interleave-steps side [] s h = unfold moves in omega arith
  interleave-steps side (a ∷ actions) s h =
      let (rest, grows, d) = act-steps side a actions s h in
      let k = interleave-steps side actions (act a s) rest in omega (arith, grows, d, k)

  steps_left-bound :
      (side : Side) (s : System A)
      → (steps_left side s ≤ 3) × (steps_left side s ≡ 0 → Returned side s)
  unfolding steps_left push_steps pop_steps Returned
  steps_left-bound producing s = bound s.producer
    where
      bound : (p : Producer A) → (push_steps p ≤ 3) × (push_steps p ≡ 0 → p ≡ outside)
      bound outside = (omega arith, λ _. refl)
      bound (reloading v) = (omega arith, λ e. absurd (omega arith))
      bound (writing v) = (omega arith, λ e. absurd (omega arith))
      bound (publishing v) = (omega arith, λ e. absurd (omega arith))
  steps_left-bound consuming s = bound s.consumer
    where
      bound : (k : Consumer A) → (pop_steps k ≤ 3) × (pop_steps k ≡ 0 → k ≡ away)
      bound away = (omega arith, λ _. refl)
      bound rewatching = (omega arith, λ e. absurd (omega arith))
      bound reading = (omega arith, λ e. absurd (omega arith))
      bound (leaving o) = (omega arith, λ e. absurd (omega arith))

  -- The calls are wait-free: from any state, also in the middle of a call, a thread that enters no
  -- further call has returned once it has taken three of its own steps, whatever the steps of the
  -- other thread in between.
  pub interleave-Returned :
      (side : Side) (actions : List (Action A)) (s : System A)
      → entries side actions ≡ 0
      → 3 ≤ moves side actions
      → Returned side (interleave actions s)
  interleave-Returned side actions s h enough =
      let (bound, _) = steps_left-bound side s in
      let k = interleave-steps side actions s h in
      (steps_left-bound side (interleave actions s)).1 (omega (arith, bound, k))
