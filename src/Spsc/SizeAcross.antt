-- ===== src/Spsc/SizeAcross.antt =====
-- size() of a SpscRing by a third thread. (code/include/rdb/concurrency/spsc_ring.h)
use mw_study.Prelude.{
  ℕ, suc, ◌+◌, ◌-◌, ◌%◌, ◌^◌, ◌≤◌, ◌≡◌, refl, ap, subst, true, false, none, some, List, [], ◌∷◌,
  ◌++◌, arith, if-elim,
}
use mw_study.Spsc.{round_up_pow2, new, is_full, is_empty}
use mw_study.Spsc.Refine.{Outcome, pushed, popped}
use mw_study.Spsc.Knows.{Good, Consumes}
use mw_study.Spsc.Linear.{reached, start-Good, act-Good}
use mw_study.Spsc.Threads.{
  Producer, outside, reloading, writing, publishing, Consumer, away, rewatching, reading, leaving,
  System, Action, enters_push, producer_moves, enters_pop, consumer_moves, start, did, enter_push,
  producer_step, enter_pop, consumer_step, act, interleave, size_across,
}

module _ {ℓ} {A : Type ℓ} where
  -- How many pushes were accepted, and how many pops had an item.
  unfoldable pub accepted_in : List (Outcome A) → ℕ
  accepted_in [] = 0
  accepted_in (pushed true ∷ os) = suc (accepted_in os)
  accepted_in (_ ∷ os) = accepted_in os

  unfoldable pub taken_in : List (Outcome A) → ℕ
  taken_in [] = 0
  taken_in (popped (some x) ∷ os) = suc (taken_in os)
  taken_in (_ ∷ os) = taken_in os

  accepted_in-append :
      (os rest : List (Outcome A)) → accepted_in (os ++ rest) ≡ accepted_in os + accepted_in rest
  unfolding accepted_in
  accepted_in-append [] rest = omega arith
  accepted_in-append (pushed true ∷ os) rest = omega (arith, accepted_in-append os rest)
  accepted_in-append (pushed false ∷ os) rest = accepted_in-append os rest
  accepted_in-append (popped o ∷ os) rest = accepted_in-append os rest

  taken_in-append :
      (os rest : List (Outcome A)) → taken_in (os ++ rest) ≡ taken_in os + taken_in rest
  unfolding taken_in
  taken_in-append [] rest = omega arith
  taken_in-append (popped (some x) ∷ os) rest = omega (arith, taken_in-append os rest)
  taken_in-append (popped none ∷ os) rest = taken_in-append os rest
  taken_in-append (pushed b ∷ os) rest = taken_in-append os rest

  -- The indices count the calls that had an effect.
  record Counted (s : System A) : Type 0 where
    pub writes : s.ring.write ≡ accepted_in s.outcomes % 2 ^ 64
    pub reads : s.ring.read ≡ taken_in s.outcomes % 2 ^ 64

  -- A step that stores no index and whose calls have no effect.
  same-Counted :
      (s t : System A)
      → t.ring.write ≡ s.ring.write
      → t.ring.read ≡ s.ring.read
      → accepted_in t.outcomes ≡ accepted_in s.outcomes
      → taken_in t.outcomes ≡ taken_in s.outcomes
      → Counted s
      → Counted t
  same-Counted s t w r a b h = record { writes = rw (w, a) h.writes; reads = rw (r, b) h.reads }

  enter_push-Counted :
      (v : A) (p : Producer A) (s : System A) → Counted s → Counted (enter_push v p s)
  unfolding enter_push
  enter_push-Counted v outside s h =
      if-elim Counted (is_full s.ring) (λ _. same-Counted s _ refl refl refl refl h)
        (λ _. same-Counted s _ refl refl refl refl h)
  enter_push-Counted v (reloading w) s h = h
  enter_push-Counted v (writing w) s h = h
  enter_push-Counted v (publishing w) s h = h

  enter_pop-Counted : (k : Consumer A) (s : System A) → Counted s → Counted (enter_pop k s)
  unfolding enter_pop
  enter_pop-Counted away s h =
      if-elim Counted (is_empty s.ring) (λ _. same-Counted s _ refl refl refl refl h)
        (λ _. same-Counted s _ refl refl refl refl h)
  enter_pop-Counted rewatching s h = h
  enter_pop-Counted reading s h = h
  enter_pop-Counted (leaving o) s h = h

  accepted_in-one :
      (os : List (Outcome A)) (o : Outcome A) (n : ℕ)
      → accepted_in (o ∷ []) ≡ n
      → accepted_in (os ++ (o ∷ [])) ≡ accepted_in os + n
  accepted_in-one os o n e = omega (arith, accepted_in-append os (o ∷ []), e)

  taken_in-one :
      (os : List (Outcome A)) (o : Outcome A) (n : ℕ)
      → taken_in (o ∷ []) ≡ n
      → taken_in (os ++ (o ∷ [])) ≡ taken_in os + n
  taken_in-one os o n e = omega (arith, taken_in-append os (o ∷ []), e)

  producer_step-Counted : (p : Producer A) (s : System A) → Counted s → Counted (producer_step p s)
  unfolding producer_step did accepted_in taken_in
  producer_step-Counted outside s h = h
  producer_step-Counted (reloading v) s h =
      let a = accepted_in-one s.outcomes (pushed false) 0 refl in
      let b = taken_in-one s.outcomes (pushed false) 0 refl in
      if-elim Counted (is_full (record s.ring { read_cache = s.ring.read }))
        (λ _. same-Counted s _ refl refl (omega (arith, a)) (omega (arith, b)) h)
        (λ _. same-Counted s _ refl refl refl refl h)
  producer_step-Counted (writing v) s h = same-Counted s _ refl refl refl refl h
  producer_step-Counted (publishing v) s h = record {
    writes = omega (arith, h.writes, accepted_in-one s.outcomes (pushed true) 1 refl);
    reads = omega (arith, h.reads, taken_in-one s.outcomes (pushed true) 0 refl);
  }

  consumer_step-Counted :
      (size : ℕ) (k : Consumer A) (s : System A)
      → s.consumer ≡ k
      → Good size s
      → Counted s
      → Counted (consumer_step k s)
  unfolding consumer_step did accepted_in taken_in Consumes
  consumer_step-Counted size away s e g h = h
  consumer_step-Counted size rewatching s e g h =
      let a = accepted_in-one s.outcomes (popped none) 0 refl in
      let b = taken_in-one s.outcomes (popped none) 0 refl in
      if-elim Counted (is_empty (record s.ring { write_cache = s.ring.write }))
        (λ _. same-Counted s _ refl refl (omega (arith, a)) (omega (arith, b)) h)
        (λ _. same-Counted s _ refl refl refl refl h)
  consumer_step-Counted size reading s e g h = same-Counted s _ refl refl refl refl h
  consumer_step-Counted size (leaving o) s e g h =
      let (ahead, (x, (xs, (front, read)))) = subst (Consumes g.counts g.items) e g.consumes in
      let a = accepted_in-one s.outcomes (popped o) 0 refl in
      let b = taken_in-one s.outcomes (popped o) 1 (ap (λ t. taken_in (popped t ∷ [])) read) in
      record { writes = omega (arith, h.writes, a); reads = omega (arith, h.reads, b) }

  act-Counted :
      (size : ℕ) (a : Action A) (s : System A) → Good size s → Counted s → Counted (act a s)
  unfolding act
  act-Counted size (enters_push v) s g h = enter_push-Counted v s.producer s h
  act-Counted size producer_moves s g h = producer_step-Counted s.producer s h
  act-Counted size enters_pop s g h = enter_pop-Counted s.consumer s h
  act-Counted size consumer_moves s g h = consumer_step-Counted size s.consumer s refl g h

  interleave-Counted :
      (size : ℕ) (actions : List (Action A)) (s : System A)
      → Good size s
      → Counted s
      → Counted (interleave actions s)
  unfolding interleave
  interleave-Counted size [] s g h = h
  interleave-Counted size (a ∷ actions) s g h =
      interleave-Counted size actions (act a s) (act-Good size a s g) (act-Counted size a s g h)

  reached-Counted :
      (fill : A) (capacity : ℕ) (actions : List (Action A))
      → capacity ≤ 2 ^ 63
      → Counted (reached fill capacity actions)
  unfolding new accepted_in taken_in
  reached-Counted fill capacity actions h =
      interleave-Counted (round_up_pow2 capacity) actions (start fill capacity)
        (start-Good fill capacity h) (record { writes = omega arith; reads = omega arith })

  -- What size() returns when it loads `write_` after the steps `first` and `read_` after more steps.
  unfoldable pub size_while : A → ℕ → (first later : List (Action A)) → ℕ
  unfolding size_across
  size_while fill capacity first later =
      size_across (reached fill capacity first).ring (reached fill capacity (first ++ later)).ring

  -- A third thread's size() on a ring of capacity at most 2^63, whose two loads have any steps of
  -- the producer and the consumer in between: when the consumer has by the second load taken `n`
  -- more items than had been pushed by the first, with 1 ≤ n ≤ 2^64, the result is 2^64 - n.
  pub size_while-wraps :
      (fill : A) (capacity : ℕ) (first later : List (Action A)) (n : ℕ)
      → capacity ≤ 2 ^ 63
      → 1 ≤ n
      → n ≤ 2 ^ 64
      → taken_in (reached fill capacity (first ++ later)).outcomes
        ≡ accepted_in (reached fill capacity first).outcomes + n
      → size_while fill capacity first later ≡ 2 ^ 64 - n
  unfolding size_while size_across
  size_while-wraps fill capacity first later n h some_more few e =
      let p = reached-Counted fill capacity first h in
      let q = reached-Counted fill capacity (first ++ later) h in
      omega (arith, p.writes, q.reads, e)
