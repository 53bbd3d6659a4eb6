-- ===== src/Spsc/Knows.antt =====
-- What the two threads on a SpscRing know between their steps.
-- (code/include/rdb/concurrency/spsc_ring.h)
use Prim.{Unit, tt}
use mw_study.Prelude.{
  ℕ, ◌+◌, ◌%◌, ◌^◌, ◌<◌, ◌≡◌, refl, ap, ◌∙◌, some, List, [], ◌∷◌, ◌++◌, arith, get_elem?,
}
use mw_study.Spsc.{Ring}
use mw_study.Spsc.Rep.{Counts, RepAt}
use mw_study.Spsc.Refine.{
  Call, pushes, pops, Outcome, pushed, popped, bounded_push, front_pop, run_queue,
}
use mw_study.Spsc.Threads.{
  Producer, outside, reloading, writing, publishing, Consumer, away, rewatching, reading, leaving,
  System,
}

module _ {ℓ} {A : Type ℓ} where
  -- One more call on the queue.
  unfoldable pub queue_call : ℕ → Call A → List A → List A × Outcome A
  queue_call size (pushes v) items =
      let (next, accepted) = bounded_push size v items in (next, pushed accepted)
  queue_call size pops items = let (next, value) = front_pop items in (next, popped value)

  pub run_queue-snoc :
      (size : ℕ) (calls : List (Call A)) (c : Call A) (items : List A)
      → run_queue size (calls ++ (c ∷ [])) items ≡ (
        (queue_call size c (run_queue size calls items).0).0,
        (run_queue size calls items).1
            ++ ((queue_call size c (run_queue size calls items).0).1 ∷ []),
      )
  unfolding run_queue queue_call
  run_queue-snoc size [] (pushes v) items = refl
  run_queue-snoc size [] pops items = refl
  run_queue-snoc size (pushes v ∷ calls) c items =
      let (next, accepted) = bounded_push size v items in
      ap (λ (p : List A × List (Outcome A)). (p.0, pushed accepted ∷ p.1))
        (run_queue-snoc size calls c next)
  run_queue-snoc size (pops ∷ calls) c items =
      let (next, value) = front_pop items in
      ap (λ (p : List A × List (Outcome A)). (p.0, popped value ∷ p.1))
        (run_queue-snoc size calls c next)

  -- What the producer knows between its steps.
  unfoldable pub Produces : Counts → Ring A → Producer A → Type ℓ
  Produces c r outside = Unit
  Produces c r (reloading v) = Unit
  Produces c r (writing v) = Unit {ℓ} × (c.written < c.seen_taken + 2 ^ c.bits)
  Produces c r (publishing v) =
      (c.written < c.seen_taken + 2 ^ c.bits)
      × (get_elem? r.slots (c.written % 2 ^ c.bits) ≡ some v)

  -- What the consumer knows.
  unfoldable pub Consumes : Counts → List A → Consumer A → Type ℓ
  Consumes c items away = Unit
  Consumes c items rewatching = Unit
  Consumes c items reading = Unit {ℓ} × (c.taken < c.seen_written)
  Consumes c items (leaving o) =
      (c.taken < c.seen_written) × ((x : A) × ((xs : List A) × ((items ≡ x ∷ xs) × (o ≡ some x))))

  -- The ring holds what the queue does after the calls that have taken effect.
  pub record Good (size : ℕ) (s : System A) : Type ℓ where
    pub counts : Counts
    pub items : List A
    pub rep : RepAt counts s.ring items
    pub sized : s.ring.mask + 1 ≡ size
    pub produces : Produces counts s.ring s.producer
    pub consumes : Consumes counts items s.consumer
    pub replay : run_queue size s.history [] ≡ (items, s.outcomes)

  pub replay-did :
      (size : ℕ) (calls : List (Call A)) (outs : List (Outcome A)) (items next : List A)
      (c : Call A) (o : Outcome A)
      → run_queue size calls [] ≡ (items, outs)
      → queue_call size c items ≡ (next, o)
      → run_queue size (calls ++ (c ∷ [])) [] ≡ (next, outs ++ (o ∷ []))
  replay-did size calls outs items next c o e k =
      run_queue-snoc size calls c []
      ∙ ap
          (λ (p : List A × List (Outcome A)).
            ((queue_call size c p.0).0, p.1 ++ ((queue_call size c p.0).1 ∷ [])))
          e
      ∙ ap (λ (p : List A × Outcome A). (p.0, outs ++ (p.1 ∷ []))) k

  -- A push leaves the consumer what it knows.
  pub Consumes-append :
      (c : Counts) (items : List A) (v : A) (k : Consumer A)
      → Consumes c items k
      → Consumes (record c { written = c.written + 1 }) (items ++ (v ∷ [])) k
  unfolding Consumes
  Consumes-append c items v away h = tt
  Consumes-append c items v rewatching h = tt
  Consumes-append c items v reading h = h
  Consumes-append c items v (leaving o) (ahead, (x, (xs, (e, read)))) =
      (ahead, (x, (xs ++ (v ∷ []), (ap (λ l. l ++ (v ∷ [])) e, read))))

  -- That the producer looks again changes nothing that the consumer knows.
  pub Consumes-counts :
      (c d : Counts) (items : List A) (k : Consumer A)
      → c.taken ≡ d.taken
      → c.seen_written ≡ d.seen_written
      → Consumes c items k
      → Consumes d items k
  unfolding Consumes
  Consumes-counts c d items away t s h = tt
  Consumes-counts c d items rewatching t s h = tt
  Consumes-counts c d items reading t s (u, ahead) = (u, omega (arith, t, s, ahead))
  Consumes-counts c d items (leaving o) t s (ahead, rest) = (omega (arith, t, s, ahead), rest)

  pub Produces-counts :
      (c d : Counts) (q r : Ring A) (p : Producer A)
      → c.written ≡ d.written
      → c.seen_taken ≡ d.seen_taken
      → c.bits ≡ d.bits
      → q.slots ≡ r.slots
      → Produces c q p
      → Produces d r p
  unfolding Produces
  Produces-counts c d q r outside w s b l h = tt
  Produces-counts c d q r (reloading v) w s b l h = tt
  Produces-counts c d q r (writing v) w s b l (u, room) = (u, rw (← w, ← s, ← b) room)
  Produces-counts c d q r (publishing v) w s b l (room, there) =
      (rw (← w, ← s, ← b) room, rw (← w, ← b, ← l) there)
