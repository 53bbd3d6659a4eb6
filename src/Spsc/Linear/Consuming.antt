-- ===== src/Spsc/Linear/Consuming.antt =====
-- What a step of the consumer leaves true. (code/include/rdb/concurrency/spsc_ring.h)
use Prim.{tt}
use mw_study.Prelude.{
  ℕ, ◌+◌, ◌<◌, ◌≡◌, refl, ap, sym, ◌∙◌, subst, Option, none, some, List, [], ◌∷◌, ◌++◌, arith,
  if-elim, length, get_elem?, bit_and, u64,
}
use mw_study.Spsc.{Ring, is_empty}
use mw_study.Spsc.Rep.{Counts, RepAt, front-RepAt, take-RepAt, rewatch-RepAt}
use mw_study.Spsc.Refine.{pops, popped, front_pop, run_queue}
use mw_study.Spsc.Threads.{
  Consumer, away, rewatching, reading, leaving, System, did, enter_pop, consumer_step,
}
use mw_study.Spsc.Seen.{item_seen, empty_seen}
use mw_study.Spsc.Knows.{queue_call, Consumes, Good, replay-did, Produces-counts}

module _ {ℓ} {A : Type ℓ} where
  pub enter_pop-Good :
      (size : ℕ) (k : Consumer A) (s : System A)
      → s.consumer ≡ k
      → Good size s
      → Good size (enter_pop k s)
  unfolding enter_pop Consumes
  enter_pop-Good size away s e h =
      if-elim (Good size) (is_empty s.ring)
        (λ f. record {
          counts = h.counts;
          items = h.items;
          rep = h.rep;
          sized = h.sized;
          produces = h.produces;
          consumes = tt;
          replay = h.replay;
        })
        (λ f. record {
          counts = h.counts;
          items = h.items;
          rep = h.rep;
          sized = h.sized;
          produces = h.produces;
          consumes = (tt, item_seen h.counts s.ring h.items h.rep f);
          replay = h.replay;
        })
  enter_pop-Good size rewatching s e h = h
  enter_pop-Good size reading s e h = h
  enter_pop-Good size (leaving o) s e h = h

  -- What the pop of `x` is on the queue.
  replay-pop :
      (size : ℕ) (s : System A) (items xs : List A) (x : A) (o : Option A)
      → run_queue size s.history [] ≡ (items, s.outcomes)
      → items ≡ x ∷ xs
      → o ≡ some x
      → run_queue size (s.history ++ (pops ∷ [])) [] ≡ (xs, s.outcomes ++ (popped o ∷ []))
  unfolding queue_call
  replay-pop size s items xs x o e k read =
      replay-did size s.history s.outcomes items xs pops (popped o) e (
        ap (λ l. ((front_pop l).0, popped (front_pop l).1)) k ∙ ap (λ t. (xs, popped t)) (sym read))

  replay-pop_none :
      (size : ℕ) (s : System A) (items : List A)
      → run_queue size s.history [] ≡ (items, s.outcomes)
      → items ≡ []
      → run_queue size (s.history ++ (pops ∷ [])) [] ≡ (items, s.outcomes ++ (popped none ∷ []))
  unfolding queue_call
  replay-pop_none size s items e k =
      replay-did size s.history s.outcomes items items pops (popped none) e
        (ap (λ l. ((front_pop l).0, popped (front_pop l).1)) k ∙ ap (λ l. (l, popped none)) (sym k))

  -- What the consumer reads is the first item.
  reading-Good :
      (size : ℕ) (s : System A) (h : Good size s) (items : List A)
      → h.items ≡ items
      → h.counts.taken < h.counts.seen_written
      → Consumes h.counts h.items
          (leaving (get_elem? s.ring.slots (bit_and s.ring.read s.ring.mask)))
  unfolding Consumes
  reading-Good size s h [] e ahead = absurd (omega (arith, h.rep.held, h.rep.known, ap length e))
  reading-Good size s h (x ∷ xs) e ahead =
      (ahead, (x, (xs, (e, front-RepAt x (subst (RepAt h.counts s.ring) e h.rep)))))

  pub consumer_step-Good :
      (size : ℕ) (k : Consumer A) (s : System A)
      → s.consumer ≡ k
      → Good size s
      → Good size (consumer_step k s)
  unfolding consumer_step did Consumes
  consumer_step-Good size away s e h = h
  consumer_step-Good size rewatching s e h =
      let c : Counts = record h.counts { seen_written = h.counts.written } in
      let ring : Ring A = record s.ring { write_cache = s.ring.write } in
      let rep : RepAt c ring h.items = rewatch-RepAt h.rep in
      let produces =
        Produces-counts h.counts c s.ring ring s.producer refl refl refl refl h.produces in
      if-elim (Good size) (is_empty ring)
        (λ f. record {
          counts = c;
          items = h.items;
          rep = rep;
          sized = h.sized;
          produces = produces;
          consumes = tt;
          replay = replay-pop_none size s h.items h.replay (empty_seen c ring h.items rep refl f);
        })
        (λ f. record {
          counts = c;
          items = h.items;
          rep = rep;
          sized = h.sized;
          produces = produces;
          consumes = (tt, item_seen c ring h.items rep f);
          replay = h.replay;
        })
  consumer_step-Good size reading s e h =
      let (u, ahead) = subst (Consumes h.counts h.items) e h.consumes in
      record {
        counts = h.counts;
        items = h.items;
        rep = h.rep;
        sized = h.sized;
        produces = h.produces;
        consumes = reading-Good size s h h.items refl ahead;
        replay = h.replay;
      }
  consumer_step-Good size (leaving o) s e h =
      let (ahead, (x, (xs, (front, read)))) = subst (Consumes h.counts h.items) e h.consumes in
      let c : Counts = record h.counts { taken = h.counts.taken + 1 } in
      let ring : Ring A = record s.ring { read = u64 (s.ring.read + 1) } in
      record {
        counts = c;
        items = xs;
        rep = take-RepAt x (subst (RepAt h.counts s.ring) front h.rep) ahead;
        sized = h.sized;
        produces = Produces-counts h.counts c s.ring ring s.producer refl refl refl refl h.produces;
        consumes = tt;
        replay = replay-pop size s h.items xs x o h.replay front read;
      }
