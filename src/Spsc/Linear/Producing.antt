-- ===== src/Spsc/Linear/Producing.antt =====
-- What a step of the producer leaves true. (code/include/rdb/concurrency/spsc_ring.h)
use Prim.{tt}
use mw_study.Prelude.{
  ℕ, ◌≤◌, ◌≡◌, refl, ap, subst, Bool, true, false, List, [], ◌∷◌, ◌++◌, arith, if-elim, length,
}
use mw_study.Spsc.{Ring, is_full}
use mw_study.Spsc.Rep.{Counts, RepAt, fill-RepAt, publish-RepAt, reload-RepAt, size_of}
use mw_study.Spsc.Refine.{pushes, pushed, bounded_push-room, bounded_push-full}
use mw_study.Spsc.Threads.{
  Producer, outside, reloading, writing, publishing, System, did, enter_push, producer_step,
}
use mw_study.Spsc.Seen.{room_seen, full_seen}
use mw_study.Spsc.Knows.{queue_call, Produces, Good, replay-did, Consumes-append, Consumes-counts}

module _ {ℓ} {A : Type ℓ} where
  pub enter_push-Good :
      (size : ℕ) (v : A) (p : Producer A) (s : System A)
      → s.producer ≡ p
      → Good size s
      → Good size (enter_push v p s)
  unfolding enter_push Produces
  enter_push-Good size v outside s e h =
      if-elim (Good size) (is_full s.ring)
        (λ f. record {
          counts = h.counts;
          items = h.items;
          rep = h.rep;
          sized = h.sized;
          produces = tt;
          consumes = h.consumes;
          replay = h.replay;
        })
        (λ f. record {
          counts = h.counts;
          items = h.items;
          rep = h.rep;
          sized = h.sized;
          produces = (tt, room_seen h.counts s.ring h.items h.rep f);
          consumes = h.consumes;
          replay = h.replay;
        })
  enter_push-Good size v (reloading w) s e h = h
  enter_push-Good size v (writing w) s e h = h
  enter_push-Good size v (publishing w) s e h = h

  pub producer_step-Good :
      (size : ℕ) (p : Producer A) (s : System A)
      → s.producer ≡ p
      → Good size s
      → Good size (producer_step p s)
  unfolding producer_step did Produces queue_call
  producer_step-Good size outside s e h = h
  producer_step-Good size (reloading v) s e h =
      let c : Counts = record h.counts { seen_taken = h.counts.taken } in
      let ring : Ring A = record s.ring { read_cache = s.ring.read } in
      let rep : RepAt c ring h.items = reload-RepAt h.rep in
      let consumes = Consumes-counts h.counts c h.items s.consumer refl refl h.consumes in
      if-elim (Good size) (is_full ring)
        (λ f. record {
          counts = c;
          items = h.items;
          rep = rep;
          sized = h.sized;
          produces = tt;
          consumes = consumes;
          replay =
              replay-did size s.history s.outcomes h.items h.items (pushes v) (pushed false)
                h.replay
                (ap (λ (q : List A × Bool). (q.0, pushed q.1))
                  (bounded_push-full size v h.items (
                    subst (λ n. n ≤ length h.items) h.sized
                      (full_seen c ring h.items rep refl f))));
        })
        (λ f. record {
          counts = c;
          items = h.items;
          rep = rep;
          sized = h.sized;
          produces = (tt, room_seen c ring h.items rep f);
          consumes = consumes;
          replay = h.replay;
        })
  producer_step-Good size (writing v) s e h =
      let (u, room) = subst (Produces h.counts s.ring) e h.produces in
      let (rep, there) = fill-RepAt v h.rep room _ refl in
      record {
        counts = h.counts;
        items = h.items;
        rep = rep;
        sized = h.sized;
        produces = (room, there);
        consumes = h.consumes;
        replay = h.replay;
      }
  producer_step-Good size (publishing v) s e h =
      let (room, there) = subst (Produces h.counts s.ring) e h.produces in
      let (one, small) = size_of h.counts.bits h.rep.bits_small in
      record {
        counts = _;
        items = h.items ++ (v ∷ []);
        rep = publish-RepAt v h.rep room there;
        sized = h.sized;
        produces = tt;
        consumes = Consumes-append h.counts h.items v s.consumer h.consumes;
        replay =
            replay-did size s.history s.outcomes h.items (h.items ++ (v ∷ [])) (pushes v)
              (pushed true) h.replay
              (ap (λ (q : List A × Bool). (q.0, pushed q.1))
                (bounded_push-room size v h.items
                  (omega (arith, room, h.rep.held, h.rep.behind, h.rep.mask, h.sized))));
      }
