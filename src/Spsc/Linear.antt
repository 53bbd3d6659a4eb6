-- ===== src/Spsc/Linear.antt =====
-- The interleaved calls of a SpscRing take effect one after the other.
-- (code/include/rdb/concurrency/spsc_ring.h)
pub mod Producing
pub mod Consuming
use Prim.{Unit, tt}
use mw_study.Prelude.{
  ℕ, suc, ◌+◌, ◌-◌, ◌%◌, ◌^◌, ◌≤◌, ◌<◌, ◌≡◌, ◌≢◌, refl, ap, sym, ◌∙◌, subst, Bool, true, false,
  Option, none, some, List, [], ◌∷◌, ◌++◌, arith, ltb, ◌==◌, if◌then◌else◌, if-elim, length,
  get_elem?, set, bit_and, u64,
}
use native.Mathlib.Nat.{mod-lt}
use mw_study.Spsc.{Ring, round_up_pow2, new, is_full, is_empty}
use mw_study.Spsc.Smear.{round_up_pow2-least}
use mw_study.Spsc.Rep.{
  Counts, RepAt, fill-RepAt, publish-RepAt, front-RepAt, take-RepAt, reload-RepAt, rewatch-RepAt,
  size_of, write_slot, read_slot, add-mod_ne,
}
use mw_study.Spsc.Calls.{is_full-seen, is_empty-seen}
use mw_study.Spsc.Refine.{
  Call, pushes, pops, Outcome, pushed, popped, bounded_push, front_pop, run_queue, new-Rep,
  bounded_push-room, bounded_push-full,
}
use mw_study.Spsc.Threads.{
  Producer, outside, reloading, writing, publishing, Consumer, away, rewatching, reading, leaving,
  System, Action, enters_push, producer_moves, enters_pop, consumer_moves, start, did, enter_push,
  producer_step, enter_pop, consumer_step, act, interleave,
}
use mw_study.Spsc.Seen.{room_seen, full_seen, item_seen, empty_seen}
use mw_study.Spsc.Knows.{
  queue_call, Produces, Consumes, Good, replay-did, Consumes-append, Consumes-counts,
  Produces-counts,
}
use mw_study.Spsc.Linear.Producing.{enter_push-Good, producer_step-Good}
use mw_study.Spsc.Linear.Consuming.{enter_pop-Good, consumer_step-Good}

module _ {ℓ} {A : Type ℓ} where
  -- A new ring after a schedule.
  abbrev pub reached : A → ℕ → List (Action A) → System A
  reached fill capacity actions = interleave actions (start fill capacity)

  -- The slots that the next push writes and the next pop reads.
  unfoldable pub Apart : Ring A → Type 0
  Apart r =
      (bit_and r.write r.mask ≢ bit_and r.read r.mask)
      × (bit_and r.write r.mask < length r.slots)
      × (bit_and r.read r.mask < length r.slots)

  pub act-Good : (size : ℕ) (a : Action A) (s : System A) → Good size s → Good size (act a s)
  unfolding act
  act-Good size (enters_push v) s h = enter_push-Good size v s.producer s refl h
  act-Good size producer_moves s h = producer_step-Good size s.producer s refl h
  act-Good size enters_pop s h = enter_pop-Good size s.consumer s refl h
  act-Good size consumer_moves s h = consumer_step-Good size s.consumer s refl h

  pub interleave-Good :
      (size : ℕ) (actions : List (Action A)) (s : System A)
      → Good size s
      → Good size (interleave actions s)
  unfolding interleave
  interleave-Good size [] s h = h
  interleave-Good size (a ∷ actions) s h =
      interleave-Good size actions (act a s) (act-Good size a s h)

  pub start-Good :
      (fill : A) (capacity : ℕ)
      → capacity ≤ 2 ^ 63
      → Good (round_up_pow2 capacity) (start fill capacity)
  unfolding Produces Consumes run_queue
  start-Good fill capacity h =
      let (bits, (some_bits, few, power, fits, least)) = round_up_pow2-least capacity h in
      let (rep, size) = new-Rep fill capacity bits power few in
      record {
        counts = rep.counts;
        items = [];
        rep = rep.rep;
        sized = size ∙ sym power;
        produces = tt;
        consumes = tt;
        replay = refl;
      }

  -- However the steps of the two threads interleave, what the calls return is what a
  -- first-in-first-out queue of at most round_up_pow2 of the capacity returns to the same calls,
  -- taken one after the other in the order in which each had its effect, between its entry and its
  -- return. This is for a new ring with a capacity of at most 2^63.
  pub interleave-run_queue :
      (fill : A) (capacity : ℕ) (actions : List (Action A))
      → capacity ≤ 2 ^ 63
      → (run_queue (round_up_pow2 capacity) (reached fill capacity actions).history []).1
        ≡ (reached fill capacity actions).outcomes
  interleave-run_queue fill capacity actions h =
      let size = round_up_pow2 capacity in
      let k = interleave-Good size actions (start fill capacity) (start-Good fill capacity h) in
      ap (λ (p : List A × List (Outcome A)). p.1) k.replay

  -- However the steps interleave on a new ring with a capacity of at most 2^63, when the producer is
  -- about to write a slot and the consumer about to read one, these are not the same slot, and both
  -- are slots of the ring.
  pub writing-reading_ne :
      (fill : A) (capacity : ℕ) (actions : List (Action A)) (v : A)
      → capacity ≤ 2 ^ 63
      → (reached fill capacity actions).producer ≡ writing v
      → (reached fill capacity actions).consumer ≡ reading
      → Apart (reached fill capacity actions).ring
  unfolding Produces Consumes Apart
  writing-reading_ne fill capacity actions v h e f =
      let s = reached fill capacity actions in
      let k =
        interleave-Good (round_up_pow2 capacity) actions (start fill capacity)
          (start-Good fill capacity h) in
      let c = k.counts in
      let n = 2 ^ c.bits in
      let (one, small) = size_of c.bits k.rep.bits_small in
      let (u, room) = subst (Produces c s.ring) e k.produces in
      let (w, ahead) = subst (Consumes c k.items) f k.consumes in
      let apart : (c.taken + (c.written - c.taken)) % n ≢ c.taken % n =
        add-mod_ne c.taken (c.written - c.taken) n (omega (arith, ahead, k.rep.known))
          (omega (arith, room, k.rep.behind)) in
      let there : c.taken + (c.written - c.taken) ≡ c.written = omega (arith, k.rep.held) in
      rw (write_slot k.rep, read_slot k.rep, k.rep.slots)
        (
          subst (λ t. t % n ≢ c.taken % n) there apart,
          mod-lt c.written (omega arith),
          mod-lt c.taken (omega arith),
        )
