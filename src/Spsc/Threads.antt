-- ===== src/Spsc/Threads.antt =====
-- A producer and a consumer thread on one SpscRing, one access of a shared member at a time.
-- (code/include/rdb/concurrency/spsc_ring.h)
-- A thread loads its own index and looks at its own cache in the step that enters the call, as no
-- other thread writes these. The steps of the two threads come in any order, and each sees the last.
use mw_study.Prelude.{
  ℕ, ◌+◌, true, false, Option, none, List, [], ◌∷◌, ◌++◌, if◌then◌else◌, get_elem?, set, bit_and,
  u64, sub64,
}
use mw_study.Spsc.{Ring, new, is_full, is_empty}
use mw_study.Spsc.Refine.{Call, pushes, pops, Outcome, pushed, popped}

-- What the producer does next: load `read_`, write the slot, store `write_`, or nothing.
pub data Producer {ℓ} (A : Type ℓ) : Type ℓ where
  outside : Producer A
  reloading writing publishing : A → Producer A

-- What the consumer does next: load `write_`, read the slot, store `read_`, or nothing.
pub data Consumer {ℓ} (A : Type ℓ) : Type ℓ where
  away rewatching reading : Consumer A
  leaving : Option A → Consumer A

-- `history` and `outcomes` are the calls that have taken effect, in that order, and their returns.
pub record System {ℓ} (A : Type ℓ) : Type ℓ where
  pub ring : Ring A
  pub producer : Producer A
  pub consumer : Consumer A
  pub history : List (Call A)
  pub outcomes : List (Outcome A)

pub data Action {ℓ} (A : Type ℓ) : Type ℓ where
  enters_push : A → Action A
  producer_moves enters_pop consumer_moves : Action A

module _ {ℓ} {A : Type ℓ} where
  abbrev pub start : A → ℕ → System A
  start fill capacity = record {
    ring = new fill capacity;
    producer = outside;
    consumer = away;
    history = [];
    outcomes = [];
  }

  unfoldable pub did : Call A → Outcome A → System A → System A
  did call outcome s = record s {
    history = s.history ++ (call ∷ []);
    outcomes = s.outcomes ++ (outcome ∷ []);
  }

  -- The load of `write_` and the first test.
  unfoldable pub enter_push : A → Producer A → System A → System A
  enter_push value outside s =
      if is_full s.ring
      then record s { producer = reloading value }
      else record s { producer = writing value }
  enter_push value _ s = s

  -- The load of `read_` and the second test; the slot; the store of `write_`.
  unfoldable pub producer_step : Producer A → System A → System A
  unfolding did
  producer_step outside s = s
  producer_step (reloading value) s =
      let ring : Ring A = record s.ring { read_cache = s.ring.read } in
      if is_full ring
      then did (pushes value) (pushed false) (record s { ring = ring; producer = outside })
      else record s { ring = ring; producer = writing value }
  producer_step (writing value) s = record s {
    ring = record s.ring { slots = set s.ring.slots (bit_and s.ring.write s.ring.mask) value };
    producer = publishing value;
  }
  producer_step (publishing value) s =
      did (pushes value) (pushed true)
        (record s { ring = record s.ring { write = u64 (s.ring.write + 1) }; producer = outside })

  -- The load of `read_` and the first test.
  unfoldable pub enter_pop : Consumer A → System A → System A
  enter_pop away s =
      if is_empty s.ring
      then record s { consumer = rewatching }
      else record s { consumer = reading }
  enter_pop _ s = s

  -- The load of `write_` and the second test; the slot; the store of `read_`.
  unfoldable pub consumer_step : Consumer A → System A → System A
  unfolding did
  consumer_step away s = s
  consumer_step rewatching s =
      let ring : Ring A = record s.ring { write_cache = s.ring.write } in
      if is_empty ring
      then did pops (popped none) (record s { ring = ring; consumer = away })
      else record s { ring = ring; consumer = reading }
  consumer_step reading s = record s {
    consumer = leaving (get_elem? s.ring.slots (bit_and s.ring.read s.ring.mask));
  }
  consumer_step (leaving value) s =
      did pops (popped value)
        (record s { ring = record s.ring { read = u64 (s.ring.read + 1) }; consumer = away })

  unfoldable pub act : Action A → System A → System A
  unfolding enter_push producer_step enter_pop consumer_step
  act (enters_push value) s = enter_push value s.producer s
  act producer_moves s = producer_step s.producer s
  act enters_pop s = enter_pop s.consumer s
  act consumer_moves s = consumer_step s.consumer s

  unfoldable pub interleave : List (Action A) → System A → System A
  interleave [] s = s
  interleave (a ∷ actions) s = interleave actions (act a s)

  -- `size()` of a thread that loads `write_` at one moment and `read_` at a later one.
  unfoldable pub size_across : Ring A → Ring A → ℕ
  size_across first second = sub64 first.write second.read
