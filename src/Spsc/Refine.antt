-- ===== src/Spsc/Refine.antt =====
-- SpscRing is a bounded first-in-first-out queue. (code/include/rdb/concurrency/spsc_ring.h)
use mw_study.Prelude.{
  ℕ, ◌+◌, ◌-◌, ◌^◌, ◌≤◌, ◌<◌, ◌≡◌, refl, sym, ap, ◌∙◌, Bool, true, false, Option, none, some, List,
  [], ◌∷◌, ◌++◌, arith, ltb, if◌then◌else◌, if-elim, length, length-replicate, subst, u64, sub64,
}
use mw_study.Spsc.{round_up_pow2, new, Ring, capacity, store, is_full, push, load, is_empty, pop}
use mw_study.Spsc.Smear.{round_up_pow2-least}
use mw_study.Spsc.Rep.{Rep, size_of}
use mw_study.Spsc.Seen.{room_seen, full_seen, item_seen, empty_seen}
use mw_study.Spsc.Calls.{store-Rep, load-Rep, reload-Rep, rewatch-Rep}

-- A call, and what it returned.
pub data Call {ℓ} (A : Type ℓ) : Type ℓ where
  pushes : A → Call A
  pops : Call A

pub data Outcome {ℓ} (A : Type ℓ) : Type ℓ where
  pushed : Bool → Outcome A
  popped : Option A → Outcome A

module _ {ℓ} {A : Type ℓ} where
  -- A queue of at most `size` items.
  abbrev pub bounded_push : ℕ → A → List A → List A × Bool
  bounded_push size v items =
      if ltb (length items) size then (items ++ (v ∷ []), true) else (items, false)

  abbrev pub front_pop : List A → List A × Option A
  front_pop [] = ([], none)
  front_pop (x ∷ xs) = (xs, some x)

  -- The ring after a call and what it returned are those of the queue; the size is as it was.
  abbrev pub Follows {κ} : {B : Type κ} → Ring A → Ring A × B → List A × B → Type (ℓ ⊔ κ)
  Follows before r s = Rep r.0 s.0 × (r.1 ≡ s.1) × (r.0.mask ≡ before.mask)

  pub bounded_push-room :
      (size : ℕ) (v : A) (items : List A)
      → length items < size
      → bounded_push size v items ≡ (items ++ (v ∷ []), true)
  bounded_push-room size v items h = ground arith

  pub bounded_push-full :
      (size : ℕ) (v : A) (items : List A)
      → size ≤ length items
      → bounded_push size v items ≡ (items, false)
  bounded_push-full size v items h = ground arith

  -- Seen not to be full, the ring has a free slot.
  push_room-Follows :
      (v : A) (before r : Ring A) (items : List A) (h : Rep r items)
      → r.mask ≡ before.mask
      → is_full r ≡ false
      → Follows before (store v r, true) (bounded_push (before.mask + 1) v items)
  unfolding store
  push_room-Follows v before r items h same e =
      let (one, small) = size_of h.bits h.bits_small in
      let near = room_seen h.counts r items h.rep e in
      let room : length items < before.mask + 1 =
        omega (arith, near, h.behind, h.held, h.mask, same) in
      rw (bounded_push-room (before.mask + 1) v items room) (store-Rep v r items h near, refl, same)

  -- Full by the index just read, it is full.
  push_full-Follows :
      (v : A) (before r : Ring A) (items : List A) (h : Rep r items)
      → r.mask ≡ before.mask
      → h.seen_taken ≡ h.taken
      → is_full r ≡ true
      → Follows before (r, false) (bounded_push (before.mask + 1) v items)
  push_full-Follows v before r items h same fresh e =
      let full : before.mask + 1 ≤ length items =
        rw (← same) (full_seen h.counts r items h.rep fresh e) in
      rw (bounded_push-full (before.mask + 1) v items full) (h, refl, same)

  pub push-Follows :
      (v : A) (r : Ring A) (items : List A)
      → Rep r items
      → Follows r (push v r) (bounded_push (r.mask + 1) v items)
  unfolding push
  push-Follows v r items h =
      let again : Ring A = record r { read_cache = r.read } in
      let (k, fresh) = reload-Rep r items h in
      if-elim (λ p. Follows r p (bounded_push (r.mask + 1) v items)) (is_full r)
        (λ seen_full.
          if-elim (λ p. Follows r p (bounded_push (r.mask + 1) v items)) (is_full again)
            (λ e. push_full-Follows v r again items k refl fresh e)
            (λ e. push_room-Follows v r again items k refl e))
        (λ e. push_room-Follows v r r items h refl e)

  pop_load-Follows :
      (before r : Ring A) (items : List A) (h : Rep r items)
      → r.mask ≡ before.mask
      → is_empty r ≡ false
      → Follows before (load r) (front_pop items)
  unfolding load
  pop_load-Follows before r [] h same e =
      let ahead = item_seen h.counts r [] h.rep e in absurd (omega (arith, ahead, h.known, h.held))
  pop_load-Follows before r (x ∷ xs) h same e =
      let (out, rest) = load-Rep r x xs h (item_seen h.counts r (x ∷ xs) h.rep e) in
      (rest, out, same)

  pop_empty-Follows :
      (before r : Ring A) (items : List A) (h : Rep r items)
      → r.mask ≡ before.mask
      → h.seen_written ≡ h.written
      → is_empty r ≡ true
      → Follows before (r, none) (front_pop items)
  pop_empty-Follows before r items h same fresh e =
      let none_left = empty_seen h.counts r items h.rep fresh e in
      (
        subst (λ l. Rep r l) (none_left ∙ ap (λ l. (front_pop l).0) (sym none_left)) h,
        ap (λ l. (front_pop l).1) (sym none_left),
        same,
      )

  pub pop-Follows :
      (r : Ring A) (items : List A) → Rep r items → Follows r (pop r) (front_pop items)
  unfolding pop
  pop-Follows r items h =
      let again : Ring A = record r { write_cache = r.write } in
      let (k, fresh) = rewatch-Rep r items h in
      if-elim (λ p. Follows r p (front_pop items)) (is_empty r)
        (λ seen_empty.
          if-elim (λ p. Follows r p (front_pop items)) (is_empty again)
            (λ e. pop_empty-Follows r again items k refl fresh e)
            (λ e. pop_load-Follows r again items k refl e))
        (λ e. pop_load-Follows r r items h refl e)

  -- The calls of both threads, in the order in which they happen.
  unfoldable pub run : List (Call A) → Ring A → Ring A × List (Outcome A)
  run [] r = (r, [])
  run (pushes v ∷ calls) r =
      let (r₁, accepted) = push v r in
      let (r₂, outcomes) = run calls r₁ in (r₂, pushed accepted ∷ outcomes)
  run (pops ∷ calls) r =
      let (r₁, value) = pop r in let (r₂, outcomes) = run calls r₁ in (r₂, popped value ∷ outcomes)

  -- The same calls on a queue of at most `size` items.
  unfoldable pub run_queue : ℕ → List (Call A) → List A → List A × List (Outcome A)
  run_queue size [] items = (items, [])
  run_queue size (pushes v ∷ calls) items =
      let (items₁, accepted) = bounded_push size v items in
      let (items₂, outcomes) = run_queue size calls items₁ in (items₂, pushed accepted ∷ outcomes)
  run_queue size (pops ∷ calls) items =
      let (items₁, value) = front_pop items in
      let (items₂, outcomes) = run_queue size calls items₁ in (items₂, popped value ∷ outcomes)

  run-Follows :
      (size : ℕ) (calls : List (Call A)) (r : Ring A) (items : List A)
      → r.mask + 1 ≡ size
      → Rep r items
      → Rep (run calls r).0 (run_queue size calls items).0
        × ((run calls r).1 ≡ (run_queue size calls items).1)
  unfolding run run_queue
  run-Follows size [] r items e h = (h, refl)
  run-Follows size (pushes v ∷ calls) r items e h =
      let (k, out, same) =
        subst (λ n. Follows r (push v r) (bounded_push n v items)) e (push-Follows v r items h) in
      let (rest, outs) = run-Follows size calls (push v r).0 _ (omega (arith, e, same)) k in
      (rest, λ i. pushed (out i) ∷ outs i)
  run-Follows size (pops ∷ calls) r items e h =
      let (k, out, same) = pop-Follows r items h in
      let (rest, outs) = run-Follows size calls (pop r).0 _ (omega (arith, e, same)) k in
      (rest, λ i. popped (out i) ∷ outs i)

  pub new-Rep :
      (fill : A) (capacity bits : ℕ)
      → round_up_pow2 capacity ≡ 2 ^ bits
      → bits ≤ 63
      → Rep (new fill capacity) [] × ((new fill capacity).mask + 1 ≡ 2 ^ bits)
  unfolding new
  new-Rep fill capacity bits e h =
      let (one, small) = size_of bits h in
      let mask : sub64 (round_up_pow2 capacity) 1 ≡ 2 ^ bits - 1 = omega (arith, e) in
      let size : u64 (sub64 (round_up_pow2 capacity) 1 + 1) ≡ 2 ^ bits = omega (arith, e) in
      (
        record {
          counts = record { bits = bits; written = 0; taken = 0; seen_taken = 0; seen_written = 0 };
          rep = record {
            bits_small = h;
            mask = mask;
            slots = length-replicate (u64 (sub64 (round_up_pow2 capacity) 1 + 1)) fill ∙ size;
            write = omega arith;
            read = omega arith;
            read_cache = omega arith;
            write_cache = omega arith;
            held = omega arith;
            bounded = omega arith;
            behind = omega arith;
            near = omega arith;
            ahead = omega arith;
            known = omega arith;
            window = λ i inside. absurd (omega arith);
          };
        },
        omega (arith, e),
      )

  -- A new ring for a capacity of at most 2^63 answers any sequence of pushes and pops as a
  -- first-in-first-out queue of at most round_up_pow2 of that many items does, also when the
  -- 64-bit indices have wrapped around.
  pub run-run_queue :
      (fill : A) (capacity : ℕ) (calls : List (Call A))
      → capacity ≤ 2 ^ 63
      → (run calls (new fill capacity)).1 ≡ (run_queue (round_up_pow2 capacity) calls []).1
  run-run_queue fill capacity calls h =
      let (bits, (some_bits, few, power, fits, least)) = round_up_pow2-least capacity h in
      let (rep, size) = new-Rep fill capacity bits power few in
      (run-Follows (round_up_pow2 capacity) calls (new fill capacity) [] (size ∙ sym power) rep).1
