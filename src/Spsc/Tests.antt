-- ===== src/Spsc/Tests.antt =====
-- The ring at concrete values. (code/include/rdb/concurrency/spsc_ring.h)
use mw_study.Prelude.{
  ℕ, ◌+◌, ◌^◌, ◌≤◌, ◌<◌, ◌*◌, ◌^◌, ◌≡◌, refl, true, false, some, none, List, [], ◌∷◌, arith,
}
use mw_study.Spsc.{round_up_pow2, smear, new}
use mw_study.Spsc.Smear.{round_up_pow2-least}
use mw_study.Spsc.Refine.{Call, pushes, pops, pushed, popped, run, run_queue, run-run_queue}

sizes : (round_up_pow2 0 ≡ 2) × (round_up_pow2 5 ≡ 8) × (round_up_pow2 (2 ^ 40 + 1) ≡ 2 ^ 41)
unfolding round_up_pow2 smear
sizes = (refl, refl, refl)

-- Three pushes into a ring of two, and three pops.
abbrev calls : List (Call ℕ)
calls = pushes 7 ∷ pushes 8 ∷ pushes 9 ∷ pops ∷ pops ∷ pops ∷ []

queue_run :
    (run_queue 2 calls []).1
    ≡ pushed true
      ∷ pushed true
      ∷ pushed false
      ∷ popped (some 7)
      ∷ popped (some 8)
      ∷ popped none
      ∷ []
unfolding run_queue
queue_run = refl

ring_run : (run calls (new 0 2)).1 ≡ (run_queue (round_up_pow2 2) calls []).1
ring_run = run-run_queue 0 2 calls (omega arith)

round_up_pow2-least_example :
    (bits : ℕ) × ((1 ≤ bits)
      × (bits ≤ 63)
      × (round_up_pow2 5 ≡ 2 ^ bits)
      × (5 ≤ 2 ^ bits)
      × (2 < 2 ^ bits → 2 ^ bits < 2 * 5))
round_up_pow2-least_example = round_up_pow2-least 5 (omega arith)
