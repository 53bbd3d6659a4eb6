-- ===== src/Queue/Tests.antt =====
-- Runs of BoundedQueue (code/tests/test_bounded_queue.cpp has such cases) and instances of the theorems.
use mw_study.Prelude.{
  ℕ, ◌≤◌, ◌<◌, ◌≡◌, refl, ◌↔◌, ◌⊎◌, Bool, true, false, List, [], ◌∷◌, arith, none, some,
}
use mw_study.Queue.{
  Queue, block, drop_oldest, never, immediate, at, new, push_until, pop_until, close, clear, ok,
  full, returned, sleeping,
}
use mw_study.Queue.Run.{Call, start_push, start_pop, closes, clears, step, run}
use mw_study.Queue.Invariant.{IsValid, run-IsValid}
use mw_study.Queue.Fifo.{Accounts, run-Accounts}
use mw_study.Queue.Blocking.{push_until-sleeping_iff, pop_until-sleeping_iff, pops, pops-closed}
use mw_study.Queue.Threads.{System, push_returns, push_sleeps, nobody, start, Reach, here, next}
use mw_study.Queue.Wakeup.{no_lost_wakeup}

abbrev small : Queue ℕ
small = record {
  items = 1 ∷ 2 ∷ [];
  capacity = 2;
  policy = drop_oldest;
  is_closed = false;
  dropped = 0;
  high_water = 2;
}

abbrev blocking : Queue ℕ
blocking = record small { policy = block }

abbrev finished : Queue ℕ
finished = record small { is_closed = true }

abbrev script : List (ℕ × Call ℕ)
script =
    (0, start_push 3 never)
    ∷ (0, start_pop immediate)
    ∷ (5, start_push 4 (at 9))
    ∷ (6, closes)
    ∷ (7, start_push 5 never)
    ∷ (8, clears)
    ∷ []

drop_oldest_keeps_latest : (push_until 3 never 0 small).0.items ≡ 2 ∷ 3 ∷ []
unfolding push_until
drop_oldest_keeps_latest = refl

try_push_full : (push_until 3 immediate 0 blocking).2 ≡ returned full
unfolding push_until
try_push_full = refl

timed_push_full :
    ((push_until 3 (at 5) 4 blocking).2 ≡ sleeping)
    × ((push_until 3 (at 5) 5 blocking).2 ≡ returned full)
unfolding push_until
timed_push_full = (refl, refl)

script_log : (run script small).1.left ≡ 1 ∷ 2 ∷ 3 ∷ 4 ∷ []
unfolding run step push_until pop_until close clear
script_log = refl

run-IsValid_example : IsValid (run script small).0
run-IsValid_example = run-IsValid script (omega arith)

run-Accounts_example : Accounts small (run script small)
run-Accounts_example = run-Accounts script small (omega arith)

push_until-sleeping_iff_example :
    ((push_until 3 (at 5) 4 blocking).2 ≡ sleeping)
    ↔ ((blocking.is_closed ≡ false) × (2 ≤ 2) × (blocking.policy ≡ block) × (4 < 5))
push_until-sleeping_iff_example = push_until-sleeping_iff 3 (at 5) 4 blocking

pop_until-sleeping_iff_example :
    ((pop_until never 4 small).1 ≡ sleeping)
    ↔ ((small.is_closed ≡ false) × (small.items ≡ []) × Unit {0})
pop_until-sleeping_iff_example = pop_until-sleeping_iff never 4 small

pops-closed_example :
    ((pops ((0, never) ∷ (1, at 4) ∷ (2, never) ∷ []) finished).1
      ≡ returned (some 1) ∷ returned (some 2) ∷ returned none ∷ [])
    × ((pops ((0, never) ∷ (1, at 4) ∷ (2, never) ∷ []) finished).0.items ≡ [])
pops-closed_example = pops-closed ((0, never) ∷ (1, at 4) ∷ (2, never) ∷ []) finished refl

abbrev one_blocked : System ℕ
one_blocked = record (start 1 block) {
  queue = record {
    items = 7 ∷ [];
    capacity = 1;
    policy = block;
    is_closed = false;
    dropped = 0;
    high_water = 1;
  };
  pushers_asleep = (8, none) ∷ [];
}

-- One producer fills a queue of one slot, the next one sleeps.
one_blocked-Reach : Reach (start 1 block) one_blocked
unfolding new push_until
one_blocked-Reach =
    next (next here (push_returns 7 never 0 ok [] [] refl (nobody refl refl refl refl)))
      (push_sleeps 8 none 0 refl)

no_lost_wakeup_example :
    (0 < 1 → (◌≡◌ {A = Bool} false false) × (1 ≤ 1))
    × (0 < 0 → (◌≡◌ {A = Bool} false false) × (◌≡◌ {A = ℕ} 1 0))
    × ((◌≡◌ {A = ℕ} 1 0) ⊎ (◌≡◌ {A = ℕ} 0 0))
no_lost_wakeup_example =
    no_lost_wakeup 1 block one_blocked-Reach
      (record { no_pusher = refl; no_popper = refl; none_closing = refl })
