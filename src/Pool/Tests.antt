-- ===== src/Pool/Tests.antt =====
-- The pool at concrete values. (code/include/rdb/msg/buffer_pool.h)
use mw_study.Prelude.{◌≡◌, ◌↔◌, refl, some, none, List, [], ◌∷◌, arith}
use mw_study.Pool.{
  Action, BufferPool, create, acquires, drops, resizes, destroys, acquire, in_use, run,
}
use mw_study.Pool.Conserve.{Conserved, run_created-Conserved, acquire-none_iff}

-- Two buffers: the third acquire finds none; one is given back; the pool goes before the other.
abbrev actions : List Action
actions = acquires ∷ acquires ∷ acquires ∷ resizes 0 64 ∷ drops 1 ∷ destroys ∷ drops 0 ∷ []

run_created-Conserved_example :
    Conserved 64 2 (run actions (record { pool = some (create 64 2); handed = [] }))
run_created-Conserved_example = run_created-Conserved 64 2 actions

abbrev used_up : BufferPool
used_up = record { free = []; buffer_bytes = 64; total = 2; exhausted = 0 }

acquire-none_iff_example : ((acquire used_up).1 ≡ none) ↔ (in_use used_up ≡ 2)
acquire-none_iff_example = acquire-none_iff used_up 2 refl (omega arith)
