-- ===== src/Pool/Conserve.antt =====
-- No buffer is lost, handed out twice or resized past its bytes.
-- (code/include/rdb/msg/buffer_pool.h)
use mw_study.Prelude.{
  ℕ, zero, suc, ◌+◌, ◌≤◌, ◌<◌, ◌^◌, ◌≡◌, refl, Option, none, some, Option-cases, inl, inr, List, [],
  ◌∷◌, arith, ◌==◌, if◌then◌else◌, length, ◌↔◌, subst, sub64, length-set, length-replicate,
  get_elem?, set, replicate, AllOf, AllOf-set, AllOf-get,
}
use mw_study.Pool.{
  Buffer, new_buffer, resize, BufferPool, create, acquire_from, acquire, release, deleter, World,
  Action, acquires, destroys, resizes, drops, remove_at, handed_by, acquire_in, act, run, available,
  in_use,
}

-- A buffer in the pool is empty; one in use is within its bytes.
abbrev Spare : ℕ → Buffer → Type 0
Spare bytes b = (b.capacity ≡ bytes) × (b.size ≡ 0)

abbrev Within : ℕ → Buffer → Type 0
Within bytes b = (b.capacity ≡ bytes) × (b.size ≤ bytes)

-- While the pool lives, its buffers are the free ones and those in use.
abbrev pub PoolConserved : (bytes total : ℕ) → Option BufferPool → List Buffer → Type 0
PoolConserved bytes total none handed = Unit
PoolConserved bytes total (some pool) handed =
    (pool.buffer_bytes ≡ bytes)
    × (pool.total ≡ total)
    × (length pool.free + length handed ≡ total)
    × AllOf (Spare bytes) pool.free

pub record Conserved (bytes total : ℕ) (w : World) : Type 0 where
  pub pool : PoolConserved bytes total w.pool w.handed
  pub handed : AllOf (Within bytes) w.handed

remove_at-AllOf :
    (Q : Buffer → Type 0) (i : ℕ) (bs : List Buffer) → AllOf Q bs → AllOf Q (remove_at i bs)
unfolding remove_at
remove_at-AllOf Q i [] h = tt
remove_at-AllOf Q zero (b ∷ bs) h = h.1
remove_at-AllOf Q (suc i) (b ∷ bs) h = (h.0, remove_at-AllOf Q i bs h.1)

length-remove_at :
    (i : ℕ) (bs : List Buffer) {b : Buffer}
    → get_elem? bs i ≡ some b
    → length (remove_at i bs) + 1 ≡ length bs
unfolding remove_at
length-remove_at i [] e = absurd (cc)
length-remove_at zero (b ∷ bs) e = omega arith
length-remove_at (suc i) (b ∷ bs) e = omega (arith, length-remove_at i bs e)

replicate-AllOf : (Q : Buffer → Type 0) (n : ℕ) (b : Buffer) → Q b → AllOf Q (replicate n b)
replicate-AllOf Q zero b h = tt
replicate-AllOf Q (suc n) b h = (h, replicate-AllOf Q n b h)

module _ (bytes total : ℕ) where
  PoolConserved-length :
      (pool : Option BufferPool) (handed rest : List Buffer)
      → PoolConserved bytes total pool handed
      → length rest ≡ length handed
      → PoolConserved bytes total pool rest
  PoolConserved-length none handed rest h e = tt
  PoolConserved-length (some pool) handed rest (same, count, sum, spare) e =
      (same, count, omega arith, spare)

  acquire_from-Conserved :
      (free : List Buffer) (pool : BufferPool) (handed : List Buffer)
      → pool.free ≡ free
      → PoolConserved bytes total (some pool) handed
      → AllOf (Within bytes) handed
      → Conserved bytes total (record {
        pool = some (acquire_from free pool).0;
        handed = handed_by (acquire_from free pool).1 handed;
      })
  unfolding acquire_from handed_by
  acquire_from-Conserved [] pool handed e h k = record { pool = h; handed = k }
  acquire_from-Conserved (raw ∷ rest) pool handed e (same, count, sum, spare) k =
      let (spare_raw, spare_rest) = subst (AllOf (Spare bytes)) e spare in
      let l : length pool.free ≡ length rest + 1 = rw e (omega arith) in
      record {
        pool = (same, count, omega (arith, sum, l), spare_rest);
        handed = ((spare_raw.0, omega arith), k);
      }

  acquire_in-Conserved :
      (pool : Option BufferPool) (w : World)
      → w.pool ≡ pool
      → Conserved bytes total w
      → Conserved bytes total (acquire_in pool w)
  unfolding acquire_in acquire
  acquire_in-Conserved none w e h = h
  acquire_in-Conserved (some pool) w e h =
      acquire_from-Conserved pool.free pool w.handed refl
        (subst (λ p. PoolConserved bytes total p w.handed) e h.pool) h.handed

  deleter-PoolConserved :
      (b : Buffer) (pool : Option BufferPool) (handed rest : List Buffer)
      → PoolConserved bytes total pool handed
      → b.capacity ≡ bytes
      → length rest + 1 ≡ length handed
      → PoolConserved bytes total (deleter b pool) rest
  unfolding deleter release
  deleter-PoolConserved b none handed rest h c l = tt
  deleter-PoolConserved b (some pool) handed rest (same, count, sum, spare) c l =
      (same, count, omega arith, ((c, refl), spare))

  resize-Within : (n : ℕ) (b : Buffer) → Within bytes b → Within bytes (resize n b).0
  unfolding resize
  resize-Within n b h = ground arith

  act-Conserved :
      (a : Action) (w : World) → Conserved bytes total w → Conserved bytes total (act a w)
  unfolding act
  act-Conserved acquires w h = acquire_in-Conserved w.pool w refl h
  act-Conserved destroys w h = record { pool = tt; handed = h.handed }
  act-Conserved (resizes i n) w h = elim (Option-cases (get_elem? w.handed i)) [
    | inl e ↦ rw (act, e) h
    | inr (b, e) ↦
        let k = AllOf-get (Within bytes) w.handed i h.handed e in
        rw (act, e)
          (record {
            pool =
                PoolConserved-length w.pool w.handed (set w.handed i (resize n b).0) h.pool
                  (length-set w.handed i (resize n b).0);
            handed =
                AllOf-set (Within bytes) w.handed i (resize n b).0 h.handed (resize-Within n b k);
          })
  ]
  act-Conserved (drops i) w h = elim (Option-cases (get_elem? w.handed i)) [
    | inl e ↦ rw (act, e) h
    | inr (b, e) ↦
        let k = AllOf-get (Within bytes) w.handed i h.handed e in
        rw (act, e)
          (record {
            pool =
                deleter-PoolConserved b w.pool w.handed (remove_at i w.handed) h.pool k.0
                  (length-remove_at i w.handed e);
            handed = remove_at-AllOf (Within bytes) i w.handed h.handed;
          })
  ]

  run-Conserved :
      (actions : List Action) (w : World)
      → Conserved bytes total w
      → Conserved bytes total (run actions w)
  unfolding run
  run-Conserved [] w h = h
  run-Conserved (a ∷ actions) w h = run-Conserved actions (act a w) (act-Conserved a w h)

abbrev pub at_least_one : ℕ → ℕ
at_least_one n = if n == 0 then 1 else n

create-Conserved :
    (bytes count : ℕ)
    → Conserved
        (at_least_one bytes)
        (at_least_one count)
        (record { pool = some (create bytes count); handed = [] })
unfolding create new_buffer
create-Conserved bytes count = record {
  pool = (
    refl,
    refl,
    omega (arith, length-replicate (at_least_one count) (new_buffer (at_least_one bytes))),
    replicate-AllOf (Spare (at_least_one bytes)) (at_least_one count)
        (new_buffer (at_least_one bytes)) (refl, refl),
  );
  handed = tt;
}

-- After any sequence of acquire, resize, the end of a buffer's last handle, and the end of the pool
-- itself, from a new pool: as long as the pool lives, its free buffers and those in use are together
-- as many as it was made with (at least one), and the free ones are empty; and every buffer in use,
-- also after the pool's end, has the capacity asked for (at least one) and a size within it.
pub run_created-Conserved :
    (bytes count : ℕ) (actions : List Action)
    → Conserved
        (at_least_one bytes)
        (at_least_one count)
        (run actions (record { pool = some (create bytes count); handed = [] }))
run_created-Conserved bytes count actions =
    run-Conserved (at_least_one bytes) (at_least_one count) actions _ (create-Conserved bytes count)

-- In a pool of fewer than 2^64 buffers, whose free buffers and those in use are together its total,
-- acquire returns no buffer exactly when in_use is the total.
pub acquire-none_iff :
    (pool : BufferPool) (used : ℕ)
    → length pool.free + used ≡ pool.total
    → pool.total < 2 ^ 64
    → ((acquire pool).1 ≡ none) ↔ (in_use pool ≡ pool.total)
unfolding acquire acquire_from in_use available
acquire-none_iff pool used e l = from_list pool.free pool refl e l
  where
    from_list :
        (free : List Buffer) (pool : BufferPool)
        → length pool.free ≡ length free
        → length pool.free + used ≡ pool.total
        → pool.total < 2 ^ 64
        → ((acquire_from free pool).1 ≡ none) ↔ (sub64 pool.total (length pool.free) ≡ pool.total)
    from_list [] pool e s l = ((λ _. omega arith), (λ _. refl))
    from_list (x ∷ xs) pool e s l = ((λ k. absurd (cc)), (λ k. absurd (omega arith)))
