-- ===== src/Pool.antt =====
-- code/include/rdb/msg/buffer_pool.h: a pool of buffers of one size.
--
-- The head of `free` is the back of `free_`. A BufferPtr is a position in `handed`: the buffers that
-- some handle still holds. The deleter runs when the last handle of a buffer goes.
pub mod Conserve
mod Tests
use mw_study.Prelude.{
  ℕ, zero, suc, ◌+◌, Bool, true, false, Option, none, some, List, [], ◌∷◌, ltb, ◌==◌, if◌then◌else◌,
  length, get_elem?, set, replicate, u64, sub64,
}

-- `Buffer`, its bytes left out: `capacity` is `storage_.size()`.
pub record Buffer : Type 0 where
  pub capacity : ℕ
  pub size : ℕ

pub new_buffer : ℕ → Buffer
new_buffer bytes = record { capacity = bytes; size = 0 }

pub resize : ℕ → Buffer → Buffer × Bool
resize n b = if ltb b.capacity n then (b, false) else (record b { size = n }, true)

pub record BufferPool : Type 0 where
  pub free : List Buffer
  pub buffer_bytes : ℕ
  pub total : ℕ
  pub exhausted : ℕ

-- `create`: the constructor and `preallocate`.
pub create : (buffer_bytes count : ℕ) → BufferPool
unfolding new_buffer
create buffer_bytes count =
    let bytes = if buffer_bytes == 0 then 1 else buffer_bytes in
    let total = if count == 0 then 1 else count in
    record {
      free = replicate total (new_buffer bytes);
      buffer_bytes = bytes;
      total = total;
      exhausted = 0;
    }

unfoldable pub acquire_from : List Buffer → BufferPool → BufferPool × Option Buffer
acquire_from [] pool = (record pool { exhausted = u64 (pool.exhausted + 1) }, none)
acquire_from (raw ∷ rest) pool = (record pool { free = rest }, some (record raw { size = 0 }))

unfoldable pub acquire : BufferPool → BufferPool × Option Buffer
unfolding acquire_from
acquire pool = acquire_from pool.free pool

unfoldable pub release : Buffer → BufferPool → BufferPool
release p pool = record pool { free = record p { size = 0 } ∷ pool.free }

-- The deleter; `none`: the pool is gone, and `delete p`.
pub deleter : Buffer → Option BufferPool → Option BufferPool
unfolding release
deleter p none = none
deleter p (some pool) = some (release p pool)

pub available : BufferPool → ℕ
available pool = length pool.free

pub in_use : BufferPool → ℕ
unfolding available
in_use pool = sub64 pool.total (available pool)

-- The pool, until its last owner lets it go, and the buffers in use.
pub record World : Type 0 where
  pub pool : Option BufferPool
  pub handed : List Buffer

-- What the program does with them; a position is one in `handed`.
pub data Action : Type 0 where
  acquires destroys : Action
  resizes : (i n : ℕ) → Action
  drops : ℕ → Action

pub remove_at : ℕ → List Buffer → List Buffer
remove_at i [] = []
remove_at zero (b ∷ bs) = bs
remove_at (suc i) (b ∷ bs) = b ∷ remove_at i bs

pub handed_by : Option Buffer → List Buffer → List Buffer
handed_by none handed = handed
handed_by (some b) handed = b ∷ handed

pub acquire_in : Option BufferPool → World → World
unfolding acquire handed_by
acquire_in none w = w
acquire_in (some pool) w =
    let (next, got) = acquire pool in record { pool = some next; handed = handed_by got w.handed }

pub act : Action → World → World
unfolding acquire_in resize deleter remove_at
act acquires w = acquire_in w.pool w
act destroys w = record w { pool = none }
act (resizes i n) w = elim (get_elem? w.handed i) [
  | none ↦ w
  | some b ↦ record w { handed = set w.handed i (resize n b).0 }
]
act (drops i) w = elim (get_elem? w.handed i) [
  | none ↦ w
  | some b ↦ record { pool = deleter b w.pool; handed = remove_at i w.handed }
]

pub run : List Action → World → World
unfolding act
run [] w = w
run (a ∷ actions) w = run actions (act a w)
