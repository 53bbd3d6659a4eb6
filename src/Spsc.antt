-- ===== src/Spsc.antt =====
-- code/include/rdb/concurrency/spsc_ring.h: the ring of one producer and one consumer.
-- Here each call is a step of its own, in the order of the source; Spsc.Threads splits the calls.
pub mod Rep
pub mod Calls
pub mod Smear
pub mod Refine
pub mod Threads
pub mod Seen
pub mod Knows
pub mod Linear
pub mod WaitFree
pub mod SizeAcross
mod Tests
mod ThreadsTests
use mw_study.Prelude.{
  ℕ, zero, suc, ◌+◌, ◌-◌, ◌*◌, ◌^◌, Bool, true, false, Option, none, List, ltb, ◌==◌, if◌then◌else◌,
  get_elem?, set, replicate, bit_or, bit_and, u64, sub64, ◌>>>◌,
}

-- The loop over `shift`, which doubles while it is below 64.
unfoldable pub smear : (fuel shift v : ℕ) → ℕ
smear zero shift v = v
smear (suc f) shift v =
    let rest = smear f (shift * 2) (bit_or v (v >>> shift)) in if ltb shift 64 then rest else v

unfoldable pub round_up_pow2 : ℕ → ℕ
round_up_pow2 v = if ltb v 2 then 2 else u64 (smear 7 1 (v - 1) + 1)

pub record Ring {ℓ} (A : Type ℓ) : Type ℓ where
  pub mask : ℕ
  pub slots : List A
  pub write : ℕ
  pub read_cache : ℕ
  pub read : ℕ
  pub write_cache : ℕ

module _ {ℓ} {A : Type ℓ} where
  -- `fill` is `T()`.
  pub new : A → ℕ → Ring A
  new fill capacity =
      let mask = sub64 (round_up_pow2 capacity) 1 in
      record {
        mask = mask;
        slots = replicate (u64 (mask + 1)) fill;
        write = 0;
        read_cache = 0;
        read = 0;
        write_cache = 0;
      }

  pub capacity : Ring A → ℕ
  capacity r = u64 (r.mask + 1)

  -- The end of `push`: the slot and then the index.
  pub store : A → Ring A → Ring A
  store value r = record r {
    slots = set r.slots (bit_and r.write r.mask) value;
    write = u64 (r.write + 1);
  }

  pub is_full : Ring A → Bool
  unfolding capacity
  is_full r = sub64 r.write r.read_cache == capacity r

  pub push : A → Ring A → Ring A × Bool
  unfolding store is_full
  push value r =
      let reloaded : Ring A = record r { read_cache = r.read } in
      if is_full r
      then if is_full reloaded then (reloaded, false) else (store value reloaded, true)
      else (store value r, true)

  -- The end of `pop`; the slot keeps what a move leaves there.
  pub load : Ring A → Ring A × Option A
  load r = (record r { read = u64 (r.read + 1) }, get_elem? r.slots (bit_and r.read r.mask))

  pub is_empty : Ring A → Bool
  is_empty r = r.read == r.write_cache

  -- `none` is the return of `false`.
  pub pop : Ring A → Ring A × Option A
  unfolding load is_empty
  pop r =
      let reloaded : Ring A = record r { write_cache = r.write } in
      if is_empty r then if is_empty reloaded then (reloaded, none) else load reloaded else load r

  pub size : Ring A → ℕ
  size r = sub64 r.write r.read

  pub empty : Ring A → Bool
  unfolding size
  empty r = size r == 0
