-- ===== src/Spsc/Calls.antt =====
-- What a call of a SpscRing leaves of what it holds. (code/include/rdb/concurrency/spsc_ring.h)
use mw_study.Prelude.{
  ◌+◌, ◌-◌, ◌^◌, ◌<◌, ◌≡◌, refl, some, List, [], ◌∷◌, ◌++◌, arith, ◌==◌, set, bit_and, u64, sub64,
}
use mw_study.Spsc.{Ring, capacity, store, is_full, load, is_empty}
use mw_study.Spsc.Rep.{
  Rep, size_of, fill-RepAt, publish-RepAt, front-RepAt, take-RepAt, reload-RepAt, rewatch-RepAt,
}

module _ {ℓ} {A : Type ℓ} where
  pub store-Rep :
      (v : A) (r : Ring A) (items : List A) (h : Rep r items)
      → h.written < h.seen_taken + 2 ^ h.bits
      → Rep (store v r) (items ++ (v ∷ []))
  unfolding store
  store-Rep v r items h room =
      let (filled, there) = fill-RepAt v h.rep room (set r.slots (bit_and r.write r.mask) v) refl in
      record { counts = _; rep = publish-RepAt v filled room there }

  pub load-Rep :
      (r : Ring A) (x : A) (items : List A) (h : Rep r (x ∷ items))
      → h.taken < h.seen_written
      → ((load r).1 ≡ some x) × Rep (load r).0 items
  unfolding load
  load-Rep r x items h ahead =
      (front-RepAt x h.rep, record { counts = _; rep = take-RepAt x h.rep ahead })

  -- The test of the producer: full by the index that it saw last.
  pub is_full-seen :
      (r : Ring A) (items : List A) (h : Rep r items)
      → is_full r ≡ (h.written - h.seen_taken == 2 ^ h.bits)
  unfolding is_full capacity
  is_full-seen r items h =
      let (one, small) = size_of h.bits h.bits_small in
      let cap : u64 (r.mask + 1) ≡ 2 ^ h.bits = omega (arith, h.mask) in
      let gap : sub64 r.write r.read_cache ≡ h.written - h.seen_taken =
        omega (arith, h.write, h.read_cache, h.near, h.behind, h.held) in
      rw (cap, gap) refl

  pub is_empty-seen :
      (r : Ring A) (items : List A) (h : Rep r items) → is_empty r ≡ (h.taken == h.seen_written)
  unfolding is_empty
  is_empty-seen r items h =
      let (one, small) = size_of h.bits h.bits_small in
      ground (arith, h.read, h.write_cache, h.ahead, h.known, h.held, h.bounded)

  pub reload-Rep :
      (r : Ring A) (items : List A)
      → Rep r items
      → (k : Rep (record r { read_cache = r.read }) items) × (k.seen_taken ≡ k.taken)
  reload-Rep r items h = (record { counts = _; rep = reload-RepAt h.rep }, refl)

  pub rewatch-Rep :
      (r : Ring A) (items : List A)
      → Rep r items
      → (k : Rep (record r { write_cache = r.write }) items) × (k.seen_written ≡ k.written)
  rewatch-Rep r items h = (record { counts = _; rep = rewatch-RepAt h.rep }, refl)
