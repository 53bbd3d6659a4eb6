-- ===== src/Spsc/Seen.antt =====
-- What a side of a SpscRing can tell by the index of the other that it saw last.
-- (code/include/rdb/concurrency/spsc_ring.h)
use mw_study.Prelude.{
  ◌+◌, ◌-◌, ◌^◌, ◌≤◌, ◌<◌, ◌≡◌, refl, sym, ◌∙◌, true, false, List, [], ◌∷◌, arith, ◌==◌, length,
}
use mw_study.Spsc.{Ring, is_full, is_empty}
use mw_study.Spsc.Rep.{Counts, RepAt, size_of}
use mw_study.Spsc.Calls.{is_full-seen, is_empty-seen}

module _ {ℓ} {A : Type ℓ} where
  -- Not full by the index that was seen last, there is a free slot.
  pub room_seen :
      (c : Counts) (r : Ring A) (items : List A)
      → RepAt c r items
      → is_full r ≡ false
      → c.written < c.seen_taken + 2 ^ c.bits
  room_seen c r items h e =
      let f : (c.written - c.seen_taken == 2 ^ c.bits) ≡ false =
        sym (is_full-seen r items (record { counts = c; rep = h })) ∙ e in
      ground (arith, h.near, h.behind, h.held)

  -- Full by the index just read, it is full.
  pub full_seen :
      (c : Counts) (r : Ring A) (items : List A)
      → RepAt c r items
      → c.seen_taken ≡ c.taken
      → is_full r ≡ true
      → r.mask + 1 ≤ length items
  full_seen c r items h fresh e =
      let (one, small) = size_of c.bits h.bits_small in
      let f : (c.written - c.seen_taken == 2 ^ c.bits) ≡ true =
        sym (is_full-seen r items (record { counts = c; rep = h })) ∙ e in
      let gap : c.written - c.seen_taken ≡ 2 ^ c.bits = ground arith in
      omega (arith, gap, fresh, h.held, h.mask)

  pub item_seen :
      (c : Counts) (r : Ring A) (items : List A)
      → RepAt c r items
      → is_empty r ≡ false
      → c.taken < c.seen_written
  item_seen c r items h e =
      let f : (c.taken == c.seen_written) ≡ false =
        sym (is_empty-seen r items (record { counts = c; rep = h })) ∙ e in
      ground (arith, h.ahead)

  pub empty_seen :
      (c : Counts) (r : Ring A) (items : List A)
      → RepAt c r items
      → c.seen_written ≡ c.written
      → is_empty r ≡ true
      → items ≡ []
  empty_seen c r [] h fresh e = refl
  empty_seen c r (x ∷ xs) h fresh e =
      let f : (c.taken == c.seen_written) ≡ true =
        sym (is_empty-seen r (x ∷ xs) (record { counts = c; rep = h })) ∙ e in
      absurd (ground (arith, h.held, fresh))
