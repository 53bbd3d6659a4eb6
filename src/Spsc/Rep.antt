-- ===== src/Spsc/Rep.antt =====
-- What a SpscRing holds, by how many pushes and pops there were. (code/include/rdb/concurrency/spsc_ring.h)
use mw_study.Prelude.{
  ℕ, suc, ◌+◌, ◌-◌, ◌*◌, ◌%◌, ◌^◌, ◌≤◌, ◌<◌, ◌≡◌, ◌≢◌, ap, sym, ◌∙◌, some, List, [], ◌∷◌, ◌++◌,
  arith, length, length-append, length-set, set, get_elem?, get_elem?-set_self, get_elem?-set_ne,
  get_elem?-append_lt, get_elem?-append_last, bit_and, u64,
}
use Prim.Native.Nat.{◌∣◌}
use native.Mathlib.Decide.{dec_lt}
use native.Mathlib.Nat.{
  mod-mod_of_dvd, mul-mod_left, dvd_of_mod-eq-zero, mod-add-mod, mod-lt, mod-eq_of_lt,
  mod-eq-sub-mod, one-le-pow, pow-le-pow_right,
}
use mw_study.Prelude.Bits.{bit_and_mask, pow_sum}
use mw_study.Spsc.{Ring}

-- Positions less than the size of the ring apart are different slots.
pub add-mod_ne : (a c n : ℕ) → 0 < c → c < n → (a + c) % n ≢ a % n
add-mod_ne a c n some_apart few =
    let h = mod-lt a {m = n} (omega arith) in
    let p = mod-add-mod a n c in
    elim (dec_lt (a % n + c) n) [
      | yes fits ↦ omega (arith, p, mod-eq_of_lt fits)
      | no over ↦ omega (
        arith,
        p,
        mod-eq-sub-mod {n = a % n + c} {m = n} (omega arith),
        mod-eq_of_lt {n = a % n + c - n} {m = n} (omega arith),
      )
    ]

-- Between one and 2 ^ 63 slots.
pub size_of : (k : ℕ) → k ≤ 63 → (1 ≤ 2 ^ k) × (2 ^ k ≤ 2 ^ 63)
size_of k h = (one-le-pow k 2 (omega arith), pow-le-pow_right {n = 2} (omega arith) h)

pow-dvd : (k : ℕ) → k ≤ 63 → 2 ^ k ∣ 2 ^ 64
pow-dvd k h =
    let e : 64 ≡ (64 - k) + k = omega arith in
    let q : 2 ^ 64 ≡ 2 ^ (64 - k) * 2 ^ k = ap (λ (t : ℕ). 2 ^ t) e ∙ pow_sum (64 - k) k in
    dvd_of_mod-eq-zero (2 ^ k) (ap (λ t. t % 2 ^ k) q ∙ mul-mod_left (2 ^ (64 - k)) (2 ^ k))

slot_of : (n k : ℕ) → k ≤ 63 → bit_and (n % 2 ^ 64) (2 ^ k - 1) ≡ n % 2 ^ k
slot_of n k h = bit_and_mask k (n % 2 ^ 64) ∙ mod-mod_of_dvd (2 ^ k) n (pow-dvd k h)

-- How many pushes and pops there were, and what each side last saw of the other.
pub record Counts : Type 0 where
  pub bits : ℕ
  pub written : ℕ
  pub taken : ℕ
  pub seen_taken : ℕ
  pub seen_written : ℕ

module _ {ℓ} {A : Type ℓ} where
  -- The ring holds `items`; its indices are what 64 bits show of the counts.
  pub record RepAt (c : Counts) (r : Ring A) (items : List A) : Type ℓ where
    pub bits_small : c.bits ≤ 63
    pub mask : r.mask ≡ 2 ^ c.bits - 1
    pub slots : length r.slots ≡ 2 ^ c.bits
    pub write : r.write ≡ c.written % 2 ^ 64
    pub read : r.read ≡ c.taken % 2 ^ 64
    pub read_cache : r.read_cache ≡ c.seen_taken % 2 ^ 64
    pub write_cache : r.write_cache ≡ c.seen_written % 2 ^ 64
    pub held : c.written ≡ c.taken + length items
    pub bounded : length items ≤ 2 ^ c.bits
    pub behind : c.seen_taken ≤ c.taken
    pub near : c.written ≤ c.seen_taken + 2 ^ c.bits
    pub ahead : c.taken ≤ c.seen_written
    pub known : c.seen_written ≤ c.written
    pub window :
        (i : ℕ)
        → i < length items
        → get_elem? r.slots ((c.taken + i) % 2 ^ c.bits) ≡ get_elem? items i

  pub record Rep (r : Ring A) (items : List A) : Type ℓ where
    pub counts : Counts
    pub open counts use *
    pub rep : RepAt counts r items
    pub open rep use *

  module _ {c : Counts} {r : Ring A} where
    -- The slot that a push writes.
    pub write_slot :
        {items : List A} → RepAt c r items → bit_and r.write r.mask ≡ c.written % 2 ^ c.bits
    write_slot h = rw (h.write, h.mask) (slot_of c.written c.bits h.bits_small)

    -- The slot that a pop reads.
    pub read_slot :
        {items : List A} → RepAt c r items → bit_and r.read r.mask ≡ c.taken % 2 ^ c.bits
    read_slot h = rw (h.read, h.mask) (slot_of c.taken c.bits h.bits_small)

    -- A slot that holds nothing is written.
    pub fill-RepAt :
        (v : A) {items : List A}
        → RepAt c r items
        → c.written < c.seen_taken + 2 ^ c.bits
        → (slots : List A) → slots ≡ set r.slots (bit_and r.write r.mask) v
        → RepAt c (record r { slots = slots }) items
          × (get_elem? slots (c.written % 2 ^ c.bits) ≡ some v)
    fill-RepAt v {items} h room slots e =
        let n = 2 ^ c.bits in
        let (one, small) = size_of c.bits h.bits_small in
        let put : slots ≡ set r.slots (c.written % n) v =
          e ∙ ap (λ i. set r.slots i v) (write_slot h) in
        (
          record {
            bits_small = h.bits_small;
            mask = h.mask;
            slots = ap length put ∙ length-set r.slots _ v ∙ h.slots;
            write = h.write;
            read = h.read;
            read_cache = h.read_cache;
            write_cache = h.write_cache;
            held = h.held;
            bounded = h.bounded;
            behind = h.behind;
            near = h.near;
            ahead = h.ahead;
            known = h.known;
            window = λ i inside. rw put (
                get_elem?-set_ne r.slots (c.written % n) ((c.taken + i) % n) v (λ e.
                  add-mod_ne (c.taken + i) (c.written - (c.taken + i)) n (omega (arith, h.held))
                    (omega (arith, h.held, h.behind, room))
                    (ap (λ w. w % n) (omega (arith, h.held)) ∙ e))
                ∙ h.window i inside);
          },
          rw put (
              get_elem?-set_self r.slots (c.written % n) v
                (rw h.slots (mod-lt c.written (omega arith)))),
        )

    -- The index after a slot that was written is stored.
    pub publish-RepAt :
        (v : A) {items : List A}
        → RepAt c r items
        → c.written < c.seen_taken + 2 ^ c.bits
        → get_elem? r.slots (c.written % 2 ^ c.bits) ≡ some v
        → RepAt
            (record c { written = c.written + 1 })
            (record r { write = u64 (r.write + 1) })
            (items ++ (v ∷ []))
    publish-RepAt v {items} h room e =
        let l = length-append items (v ∷ []) in
        record {
          bits_small = h.bits_small;
          mask = h.mask;
          slots = h.slots;
          write = omega (arith, h.write);
          read = h.read;
          read_cache = h.read_cache;
          write_cache = h.write_cache;
          held = omega (arith, h.held, l);
          bounded = omega (arith, h.held, h.behind, room, l);
          behind = h.behind;
          near = omega (arith, room);
          ahead = h.ahead;
          known = omega (arith, h.known);
          window = λ i inside. elim (dec_lt i (length items)) [
            | yes old ↦ h.window i old ∙ sym (get_elem?-append_lt items (v ∷ []) i old)
            | no last ↦
                let i_last : i ≡ length items = omega (arith, inside, l) in
                let there : c.taken + i ≡ c.written = omega (arith, h.held) in
                rw (there, i_last) (e ∙ sym (get_elem?-append_last items v))
          ];
        }

    -- What a pop reads, as long as there is an item.
    pub front-RepAt :
        (x : A) {items : List A}
        → RepAt c r (x ∷ items)
        → get_elem? r.slots (bit_and r.read r.mask) ≡ some x
    front-RepAt x {items} h =
        let first : c.taken + 0 ≡ c.taken = omega arith in
        rw (read_slot h)
          (ap (λ t. get_elem? r.slots (t % 2 ^ c.bits)) (sym first) ∙ h.window 0 (omega arith))

    -- The index after the slot that was read is stored.
    pub take-RepAt :
        (x : A) {items : List A}
        → RepAt c r (x ∷ items)
        → c.taken < c.seen_written
        → RepAt (record c { taken = c.taken + 1 }) (record r { read = u64 (r.read + 1) }) items
    take-RepAt x {items} h ahead = record {
      bits_small = h.bits_small;
      mask = h.mask;
      slots = h.slots;
      write = h.write;
      read = omega (arith, h.read);
      read_cache = h.read_cache;
      write_cache = h.write_cache;
      held = omega (arith, h.held);
      bounded = omega (arith, h.bounded);
      behind = omega (arith, h.behind);
      near = h.near;
      ahead = omega (arith, ahead);
      known = h.known;
      window = λ i inside.
          let e : c.taken + 1 + i ≡ c.taken + suc i = omega arith in
          rw e (h.window (suc i) (omega arith));
    }

    -- The producer looks at the consumer's index.
    pub reload-RepAt :
        {items : List A}
        → RepAt c r items
        → RepAt (record c { seen_taken = c.taken }) (record r { read_cache = r.read }) items
    reload-RepAt h = record {
      bits_small = h.bits_small;
      mask = h.mask;
      slots = h.slots;
      write = h.write;
      read = h.read;
      read_cache = h.read;
      write_cache = h.write_cache;
      held = h.held;
      bounded = h.bounded;
      behind = omega arith;
      near = omega (arith, h.held, h.bounded);
      ahead = h.ahead;
      known = h.known;
      window = h.window;
    }

    -- The consumer looks at the producer's index.
    pub rewatch-RepAt :
        {items : List A}
        → RepAt c r items
        → RepAt (record c { seen_written = c.written }) (record r { write_cache = r.write }) items
    rewatch-RepAt h = record {
      bits_small = h.bits_small;
      mask = h.mask;
      slots = h.slots;
      write = h.write;
      read = h.read;
      read_cache = h.read_cache;
      write_cache = h.write;
      held = h.held;
      bounded = h.bounded;
      behind = h.behind;
      near = h.near;
      ahead = omega (arith, h.held);
      known = omega arith;
      window = h.window;
    }
