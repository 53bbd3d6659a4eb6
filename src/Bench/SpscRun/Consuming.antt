-- ===== src/Bench/SpscRun/Consuming.antt =====
-- A step of the consumer of run_spsc_ring. (code/bench/bench_queue_throughput.cpp)
use mw_study.Prelude.{
  ℕ, ◌+◌, ◌≤◌, ◌<◌, ◌≡◌, refl, ap, sym, ◌∙◌, subst, true, false, Option, none, some, List, [], ◌∷◌,
  ◌++◌, append-nil, append_assoc, arith, ltb, if-elim, inl, inr, ◌⊎◌, length, length-append,
}
use native.Mathlib.Decide.{dec_lt}
use mw_study.Spsc
use mw_study.Spsc.{Ring}
use mw_study.Spsc.Rep.{Rep}
use mw_study.Spsc.Refine.{front_pop, pop-Follows}
use mw_study.Bench.SpscRun.{Consumer, polling, checking, draining, left, SpscRun, receive, consume}
use mw_study.Bench.SpscRun.Complete.{up_to, Knows, IsValid, IsValid-lengths}

-- What a step of the consumer leaves: it takes a value, or moves on.
pub record Consumed (count : ℕ) (s t : SpscRun) : Type 0 where
  pub valid : IsValid count t
  pub same_next : t.next ≡ s.next
  pub same_done : t.done ≡ s.done
  pub more : length s.got ≤ length t.got

-- With something in the ring it takes it; with nothing it goes on to `otherwise`.
record Received (count : ℕ) (otherwise : Consumer) (held : ℕ) (s t : SpscRun) : Type 0 where
  consumed : Consumed count s t
  takes : 1 ≤ held → length t.got ≡ length s.got + 1
  gives_up : held ≡ 0 → t.consumer ≡ otherwise

receive-Received :
    (count : ℕ) (otherwise : Consumer) (s : SpscRun) (h : IsValid count s) (items : List ℕ)
    (r : Ring ℕ × Option ℕ)
    → h.items ≡ items
    → Rep r.0 (front_pop items).0
    → r.1 ≡ (front_pop items).1
    → (items ≡ [] → Knows count s otherwise)
    → Received count otherwise (length items) s (receive otherwise r s)
unfolding receive
receive-Received count otherwise s h [] (ring, none) e rep same k = record {
  consumed = record {
    valid = record {
      items = [];
      rep = rep;
      order = ap (λ l. s.got ++ l) (sym e) ∙ h.order;
      bounded = h.bounded;
      finished = h.finished;
      knows = knows otherwise (k refl);
    };
    same_next = refl;
    same_done = refl;
    more = omega arith;
  };
  takes = λ l. absurd (omega arith);
  gives_up = λ _. refl;
}
  where
    knows :
        (c : Consumer)
        → Knows count s c
        → Knows count (record s { ring = ring; consumer = otherwise }) c
    knows polling w = tt
    knows checking w = tt
    knows draining w = w
    knows left w = w
receive-Received count otherwise s h [] (ring, some v) e rep same k = absurd (cc)
receive-Received count otherwise s h (x ∷ xs) (ring, none) e rep same k = absurd (cc)
receive-Received count otherwise s h (x ∷ xs) (ring, some v) e rep same k =
    let is_x : v ≡ x = cc in
    record {
      consumed = record {
        valid = record {
          items = xs;
          rep = rep;
          order =
              append_assoc s.got (v ∷ []) xs
              ∙ ap (λ y. s.got ++ (y ∷ xs)) is_x
              ∙ ap (λ l. s.got ++ l) (sym e)
              ∙ h.order;
          bounded = h.bounded;
          finished = h.finished;
          knows = tt;
        };
        same_next = refl;
        same_done = refl;
        more = omega (arith, length-append s.got (v ∷ []));
      };
      takes = λ _. omega (arith, length-append s.got (v ∷ []));
      gives_up = λ l. absurd (omega arith);
    }

-- Where a step of the consumer gets, by where it is.
pub data Moves (count : ℕ) (s t : SpscRun) : Consumer → Type 0 where
  took : (c : Consumer) → length t.got ≡ length s.got + 1 → Moves count s t c
  found_empty :
      length s.got ≡ s.next → t.consumer ≡ checking → s.next < count → Moves count s t polling
  leaves : (c : Consumer) → t.consumer ≡ left → Moves count s t c
  drains : t.consumer ≡ draining → s.done ≡ true → Moves count s t checking
  polls : t.consumer ≡ polling → s.done ≡ false → Moves count s t checking

all_got :
    (count : ℕ) (s : SpscRun) (h : IsValid count s)
    → h.items ≡ []
    → s.next ≡ count
    → s.got ≡ up_to count
all_got count s h e all =
    sym (append-nil s.got) ∙ ap (λ l. s.got ++ l) (sym e) ∙ h.order ∙ ap up_to all

no_items : (items : List ℕ) → length items ≡ 0 → items ≡ []
no_items [] e = refl
no_items (x ∷ xs) e = absurd (omega arith)

-- A pop takes a value or finds the ring empty.
value_or_empty :
    (count : ℕ) (otherwise : Consumer) (s t : SpscRun) (h : IsValid count s)
    → Received count otherwise (length h.items) s t
    → (length t.got ≡ length s.got + 1) ⊎ ((length s.got ≡ s.next) × (t.consumer ≡ otherwise))
value_or_empty count otherwise s t h r = elim (dec_lt 0 (length h.items)) [
  | yes some_item ↦ inl (r.takes (omega arith))
  | no empty ↦ inr (omega (arith, IsValid-lengths count s h), r.gives_up (omega arith))
]

pop-Received :
    (count : ℕ) (otherwise : Consumer) (s : SpscRun) (h : IsValid count s)
    → (h.items ≡ [] → Knows count s otherwise)
    → Received count otherwise (length h.items) s (receive otherwise (Spsc.pop s.ring) s)
pop-Received count otherwise s h k =
    let (rep, same, mask) = pop-Follows s.ring h.items h.rep in
    receive-Received count otherwise s h h.items (Spsc.pop s.ring) refl rep same k

with_consumer :
    (count : ℕ) (s : SpscRun) (c : Consumer)
    → IsValid count s
    → Knows count (record s { consumer = c }) c
    → Consumed count s (record s { consumer = c })
with_consumer count s c h k = record {
  valid = record {
    items = h.items;
    rep = h.rep;
    order = h.order;
    bounded = h.bounded;
    finished = h.finished;
    knows = k;
  };
  same_next = refl;
  same_done = refl;
  more = omega arith;
}

poll-Moves :
    (count : ℕ) (s : SpscRun) (h : IsValid count s)
    → Consumed count s (consume count polling s) × Moves count s (consume count polling s) polling
unfolding consume
poll-Moves count s h =
    let n = IsValid-lengths count s h in
    if-elim (λ t. Consumed count s t × Moves count s t polling) (ltb (length s.got) count)
      (λ more.
        let r = pop-Received count checking s h (λ _. tt) in
        (
          r.consumed,
          elim (value_or_empty count checking s (receive checking (Spsc.pop s.ring) s) h r) [
            | inl e ↦ took polling e
            | inr (empty, c) ↦ found_empty empty c (ground (arith, empty))
          ],
        ))
      (λ enough.
        let none_left : length h.items ≡ 0 = ground (arith, n, h.bounded) in
        let all : s.next ≡ count = ground (arith, n, h.bounded) in
        (
          with_consumer count s left h (all_got count s h (no_items h.items none_left) all),
          leaves polling refl,
        ))

pub consume-Moves :
    (count : ℕ) (c : Consumer) (s : SpscRun) (h : IsValid count s)
    → s.consumer ≡ c
    → Consumed count s (consume count c s) × Moves count s (consume count c s) c
unfolding consume
consume-Moves count polling s h e = poll-Moves count s h
consume-Moves count checking s h e =
    if-elim
      (λ c.
        Consumed count s (record s { consumer = c })
        × Moves count s (record s { consumer = c }) checking)
      s.done (λ d. (with_consumer count s draining h d, drains refl d))
      (λ d. (with_consumer count s polling h tt, polls refl d))
consume-Moves count draining s h e =
    let d : s.done ≡ true = subst (Knows count s) e h.knows in
    let r = pop-Received count left s h (λ empty. all_got count s h empty (h.finished d)) in
    (
      r.consumed,
      elim (value_or_empty count left s (receive left (Spsc.pop s.ring) s) h r) [
        | inl t ↦ took draining t
        | inr (empty, c) ↦ leaves draining c
      ],
    )
consume-Moves count left s h e =
    (record { valid = h; same_next = refl; same_done = refl; more = omega arith }, leaves left e)
