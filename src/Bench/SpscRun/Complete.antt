-- ===== src/Bench/SpscRun/Complete.antt =====
-- The consumer of run_spsc_ring gets every value once, in order.
-- (code/bench/bench_queue_throughput.cpp)
use mw_study.Prelude.{
  ℕ, zero, suc, ◌+◌, ◌≤◌, ◌<◌, ◌≡◌, refl, ap, sym, ◌∙◌, subst, Bool, true, false, List, [], ◌∷◌,
  ◌++◌, append_assoc, arith, ltb, if◌then◌else◌, if-elim, inl, inr, ◌⊎◌, length, length-append,
}
use native.Mathlib.Decide.{dec_lt}
use mw_study.Spsc
use mw_study.Spsc.{Ring, round_up_pow2}
use mw_study.Spsc.Rep.{Rep}
use mw_study.Spsc.Refine.{bounded_push, bounded_push-room, bounded_push-full, push-Follows}
use mw_study.Bench.SpscRun.{Consumer, polling, checking, draining, left, SpscRun, produce}

-- The values 0, 1, ... below `n`.
abbrev pub up_to : ℕ → List ℕ
up_to zero = []
up_to (suc n) = up_to n ++ (n ∷ [])

pub length-up_to : (n : ℕ) → length (up_to n) ≡ n
length-up_to zero = refl
length-up_to (suc n) = omega (arith, length-append (up_to n) (n ∷ []), length-up_to n)

-- What the consumer knows.
abbrev pub Knows : ℕ → SpscRun → Consumer → Type 0
Knows count s polling = Unit
Knows count s checking = Unit
Knows count s draining = s.done ≡ true
Knows count s left = s.got ≡ up_to count

pub record IsValid (count : ℕ) (s : SpscRun) : Type 0 where
  pub items : List ℕ
  pub rep : Rep s.ring items
  pub order : s.got ++ items ≡ up_to s.next
  pub bounded : s.next ≤ count
  pub finished : s.done ≡ true → s.next ≡ count
  pub knows : Knows count s s.consumer

-- One more value is pushed.
pushed-order :
    (got items : List ℕ) (n : ℕ)
    → got ++ items ≡ up_to n
    → got ++ (items ++ (n ∷ [])) ≡ up_to (n + 1)
pushed-order got items n e =
    let next : suc n ≡ n + 1 = omega arith in
    sym (append_assoc got items (n ∷ [])) ∙ ap (λ l. l ++ (n ∷ [])) e ∙ ap up_to next

bounded_push-cases :
    (size v : ℕ) (items : List ℕ)
    → (bounded_push size v items ≡ (items ++ (v ∷ []), true))
      ⊎ ((bounded_push size v items ≡ (items, false)) × (size ≤ length items))
bounded_push-cases size v items = elim (dec_lt (length items) size) [
  | yes room ↦ inl (bounded_push-room size v items room)
  | no full ↦ inr (bounded_push-full size v items (omega arith), omega arith)
]

Knows-later :
    (count : ℕ) (s t : SpscRun) (c : Consumer)
    → t.got ≡ s.got
    → (s.done ≡ true → t.done ≡ true)
    → Knows count s c
    → Knows count t c
Knows-later count s t polling g d h = tt
Knows-later count s t checking g d h = tt
Knows-later count s t draining g d h = d h
Knows-later count s t left g d h = g ∙ h

-- How many values are on their way.
pub IsValid-lengths :
    (count : ℕ) (s : SpscRun) (h : IsValid count s) → length s.got + length h.items ≡ s.next
IsValid-lengths count s h =
    sym (length-append s.got h.items) ∙ ap length h.order ∙ length-up_to s.next

-- What a step of the producer leaves, and that it gets on unless the ring holds something or the
-- producer has finished.
pub record Produced (count : ℕ) (s t : SpscRun) : Type 0 where
  pub valid : IsValid count t
  pub same_got : t.got ≡ s.got
  pub same_consumer : t.consumer ≡ s.consumer
  pub gets_on :
      (t.next ≡ s.next + 1)
      ⊎ ((t.next ≡ s.next) × ((length s.got < s.next) ⊎ ((t.done ≡ true) × (s.next ≡ count))))

pushed-Produced :
    (count : ℕ) (s : SpscRun) (h : IsValid count s) (r : Ring ℕ × Bool) (q : List ℕ × Bool)
    → s.next < count
    → Rep r.0 q.0
    → r.1 ≡ q.1
    → (q ≡ (h.items ++ (s.next ∷ []), true)) ⊎ ((q ≡ (h.items, false)) × (1 ≤ length h.items))
    → Produced count s (record s { ring = r.0; next = if r.1 then s.next + 1 else s.next })
pushed-Produced count s h (ring, accepted) q more rep same (inl e) =
    let a : accepted ≡ true = same ∙ ap (λ (x : List ℕ × Bool). x.1) e in
    let items : q.0 ≡ h.items ++ (s.next ∷ []) = ap (λ (x : List ℕ × Bool). x.0) e in
    let t : SpscRun = record s { ring = ring; next = s.next + 1 } in
    let valid : IsValid count t = record {
      items = q.0;
      rep = rep;
      order = ap (λ l. s.got ++ l) items ∙ pushed-order s.got h.items s.next h.order;
      bounded = omega (arith, more);
      finished = λ d. let k = h.finished d in absurd (omega (arith, more, k));
      knows = Knows-later count s t s.consumer refl (λ d. d) h.knows;
    } in
    let k : Produced count s t = record {
      valid = valid;
      same_got = refl;
      same_consumer = refl;
      gets_on = inl refl;
    } in
    subst
      (λ b. Produced count s (record s { ring = ring; next = if b then s.next + 1 else s.next }))
      (sym a) k
pushed-Produced count s h (ring, accepted) q more rep same (inr (e, some_item)) =
    let a : accepted ≡ false = same ∙ ap (λ (x : List ℕ × Bool). x.1) e in
    let items : q.0 ≡ h.items = ap (λ (x : List ℕ × Bool). x.0) e in
    let t : SpscRun = record s { ring = ring } in
    let valid : IsValid count t = record {
      items = q.0;
      rep = rep;
      order = ap (λ l. s.got ++ l) items ∙ h.order;
      bounded = h.bounded;
      finished = h.finished;
      knows = Knows-later count s t s.consumer refl (λ d. d) h.knows;
    } in
    let n = IsValid-lengths count s h in
    let k : Produced count s t = record {
      valid = valid;
      same_got = refl;
      same_consumer = refl;
      gets_on = inr (refl, inl (omega (arith, n, some_item)));
    } in
    subst
      (λ b. Produced count s (record s { ring = ring; next = if b then s.next + 1 else s.next }))
      (sym a) k

pub produce-Produced :
    (count : ℕ) (s : SpscRun) → IsValid count s → Produced count s (produce count s)
unfolding produce
produce-Produced count s h =
    let size = s.ring.mask + 1 in
    let (rep, same, mask) = push-Follows s.next s.ring h.items h.rep in
    if-elim (Produced count s) (ltb s.next count)
      (λ more.
        pushed-Produced count s h (Spsc.push s.next s.ring) (bounded_push size s.next h.items)
          (ground arith) rep same
          (elim (bounded_push-cases size s.next h.items) [
            | inl e ↦ inl e
            | inr (e, full) ↦ inr (e, omega (arith, full))
          ]))
      (λ none_left.
        let all : s.next ≡ count = ground (arith, h.bounded) in
        let t : SpscRun = record s { done = true } in
        record {
          valid = record {
            items = h.items;
            rep = h.rep;
            order = h.order;
            bounded = h.bounded;
            finished = λ _. all;
            knows = Knows-later count s t s.consumer refl (λ _. refl) h.knows;
          };
          same_got = refl;
          same_consumer = refl;
          gets_on = inr (refl, inr (refl, all));
        })
