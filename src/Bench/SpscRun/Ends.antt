-- ===== src/Bench/SpscRun/Ends.antt =====
-- run_spsc_ring ends, with every value received. (code/bench/bench_queue_throughput.cpp)
use mw_study.Prelude.{
  ℕ, zero, suc, ◌+◌, ◌-◌, ◌*◌, ◌^◌, ◌≤◌, ◌<◌, ◌≡◌, refl, ap, ◌∙◌, subst, true, List, [], ◌∷◌, arith,
  inl, inr, ◌⊎◌, length,
}
use mw_study.Spsc.Smear.{round_up_pow2-least}
use mw_study.Spsc.Refine.{new-Rep}
use mw_study.Bench.SpscRun.{
  Consumer, polling, checking, draining, left, SpscRun, Action, producer, consumer, start, produce,
  consume, act, run,
}
use mw_study.Bench.SpscRun.Complete.{up_to, Knows, IsValid, IsValid-lengths, produce-Produced}
use mw_study.Bench.SpscRun.Consuming.{
  Consumed, Moves, took, found_empty, leaves, drains, polls, consume-Moves,
}

abbrev step : ℕ → SpscRun → SpscRun
step count s = consume count s.consumer s

left-stays : (count : ℕ) (s : SpscRun) → s.consumer ≡ left → (step count s).consumer ≡ left
unfolding consume
left-stays count s e = rw e refl

-- The consumer takes a value or has left.
abbrev Advanced : ℕ → SpscRun → SpscRun → Type 0
Advanced count s t = (length s.got + 1 ≤ length t.got) ⊎ (t.consumer ≡ left)

abbrev Ready : ℕ → SpscRun → Type 0
Ready count s = (length s.got < s.next) ⊎ ((s.done ≡ true) × (s.next ≡ count))

-- The second step, of a consumer that has seen `done`.
drained :
    (count : ℕ) (s t u : SpscRun)
    → Consumed count s t
    → Moves count t u draining
    → Advanced count s u
drained count s t u one (took _ e) = inl (omega (arith, one.more, e))
drained count s t u one (leaves _ e) = inr e

-- The second step, of one that has not, while there is a value.
polled :
    (count : ℕ) (s t u : SpscRun)
    → Consumed count s t
    → Consumed count t u
    → length s.got < s.next
    → Moves count t u polling
    → Advanced count s u
polled count s t u one two l (took _ e) = inl (omega (arith, one.more, e))
polled count s t u one two l (found_empty e c m) =
    inl (omega (arith, one.same_next, two.more, e, l))
polled count s t u one two l (leaves _ e) = inr e

advanced :
    (count : ℕ) (s t u : SpscRun) (c : Consumer)
    → Ready count s
    → Moves count s t c
    → Consumed count s t
    → Consumed count t u
    → Moves count t u t.consumer
    → (t.consumer ≡ left → u.consumer ≡ left)
    → Advanced count s u
advanced count s t u c ready (took _ e) one two n stay = inl (omega (arith, e, two.more))
advanced count s t u c ready (leaves _ e) one two n stay = inr (stay e)
advanced count s t u polling (inl l) (found_empty e k m) one two n stay = absurd (omega arith)
advanced count s t u polling (inr (d, all)) (found_empty e k m) one two n stay =
    absurd (omega (arith, all, m))
advanced count s t u checking ready (drains e d) one two n stay =
    drained count s t u one (subst (Moves count t u) e n)
advanced count s t u checking (inl l) (polls e d) one two n stay =
    polled count s t u one two l (subst (Moves count t u) e n)
advanced count s t u checking (inr (d', all)) (polls e d) one two n stay = absurd (cc)

-- Two steps are enough, when there is a value or the producer has finished.
two_steps :
    (count : ℕ) (s : SpscRun) (h : IsValid count s)
    → Ready count s
    → Consumed count s (step count (step count s)) × Advanced count s (step count (step count s))
two_steps count s h ready =
    let (one, m) = consume-Moves count s.consumer s h refl in
    let t = step count s in
    let (two, n) = consume-Moves count t.consumer t one.valid refl in
    let both : Consumed count s (step count t) = record {
      valid = two.valid;
      same_next = two.same_next ∙ one.same_next;
      same_done = two.same_done ∙ one.same_done;
      more = omega (arith, one.more, two.more);
    } in
    (both, advanced count s t (step count t) s.consumer ready m one two n (left-stays count t))

-- How many values are still to be pushed and to be popped.
abbrev todo : ℕ → SpscRun → ℕ
todo count s = (count - s.next) + (count - length s.got)

-- The producer takes a step and the consumer two.
abbrev pub rounds : ℕ → List Action
rounds zero = []
rounds (suc n) = producer ∷ consumer ∷ consumer ∷ rounds n

got_bound : (count : ℕ) (s : SpscRun) → IsValid count s → (length s.got ≤ s.next) × (s.next ≤ count)
got_bound count s h = (omega (arith, IsValid-lengths count s h), h.bounded)

-- A round of both gets on.
round :
    (count : ℕ) (s : SpscRun)
    → IsValid count s
    → let u = step count (step count (produce count s)) in
      IsValid count u × ((todo count u < todo count s) ⊎ (u.consumer ≡ left))
round count s h =
    let p = produce-Produced count s h in
    let t = produce count s in
    let u = step count (step count t) in
    let (one, _) = consume-Moves count t.consumer t p.valid refl in
    let (two, _) = consume-Moves count (step count t).consumer (step count t) one.valid refl in
    let g = ap length p.same_got in
    let b = got_bound count t p.valid in
    let c = got_bound count u two.valid in
    (
      two.valid,
      elim p.gets_on [
        | inl on ↦ inl (
            omega
              (arith, on, g, b.0, b.1, c.0, c.1, one.more, two.more, one.same_next, two.same_next))
        | inr (same, stuck) ↦
            let (both, moved) = two_steps count t p.valid (ready same stuck g) in
            elim moved [
              | inl more ↦ inl (omega (arith, same, g, more, b.0, b.1, c.0, c.1, both.same_next))
              | inr gone ↦ inr gone
            ]
      ],
    )
  where
    ready :
        (produce count s).next ≡ s.next
        → (length s.got < s.next) ⊎ (((produce count s).done ≡ true) × (s.next ≡ count))
        → length (produce count s).got ≡ length s.got
        → Ready count (produce count s)
    ready same (inl l) g = inl (omega (arith, same, l, g))
    ready same (inr (d, all)) g = inr (d, same ∙ all)

act-IsValid :
    (count : ℕ) (a : Action) (s : SpscRun) → IsValid count s → IsValid count (act count a s)
unfolding act
act-IsValid count producer s h = (produce-Produced count s h).valid
act-IsValid count consumer s h = (consume-Moves count s.consumer s h refl).0.valid

run-IsValid :
    (count : ℕ) (actions : List Action) (s : SpscRun)
    → IsValid count s
    → IsValid count (run count actions s)
unfolding run
run-IsValid count [] s h = h
run-IsValid count (a ∷ actions) s h =
    run-IsValid count actions (act count a s) (act-IsValid count a s h)

-- Once it has left it stays so.
rounds-left :
    (count n : ℕ) (s : SpscRun)
    → IsValid count s
    → s.consumer ≡ left
    → (run count (rounds n) s).consumer ≡ left
unfolding run act
rounds-left count zero s h e = e
rounds-left count (suc n) s h e =
    let p = produce-Produced count s h in
    let t = produce count s in
    let u = step count (step count t) in
    let one = left-stays count t (p.same_consumer ∙ e) in
    rounds-left count n u (round count s h).0 (left-stays count (step count t) one)

rounds-end :
    (count n : ℕ) (s : SpscRun)
    → IsValid count s
    → todo count s < n
    → (run count (rounds n) s).consumer ≡ left
unfolding run act
rounds-end count zero s h few = absurd (omega arith)
rounds-end count (suc n) s h few =
    let u = step count (step count (produce count s)) in
    let (valid, moved) = round count s h in
    elim moved [
      | inl less ↦ rounds-end count n u valid (omega (arith, less, few))
      | inr gone ↦ rounds-left count n u valid gone
    ]

start-IsValid : (count capacity : ℕ) → capacity ≤ 2 ^ 63 → IsValid count (start capacity)
unfolding start
start-IsValid count capacity h =
    let (bits, (some_bits, few, power, fits, least)) = round_up_pow2-least capacity h in
    let (rep, size) = new-Rep zero capacity bits power few in
    record {
      items = [];
      rep = rep;
      order = refl;
      bounded = omega arith;
      finished = λ e. absurd (cc);
      knows = tt;
    }

-- run_spsc_ring with a capacity of at most 2^63: after any steps of the two threads, in any order,
-- 2 * count + 1 rounds in which the producer takes a step and then the consumer two end the
-- consumer's loop; it has then popped the values 0, 1, ... up to count - 1, each once and in order.
pub run-rounds :
    (count capacity : ℕ) (actions : List Action)
    → capacity ≤ 2 ^ 63
    → let s = run count (rounds (2 * count + 1)) (run count actions (start capacity)) in
      (s.consumer ≡ left) × (s.got ≡ up_to count)
run-rounds count capacity actions h =
    let s = run count actions (start capacity) in
    let valid = run-IsValid count actions (start capacity) (start-IsValid count capacity h) in
    let t = run count (rounds (2 * count + 1)) s in
    let k = run-IsValid count (rounds (2 * count + 1)) s valid in
    let e = rounds-end count (2 * count + 1) s valid (omega arith) in
    (e, subst (Knows count t) e k.knows)
