-- ===== src/Bench/BoundedRun/Consumed.antt =====
-- The slices of the writers and the consumer of run_bounded_queue. (code/bench/bench_queue_throughput.cpp)
use mw_study.Prelude.{
  ℕ, zero, suc, ◌+◌, ◌*◌, ◌%◌, ◌^◌, ◌≤◌, ◌<◌, ◌≡◌, ◌≢◌, refl, ap, sym, ◌∙◌, true, false, Option,
  none, some, List, [], ◌∷◌, ◌++◌, append-nil, arith, ltb, if-elim, inl, inr, ◌⊎◌, length,
  length-append, get_elem?, set, AllOf, AllOf-set, AllOf-get,
}
use mw_study.Queue
use mw_study.Queue.{Queue, block, PushStatus, ok, Slice, returned, sleeping, never}
use mw_study.Queue.Block.{added, Waits, push-Waits, push_waiting-Waits, Removes}
use mw_study.Bench.BoundedRun.{
  Writer, writing, asleep, Main, joining, closing, waiting, finished, BoundedRun, after_push, write,
  after_pop, all_written,
}

abbrev pub position : Writer → ℕ
position (writing i) = i
position (asleep i) = i

-- how many values the writers have pushed.
abbrev pub written : List Writer → ℕ
written [] = 0
written (w ∷ ws) = position w + written ws

written-set :
    (ws : List Writer) (p : ℕ) {w : Writer} (next : Writer)
    → get_elem? ws p ≡ some w
    → written (set ws p next) + position w ≡ written ws + position next
written-set [] p next e = absurd (cc)
written-set (x ∷ ws) zero {w} next e =
    let same : position x ≡ position w = let q : x ≡ w = cc in ap position q in omega (arith, same)
written-set (x ∷ ws) (suc p) {w} next e = omega (arith, written-set ws p {w = w} next e)

-- A writer stays in its loop's bounds, and sleeps only for a value of it.
abbrev pub InLoop : ℕ → Writer → Type 0
InLoop n (writing i) = i ≤ n
InLoop n (asleep i) = i < n

pub record IsValid (n : ℕ) (s : BoundedRun) : Type 0 where
  pub same_count : s.per_producer ≡ n
  pub policy : s.queue.policy ≡ block
  pub in_loop : AllOf (InLoop n) s.writers
  pub taken : ℕ
  pub counted : s.consumed ≡ taken % 2 ^ 64
  pub tally : taken + length s.queue.items ≡ written s.writers
  pub open_now : s.main ≡ joining → s.queue.is_closed ≡ false
  pub not_closed : s.main ≡ closing → s.queue.is_closed ≡ false
  pub done : s.main ≢ joining → all_written n s.writers ≡ true
  pub returned_empty :
      s.consumer_returned ≡ true → (s.queue.is_closed ≡ true) × (s.queue.items ≡ [])
  pub joined : s.main ≡ finished → s.consumer_returned ≡ true

all_written-get :
    (n : ℕ) (ws : List Writer) (p : ℕ) {w : Writer}
    → all_written n ws ≡ true
    → get_elem? ws p ≡ some w
    → (i : ℕ) × ((w ≡ writing i) × (n ≤ i))
all_written-get n [] p h e = absurd (cc)
all_written-get n (asleep i ∷ ws) p h e = absurd (cc)
all_written-get n (writing i ∷ ws) zero h e = (i, (cc, ground arith))
all_written-get n (writing i ∷ ws) (suc p) h e = all_written-get n ws p (ground arith) e

pub all_written-total :
    (n : ℕ) (ws : List Writer)
    → all_written n ws ≡ true
    → AllOf (InLoop n) ws
    → written ws ≡ length ws * n
all_written-total n [] h a = omega arith
all_written-total n (asleep i ∷ ws) h a = absurd (cc)
all_written-total n (writing i ∷ ws) h a =
    let e : i ≡ n = ground (arith, a.0) in
    let rest = all_written-total n ws (ground arith) a.1 in omega (arith, e, rest)

main_cases : (m : Main) → (m ≡ joining) ⊎ (m ≢ joining)
main_cases joining = inl refl
main_cases closing = inr (λ e. cc)
main_cases waiting = inr (λ e. cc)
main_cases finished = inr (λ e. cc)

-- While a writer has something to push, the main thread waits for it.
still_joining :
    (n : ℕ) (s : BoundedRun) (h : IsValid n s) (p : ℕ) {w : Writer}
    → get_elem? s.writers p ≡ some w
    → ((i : ℕ) → w ≡ writing i → i < n)
    → s.main ≡ joining
still_joining n s h p {w} e busy = elim (main_cases s.main) [
  | inl m ↦ m
  | inr m ↦
      let (i, (same, far)) = all_written-get n s.writers p {w = w} (h.done m) e in
      let less = busy i same in absurd (omega (arith, far, less))
]

-- What a slice of a push changes.
writer_moves :
    (n : ℕ) (s : BoundedRun) (h : IsValid n s) (p : ℕ) (w next : Writer) (queue : Queue ℕ)
    → get_elem? s.writers p ≡ some w
    → s.main ≡ joining
    → queue.policy ≡ s.queue.policy
    → queue.is_closed ≡ s.queue.is_closed
    → InLoop n next
    → length queue.items + position w ≡ length s.queue.items + position next
    → IsValid n (record s { queue = queue; writers = set s.writers p next })
writer_moves n s h p w next queue e m policy shut fits count =
    let open_now = h.open_now m in
    record {
      same_count = h.same_count;
      policy = policy ∙ h.policy;
      in_loop = AllOf-set (InLoop n) s.writers p next h.in_loop fits;
      taken = h.taken;
      counted = h.counted;
      tally = omega (arith, h.tally, written-set s.writers p {w = w} next e, count);
      open_now = λ _. shut ∙ open_now;
      not_closed = λ _. shut ∙ open_now;
      done = λ x. absurd (x m);
      returned_empty = λ x. let k = (h.returned_empty x).0 in absurd (cc);
      joined = h.joined;
    }

after_push-IsValid :
    (n : ℕ) (s : BoundedRun) (h : IsValid n s) (p i : ℕ) (w : Writer)
    (r : Queue ℕ × Option ℕ × Slice PushStatus)
    → get_elem? s.writers p ≡ some w
    → position w ≡ i
    → i < n
    → s.main ≡ joining
    → Waits i s.queue r
    → IsValid n (after_push p i r s)
unfolding after_push
after_push-IsValid n s h p i w (queue, evicted, sleeping) e at l m k =
    writer_moves n s h p w (asleep i) queue e m k.adds.policy k.adds.shut l
      (let same = ap length (k.adds.items ∙ append-nil s.queue.items) in omega (arith, same, at))
after_push-IsValid n s h p i w (queue, evicted, returned status) e at l m k =
    let is_ok : status ≡ ok = elim k.outcome [ inl x ↦ absurd (cc) | inr x ↦ cc ] in
    let items : queue.items ≡ s.queue.items ++ (i ∷ []) =
      k.adds.items ∙ ap (λ t. s.queue.items ++ added i (returned t)) is_ok in
    writer_moves n s h p w (writing (i + 1)) queue e m k.adds.policy k.adds.shut (omega arith) (
      let grown = ap length items in omega (arith, grown, length-append s.queue.items (i ∷ []), at))

pub write-IsValid :
    (n now p : ℕ) (w : Writer) (s : BoundedRun)
    → IsValid n s
    → get_elem? s.writers p ≡ some w
    → IsValid n (write now p w s)
unfolding write
write-IsValid n now p (writing i) s h e =
    if-elim (IsValid n) (ltb i s.per_producer)
      (λ l.
        let less : i < n = let c = h.same_count in ground arith in
        let m =
          still_joining n s h p {w = writing i} e (λ j q. let same : i ≡ j = cc in omega arith) in
        after_push-IsValid n s h p i (writing i) (Queue.push i now s.queue) e refl less m
          (push-Waits i now s.queue (h.open_now m) h.policy))
      (λ _. h)
write-IsValid n now p (asleep i) s h e =
    let less : i < n = AllOf-get (InLoop n) s.writers p {x = asleep i} h.in_loop e in
    let m = still_joining n s h p {w = asleep i} e (λ j q. absurd (cc)) in
    after_push-IsValid n s h p i (asleep i) (Queue.push_waiting i never now s.queue) e refl less m
      (push_waiting-Waits i now s.queue (h.open_now m))

pub after_pop-IsValid :
    (n : ℕ) (s : BoundedRun) (h : IsValid n s) (r : Queue ℕ × Slice (Option ℕ))
    → s.consumer_returned ≡ false
    → Removes s.queue r
    → IsValid n (after_pop r s)
unfolding after_pop
after_pop-IsValid n s h (queue, sleeping) c k = record {
  same_count = h.same_count;
  policy = k.policy ∙ h.policy;
  in_loop = h.in_loop;
  taken = h.taken;
  counted = h.counted;
  tally = let same = ap length k.items in omega (arith, same, h.tally);
  open_now = λ m. k.shut ∙ h.open_now m;
  not_closed = λ m. k.shut ∙ h.not_closed m;
  done = h.done;
  returned_empty = λ x. absurd (cc);
  joined = h.joined;
}
after_pop-IsValid n s h (queue, returned none) c k =
    let (shut, empty) = k.over refl in
    record {
      same_count = h.same_count;
      policy = k.policy ∙ h.policy;
      in_loop = h.in_loop;
      taken = h.taken;
      counted = h.counted;
      tally = let same = ap length k.items in omega (arith, same, h.tally);
      open_now = λ m. k.shut ∙ h.open_now m;
      not_closed = λ m. k.shut ∙ h.not_closed m;
      done = h.done;
      returned_empty = λ _. (k.shut ∙ shut, sym k.items ∙ empty);
      joined = λ _. refl;
    }
after_pop-IsValid n s h (queue, returned (some v)) c k = record {
  same_count = h.same_count;
  policy = k.policy ∙ h.policy;
  in_loop = h.in_loop;
  taken = h.taken + 1;
  counted = omega (arith, h.counted);
  tally = let same = ap length k.items in omega (arith, same, h.tally);
  open_now = λ m. k.shut ∙ h.open_now m;
  not_closed = λ m. k.shut ∙ h.not_closed m;
  done = h.done;
  returned_empty = λ x. absurd (cc);
  joined = h.joined;
}
