-- ===== src/Workers/Ends.antt =====
-- stop() of a ThreadPool returns. (code/include/rdb/concurrency/thread_pool.h)
use mw_study.Prelude.{
  ℕ, zero, suc, ◌+◌, ◌*◌, ◌<◌, ◌≡◌, ◌≢◌, refl, ap, sym, ◌∙◌, subst, true, Option, none, some, List,
  [], ◌∷◌, ◌++◌, arith, length, length-set, length-append, get_elem?, set, Option-cases, inl, inr,
  ◌⊎◌,
}
use native.Mathlib.Decide.{dec_lt}
use mw_study.Queue
use mw_study.Queue.{Queue, Slice, returned, sleeping, never}
use mw_study.Queue.Block.{removed, Removes, pop-Removes, pop-closed_awake}
use mw_study.Workers.System.{
  System, Worker, looping, over, running, joining, stopped, Action, worker_moves, stop_moves, start,
  picked, worker_step, all_over, stop_step, act, interleave,
}
use mw_study.Workers.Drain.{start-Sound}
use mw_study.Workers.Shut.{IsShut, interleave-IsShut}

module _ {ℓ} {T : Type ℓ} where
  -- How many steps a worker can take before it looks at the queue, and what a pool can still do.
  abbrev pub load : Worker T → ℕ
  load over = 0
  load looping = 1
  load (running task) = 2

  abbrev pub loads : List (Worker T) → ℕ
  loads [] = 0
  loads (w ∷ ws) = load w + loads ws

  abbrev pub work : System T → ℕ
  work s = 3 * length s.pool.queue.items + loads s.workers

  loads-set :
      (ws : List (Worker T)) (i : ℕ) {w : Worker T} (next : Worker T)
      → get_elem? ws i ≡ some w
      → loads (set ws i next) + load w ≡ loads ws + load next
  loads-set [] i next e = absurd (cc)
  loads-set (x ∷ ws) zero {w} next e =
      let same : load x ≡ load w = let q : x ≡ w = cc in ap load q in omega (arith, same)
  loads-set (x ∷ ws) (suc i) {w} next e = omega (arith, loads-set ws i {w = w} next e)

  -- A pool whose queue is closed, and one that has less left to do.
  record Less (s t : System T) : Type ℓ where
    shut : t.pool.queue.is_closed ≡ true
    same_stopper : t.stopper ≡ s.stopper
    same_length : length t.workers ≡ length s.workers
    less : work t < work s

  removed-length :
      (o : Slice (Option T)) (q : Queue T) (r : Queue T)
      → q.items ≡ removed o ++ r.items
      → length q.items ≡ length (removed o) + length r.items
  removed-length o q r e = ap length e ∙ length-append (removed o) r.items

  picked-Less :
      (i : ℕ) (r : Queue T × Slice (Option T)) (s : System T)
      → get_elem? s.workers i ≡ some looping
      → s.pool.queue.is_closed ≡ true
      → r.1 ≢ sleeping
      → Removes s.pool.queue r
      → Less s (picked i r s)
  unfolding picked
  picked-Less i (queue, sleeping) s e c awake p = absurd (awake refl)
  picked-Less i (queue, returned none) s e c awake p = record {
    shut = p.shut ∙ c;
    same_stopper = refl;
    same_length = length-set s.workers i over;
    less =
        let n = ap length p.items in omega (arith, n, loads-set s.workers i {w = looping} over e);
  }
  picked-Less i (queue, returned (some task)) s e c awake p = record {
    shut = p.shut ∙ c;
    same_stopper = refl;
    same_length = length-set s.workers i (running task);
    less =
        let n = ap length p.items in
        omega (arith, n, loads-set s.workers i {w = looping} (running task) e);
  }

  -- One worker goes on: there is less to do, or it has returned.
  move_or_over :
      (now i : ℕ) (w : Worker T) (s : System T)
      → get_elem? s.workers i ≡ some w
      → s.pool.queue.is_closed ≡ true
      → Less s (worker_step now i w s) ⊎ ((w ≡ over) × (worker_step now i w s ≡ s))
  unfolding worker_step
  move_or_over now i looping s e c = inl (
      picked-Less i (Queue.pop now s.pool.queue) s e c (pop-closed_awake now s.pool.queue c)
        (pop-Removes now s.pool.queue))
  move_or_over now i (running task) s e c = inl (record {
    shut = c;
    same_stopper = refl;
    same_length = length-set s.workers i looping;
    less = omega (arith, loads-set s.workers i {w = running task} looping e);
  })
  move_or_over now i over s e c = inr (refl, refl)

  -- Each of the first `n` workers takes a step.
  abbrev pub sweep : ℕ → List (Action T)
  sweep zero = []
  sweep (suc n) = worker_moves 0 n ∷ sweep n

  abbrev pub sweeps : (n rounds : ℕ) → List (Action T)
  sweeps n zero = []
  sweeps n (suc rounds) = sweep n ++ sweeps n rounds

  -- The first `n` workers have returned.
  unfoldable AllOver : ℕ → System T → Type ℓ
  AllOver n s = (i : ℕ) → i < n → (w : Worker T) → get_elem? s.workers i ≡ some w → w ≡ over

  interleave-append :
      (xs ys : List (Action T)) (s : System T)
      → interleave (xs ++ ys) s ≡ interleave ys (interleave xs s)
  unfolding interleave
  interleave-append [] ys s = refl
  interleave-append (a ∷ xs) ys s = interleave-append xs ys (act a s)

  -- A sweep leaves less to do, or nothing has changed and these workers have returned.
  unfoldable Swept : ℕ → System T → System T → Type ℓ
  Swept n s t = Less s t ⊎ ((t ≡ s) × AllOver n s)

  move_one :
      (n : ℕ) (s : System T)
      → s.pool.queue.is_closed ≡ true
      → Less s (act (worker_moves 0 n) s)
        ⊎ ((act (worker_moves 0 n) s ≡ s)
            × ((w : Worker T) → get_elem? s.workers n ≡ some w → w ≡ over))
  unfolding act
  move_one n s c = elim (Option-cases (get_elem? s.workers n)) [
    | inl gone ↦ inr (rw (act, gone) refl, λ w e. absurd (cc))
    | inr (worker, e) ↦ elim (move_or_over 0 n worker s e c) [
      | inl moved ↦ inl (rw (act, e) moved)
      | inr (is_over, same) ↦ inr (rw (act, e) same, λ w f. let p : w ≡ worker = cc in p ∙ is_over)
    ]
  ]

  Less-trans : (s t u : System T) → Less s t → Less t u → Less s u
  Less-trans s t u a b = record {
    shut = b.shut;
    same_stopper = b.same_stopper ∙ a.same_stopper;
    same_length = b.same_length ∙ a.same_length;
    less = let p = a.less in let q = b.less in omega (arith, p, q);
  }

  one_more :
      (n : ℕ) (s : System T)
      → ((w : Worker T) → get_elem? s.workers n ≡ some w → w ≡ over)
      → AllOver n s
      → AllOver (suc n) s
  unfolding AllOver
  one_more n s last rest i h w e = elim (dec_lt i n) [
    | yes before ↦ rest i before w e
    | no at ↦
        let same : i ≡ n = omega arith in
        last w (subst (λ k. get_elem? s.workers k ≡ some w) same e)
  ]

  sweep-Swept :
      (n : ℕ) (s : System T) → s.pool.queue.is_closed ≡ true → Swept n s (interleave (sweep n) s)
  unfolding interleave Swept AllOver
  sweep-Swept zero s c = inr (refl, λ i h. absurd (omega arith))
  sweep-Swept (suc n) s c =
      let t = act (worker_moves 0 n) s in
      elim (move_one n s c) [
        | inl moved ↦ elim (sweep-Swept n t moved.shut) [
          | inl rest ↦ inl (Less-trans s t (interleave (sweep n) t) moved rest)
          | inr (same, rest) ↦ inl (subst (Less s) (sym same) moved)
        ]
        | inr (same, last) ↦ elim (sweep-Swept n s c) [
          | inl rest ↦ inl (subst (λ u. Less s (interleave (sweep n) u)) (sym same) rest)
          | inr (unchanged, rest) ↦
              inr (ap (interleave (sweep n)) same ∙ unchanged, one_more n s last rest)
        ]
      ]

  -- Workers that have returned stay so.
  over_stay :
      (n rounds : ℕ) (s : System T)
      → interleave (sweep n) s ≡ s
      → interleave (sweeps n rounds) s ≡ s
  unfolding interleave
  over_stay n zero s e = refl
  over_stay n (suc rounds) s e =
      interleave-append (sweep n) (sweeps n rounds) s
      ∙ ap (interleave (sweeps n rounds)) e
      ∙ over_stay n rounds s e

  all_over-all :
      (ws : List (Worker T))
      → ((i : ℕ) → i < length ws → (w : Worker T) → get_elem? ws i ≡ some w → w ≡ over)
      → all_over ws ≡ true
  all_over-all [] h = refl
  all_over-all (w ∷ ws) h =
      subst (λ v. all_over (v ∷ ws) ≡ true) (sym (h 0 (omega arith) w refl))
        (all_over-all ws (λ i l v e. h (suc i) (omega (arith, l)) v e))

  -- What enough rounds of all workers leave.
  record Over (s t : System T) : Type ℓ where
    all : all_over t.workers ≡ true
    same_stopper : t.stopper ≡ s.stopper

  sweeps-Over :
      (n rounds : ℕ) (s : System T)
      → s.pool.queue.is_closed ≡ true
      → length s.workers ≡ n
      → work s < rounds
      → Over s (interleave (sweeps n rounds) s)
  unfolding Swept
  sweeps-Over n zero s c l few = absurd (omega arith)
  sweeps-Over n (suc rounds) s c l few =
      let t = interleave (sweep n) s in
      let split = interleave-append (sweep n) (sweeps n rounds) s in
      elim (sweep-Swept n s c) [
        | inl moved ↦
            let smaller = moved.less in
            let rest =
              sweeps-Over n rounds t moved.shut (moved.same_length ∙ l)
                (omega (arith, smaller, few)) in
            let k : Over s (interleave (sweeps n rounds) t) = record {
              all = rest.all;
              same_stopper = rest.same_stopper ∙ moved.same_stopper;
            } in
            subst (Over s) (sym split) k
        | inr (same, returned_all) ↦
            let k : Over s s = record {
              all =
                  all_over-all s.workers
                    (λ i h. unfold AllOver in returned_all i (omega (arith, h, l)));
              same_stopper = refl;
            } in
            subst (Over s) (sym (over_stay n (suc rounds) s same)) k
      ]

  stop-stopped :
      (s : System T)
      → all_over s.workers ≡ true
      → s.stopper ≡ joining
      → (act stop_moves s).stopper ≡ stopped
  unfolding act
  stop-stopped s all e = subst (λ p. (stop_step p s).stopper ≡ stopped) (sym e) (join s all)
    where
      join : (s : System T) → all_over s.workers ≡ true → (stop_step joining s).stopper ≡ stopped
      join s all = unfold stop_step in rw all refl

  -- stop() returns: when the thread in stop() has come to the joins, after any steps of the workers,
  -- the callers and other threads in stop(), and then every worker takes a step in each of more
  -- rounds than three times the number of tasks queued, one for each worker in its loop and two for
  -- each that runs a task, the next step of that thread ends the joins.
  pub interleave-joined :
      (threads queue_capacity : ℕ) (actions : List (Action T)) (rounds : ℕ)
      → (interleave actions (start threads queue_capacity)).stopper ≡ joining
      → work (interleave actions (start threads queue_capacity)) < rounds
      → let s = interleave actions (start threads queue_capacity) in
        (act stop_moves (interleave (sweeps (length s.workers) rounds) s)).stopper ≡ stopped
  unfolding act stop_step
  interleave-joined threads queue_capacity actions rounds e few =
      let first : System T = start threads queue_capacity in
      let s = interleave actions first in
      let not_yet : IsShut first = λ x. unfold start in absurd (cc) in
      let shut = interleave-IsShut actions first (start-Sound threads queue_capacity) not_yet e in
      let n = length s.workers in
      let k = sweeps-Over n rounds s shut refl few in
      let t = interleave (sweeps n rounds) s in stop-stopped t k.all (k.same_stopper ∙ e)
