-- ===== src/Workers/Counting.antt =====
-- The tasks in the logs of a ThreadPool, and those that are running.
-- (code/include/rdb/concurrency/thread_pool.h)
use mw_study.Prelude.{
  ℕ, zero, suc, ◌+◌, ◌≡◌, refl, ap, Bool, true, false, some, List, [], ◌∷◌, ◌++◌, map, arith,
  if◌then◌else◌, get_elem?, set,
}
use mw_study.Workers.System.{Worker, looping, over, running, all_over}

module _ {ℓ} {T : Type ℓ} where
  -- How many of the tasks pass a test.
  abbrev pub count : (T → Bool) → List T → ℕ
  count f [] = 0
  count f (x ∷ xs) = if f x then suc (count f xs) else count f xs

  -- The tasks that workers took from the queue, in order.
  abbrev pub taken : List (Bool × T) → List T
  taken [] = []
  taken ((true, task) ∷ l) = task ∷ taken l
  taken ((false, task) ∷ l) = taken l

  abbrev pub task_of : Worker T → List T
  task_of looping = []
  task_of over = []
  task_of (running task) = task ∷ []

  -- The tasks that are running.
  abbrev pub busy : List (Worker T) → List T
  busy [] = []
  busy (w ∷ ws) = task_of w ++ busy ws

  pub count-append : (f : T → Bool) (xs ys : List T) → count f (xs ++ ys) ≡ count f xs + count f ys
  count-append f [] ys = omega arith
  count-append f (x ∷ xs) ys = ground (arith, count-append f xs ys)

  pub taken-append : (xs ys : List (Bool × T)) → taken (xs ++ ys) ≡ taken xs ++ taken ys
  taken-append [] ys = refl
  taken-append ((true, task) ∷ xs) ys = ap (◌∷◌ task) (taken-append xs ys)
  taken-append ((false, task) ∷ xs) ys = taken-append xs ys

  pub taken-discarded : (xs : List T) → taken (map (λ task. (false, task)) xs) ≡ []
  taken-discarded [] = refl
  taken-discarded (x ∷ xs) = taken-discarded xs

  pub tasks-discarded :
      (xs : List T) → map (λ (x : Bool × T). x.1) (map (λ task. (false, task)) xs) ≡ xs
  tasks-discarded [] = refl
  tasks-discarded (x ∷ xs) = ap (◌∷◌ x) (tasks-discarded xs)

  pub tasks-append :
      (xs ys : List (Bool × T))
      → map (λ (x : Bool × T). x.1) (xs ++ ys)
        ≡ map (λ (x : Bool × T). x.1) xs ++ map (λ (x : Bool × T). x.1) ys
  tasks-append [] ys = refl
  tasks-append (x ∷ xs) ys = ap (◌∷◌ x.1) (tasks-append xs ys)

  -- One worker goes on.
  pub busy-set :
      (f : T → Bool) (ws : List (Worker T)) (i : ℕ) {w : Worker T} (next : Worker T)
      → get_elem? ws i ≡ some w
      → count f (busy (set ws i next)) + count f (task_of w)
        ≡ count f (busy ws) + count f (task_of next)
  busy-set f [] i next e = absurd (cc)
  busy-set f (x ∷ ws) zero {w} next e =
      let p : count f (task_of x) ≡ count f (task_of w) =
        let q : x ≡ w = cc in ap (λ (v : Worker T). count f (task_of v)) q in
      omega
        (arith, p, count-append f (task_of next) (busy ws), count-append f (task_of x) (busy ws))
  busy-set f (x ∷ ws) (suc i) {w} next e = omega (
    arith,
    busy-set f ws i {w = w} next e,
    count-append f (task_of x) (busy ws),
    count-append f (task_of x) (busy (set ws i next)),
  )

  pub all_over-get :
      (ws : List (Worker T)) (i : ℕ) {w : Worker T}
      → all_over ws ≡ true
      → get_elem? ws i ≡ some w
      → w ≡ over
  all_over-get [] i h e = absurd (cc)
  all_over-get (over ∷ ws) zero h e = cc
  all_over-get (over ∷ ws) (suc i) h e = all_over-get ws i h e
  all_over-get (looping ∷ ws) i h e = absurd (cc)
  all_over-get (running task ∷ ws) i h e = absurd (cc)

  pub all_over-busy : (ws : List (Worker T)) → all_over ws ≡ true → busy ws ≡ []
  all_over-busy [] h = refl
  all_over-busy (over ∷ ws) h = all_over-busy ws h
  all_over-busy (looping ∷ ws) h = absurd (cc)
  all_over-busy (running task ∷ ws) h = absurd (cc)
