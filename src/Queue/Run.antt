-- ===== src/Queue/Run.antt =====
-- Any sequence of slices on one BoundedQueue, with what each takes in and gives out.
-- (code/include/rdb/concurrency/bounded_queue.h)
use mw_study.Prelude.{ℕ, ◌+◌, Option, none, some, List, [], ◌∷◌, ◌++◌}
use mw_study.Queue.{
  Queue, Deadline, PushStatus, ok, dropped_newest, dropped_oldest, Slice, returned, sleeping,
  push_until, push_waiting, pop_until, pop_waiting, close, clear,
}

-- The slices that threads can run. A `resume` is a waiter that has the mutex again, whether it was
-- notified, woke up by itself or ran out of time.
pub data Call {ℓ} (A : Type ℓ) : Type ℓ where
  start_push resume_push : A → Deadline → Call A
  start_pop resume_pop : Deadline → Call A
  closes clears : Call A

-- What went in, what came out (popped, evicted or discarded, in order), how many were dropped.
pub record Log {ℓ} (A : Type ℓ) : Type ℓ where
  pub entered : List A
  pub left : List A
  pub drops : ℕ

unfoldable pub drops_by : Slice PushStatus → ℕ
drops_by (returned dropped_newest) = 1
drops_by (returned dropped_oldest) = 1
drops_by _ = 0

module _ {ℓ} {A : Type ℓ} where
  abbrev pub to_list : Option A → List A
  to_list none = []
  to_list (some a) = a ∷ []

  unfoldable pub entered_by : A → Slice PushStatus → List A
  entered_by v (returned ok) = v ∷ []
  entered_by v (returned dropped_oldest) = v ∷ []
  entered_by v _ = []

  unfoldable pub left_by : Slice (Option A) → List A
  left_by (returned o) = to_list o
  left_by sleeping = []

  unfoldable pub push_log : A → Queue A × Option A × Slice PushStatus → Queue A × Log A
  unfolding entered_by drops_by
  push_log v (q, evicted, s) =
      (q, record { entered = entered_by v s; left = to_list evicted; drops = drops_by s })

  unfoldable pub pop_log : Queue A × Slice (Option A) → Queue A × Log A
  unfolding left_by
  pop_log (q, s) = (q, record { entered = []; left = left_by s; drops = 0 })

  unfoldable pub step : ℕ × Call A → Queue A → Queue A × Log A
  unfolding push_log pop_log
  step (now, start_push v d) q = push_log v (push_until v d now q)
  step (now, resume_push v d) q = push_log v (push_waiting v d now q)
  step (now, start_pop d) q = pop_log (pop_until d now q)
  step (now, resume_pop d) q = pop_log (pop_waiting d now q)
  step (now, closes) q = (close q, record { entered = []; left = []; drops = 0 })
  step (now, clears) q =
      let (q', discarded) = clear q in (q', record { entered = []; left = discarded; drops = 0 })

  unfoldable pub run : List (ℕ × Call A) → Queue A → Queue A × Log A
  run [] q = (q, record { entered = []; left = []; drops = 0 })
  run (c ∷ cs) q =
      let (q₁, l₁) = step c q in
      let (q₂, l₂) = run cs q₁ in
      (
        q₂,
        record {
          entered = l₁.entered ++ l₂.entered;
          left = l₁.left ++ l₂.left;
          drops = l₁.drops + l₂.drops;
        },
      )
