-- ===== src/Queue/Wakeup.antt =====
-- No wakeup of BoundedQueue is lost: its choice of `notify_one` and `notify_all` never leaves a
-- thread asleep that could go on, with nobody on the way to wake it.
-- (code/include/rdb/concurrency/bounded_queue.h)
use mw_study.Prelude.{
  ℕ, ◌+◌, ◌≤◌, ◌<◌, ◌≡◌, refl, ◌≢◌, ◌⊎◌, Bool, true, false, List, [], ◌∷◌, ◌++◌, arith, length,
  length-append, Option, none, some,
}
use mw_study.Queue.{
  Queue, OverflowPolicy, push_waiting, append, pop_waiting, take_front, is_empty, close, clear,
  sleeping,
}
use mw_study.Queue.Change.{
  count, pops_one, push_waiting-PushChange, push_until-PushChange, pop_waiting-PopChange,
  pop_until-PopChange,
}
use mw_study.Queue.Blocking.{push_until-sleeping_iff, pop_until-sleeping_iff}
use mw_study.Queue.Invariant.{
  IsValid, new-IsValid, push_until-IsValid, push_waiting-IsValid, pop_until-IsValid,
  pop_waiting-IsValid, close-IsValid, clear-IsValid,
}
use mw_study.Queue.Threads.{
  System, Step, push_returns, push_sleeps, push_wakes, resumed_push_returns, resumed_push_sleeps,
  pop_returns, pop_sleeps, pop_wakes, resumed_pop_returns, resumed_pop_sleeps, closes,
  close_notifies_empty, close_notifies_full, clears, Notified, silent, nobody, wakes, until, start,
  Reach, here, next,
}

-- While the queue is open, sleeping producers mean that every free slot has a producer awake for
-- it, and sleeping consumers that every item has a consumer awake for it. Once it is closed, whoever
-- sleeps has a call of `close` that is still to notify.
pub record Covered {ℓ} {A : Type ℓ} (s : System A) : Type 0 where
  pub pushers :
      s.queue.is_closed ≡ false
      → 0 < length s.pushers_asleep
      → s.queue.capacity ≤ length s.queue.items + length s.pushers_awake
  pub poppers :
      s.queue.is_closed ≡ false
      → 0 < length s.poppers_asleep
      → length s.queue.items ≤ length s.poppers_awake
  pub closed_pushers :
      s.queue.is_closed ≡ true → 0 < length s.pushers_asleep → 0 < s.closing_empty + s.closing_full
  pub closed_poppers : s.queue.is_closed ≡ true → 0 < length s.poppers_asleep → 0 < s.closing_empty

-- `notify_one` in numbers.
record Moved {ℓ} {W : Type ℓ} (b : Bool) (asleep awake asleep' awake' : List W) : Type 0 where
  pub total : length asleep' + length awake' ≡ length asleep + length awake
  pub less : length asleep' ≤ length asleep
  pub one : 0 < length asleep' → length awake' ≡ length awake + count b

module _ {ℓ} {W : Type ℓ} where
  length-split : (xs ys : List W) (w : W) → length (xs ++ (w ∷ ys)) ≡ length (xs ++ ys) + 1
  length-split xs ys w = omega (arith, length-append xs (w ∷ ys), length-append xs ys)

  Notified-Moved :
      {b : Bool} {asleep awake asleep' awake' : List W}
      → Notified b asleep awake asleep' awake'
      → Moved b asleep awake asleep' awake'
  Notified-Moved (silent e f g) = ground arith
  Notified-Moved (nobody e f g h) = ground arith
  Notified-Moved (wakes xs ys w e f g h) = ground (arith, length-split xs ys w)

module _ {ℓ} {A : Type ℓ} where
  -- A producer that was asleep and returns has met a full queue or taken a slot.
  resumed_push :
      (v : A) (t : Option ℕ) (now : ℕ) (q : Queue A)
      → q.is_closed ≡ false
      → (push_waiting v (until t) now q).2 ≢ sleeping
      → (q.capacity ≤ length q.items)
        ⊎ (length q.items + 1 ≤ length (push_waiting v (until t) now q).0.items)
  unfolding push_waiting append
  resumed_push v none now q h e = ground (arith, length-append q.items (v ∷ []))
  resumed_push v (some t) now q h e = ground (arith, length-append q.items (v ∷ []))

  resumed_push-sleeping :
      (v : A) (t : Option ℕ) (now : ℕ) (q : Queue A)
      → (push_waiting v (until t) now q).2 ≡ sleeping
      → (q.is_closed ≡ false) × (q.capacity ≤ length q.items)
  unfolding push_waiting
  resumed_push-sleeping v none now q e = ground arith
  resumed_push-sleeping v (some t) now q e = ground arith

  resumed_pop_from :
      (t : Option ℕ) (now : ℕ) (q : Queue A) (xs : List A)
      → q.items ≡ xs
      → ((length xs ≡ 0) ⊎ (pops_one (pop_waiting (until t) now q).1 ≡ true))
        × ((pop_waiting (until t) now q).1 ≡ sleeping → (q.is_closed ≡ false) × (length xs ≡ 0))
  unfolding pop_waiting take_front is_empty
  resumed_pop_from none now q [] e = ground arith
  resumed_pop_from none now q (x ∷ xs) e = ground arith
  resumed_pop_from (some t) now q [] e = ground arith
  resumed_pop_from (some t) now q (x ∷ xs) e = ground arith

  Step-Covered : {s s' : System A} → Step s s' → Covered s → Covered s'
  Step-Covered {s} (push_returns v d now r asleep awake e m) c =
      ground (arith, push_until-PushChange v d now s.queue, Notified-Moved m)
  Step-Covered {s} (push_sleeps v t now e) c = ground (
    arith,
    push_until-PushChange v (until t) now s.queue,
    push_until-sleeping_iff v (until t) now s.queue,
  )
  Step-Covered {s} (push_wakes xs ys w e) c = ground (arith, length-split xs ys w)
  Step-Covered {s} (resumed_push_returns xs ys v t now r asleep awake w e m) c = ground (
    arith,
    push_waiting-PushChange v (until t) now s.queue,
    resumed_push v t now s.queue,
    length-split xs ys (v, t),
    Notified-Moved m,
  )
  Step-Covered {s} (resumed_push_sleeps xs ys v t now w e) c = ground (
    arith,
    push_waiting-PushChange v (until t) now s.queue,
    resumed_push-sleeping v t now s.queue e,
    length-split xs ys (v, t),
  )
  Step-Covered {s} (pop_returns d now o asleep awake e m) c =
      ground (arith, pop_until-PopChange d now s.queue, Notified-Moved m)
  Step-Covered {s} (pop_sleeps t now e) c = ground (
    arith,
    pop_until-PopChange (until t) now s.queue,
    pop_until-sleeping_iff (until t) now s.queue,
  )
  Step-Covered {s} (pop_wakes xs ys w e) c = ground (arith, length-split xs ys w)
  Step-Covered {s} (resumed_pop_returns xs ys t now o asleep awake w e m) c = ground (
    arith,
    pop_waiting-PopChange (until t) now s.queue,
    resumed_pop_from t now s.queue s.queue.items refl,
    length-split xs ys t,
    Notified-Moved m,
  )
  Step-Covered {s} (resumed_pop_sleeps xs ys t now w e) c = ground (
    arith,
    pop_waiting-PopChange (until t) now s.queue,
    resumed_pop_from t now s.queue s.queue.items refl,
    length-split xs ys t,
  )
  Step-Covered closes c = unfold close in ground arith
  Step-Covered {s} (close_notifies_empty n e) c =
      ground (arith, length-append s.poppers_asleep s.poppers_awake)
  Step-Covered {s} (close_notifies_full n e) c =
      ground (arith, length-append s.pushers_asleep s.pushers_awake)
  Step-Covered {s} clears c =
      unfold clear in ground (arith, length-append s.pushers_asleep s.pushers_awake)

  Reach-Covered : {s s' : System A} → Covered s → Reach s s' → Covered s'
  Reach-Covered c here = c
  Reach-Covered c (next r st) = Step-Covered st (Reach-Covered c r)

  Covered-start : (capacity : ℕ) (p : OverflowPolicy) → Covered (start {A = A} capacity p)
  Covered-start capacity p = omega arith

  Step-IsValid : {s s' : System A} → Step s s' → IsValid s.queue → IsValid s'.queue
  Step-IsValid (push_returns v d now r asleep awake e m) h = push_until-IsValid v d now h
  Step-IsValid (push_sleeps v t now e) h = push_until-IsValid v (until t) now h
  Step-IsValid (push_wakes xs ys w e) h = h
  Step-IsValid (resumed_push_returns xs ys v t now r asleep awake w e m) h =
      push_waiting-IsValid v (until t) now h
  Step-IsValid (resumed_push_sleeps xs ys v t now w e) h = push_waiting-IsValid v (until t) now h
  Step-IsValid (pop_returns d now o asleep awake e m) h = pop_until-IsValid d now h
  Step-IsValid (pop_sleeps t now e) h = pop_until-IsValid (until t) now h
  Step-IsValid (pop_wakes xs ys w e) h = h
  Step-IsValid (resumed_pop_returns xs ys t now o asleep awake w e m) h =
      pop_waiting-IsValid (until t) now h
  Step-IsValid (resumed_pop_sleeps xs ys t now w e) h = pop_waiting-IsValid (until t) now h
  Step-IsValid closes h = close-IsValid h
  Step-IsValid (close_notifies_empty n e) h = h
  Step-IsValid (close_notifies_full n e) h = h
  Step-IsValid clears h = clear-IsValid h

  Reach-IsValid : {s s' : System A} → IsValid s.queue → Reach s s' → IsValid s'.queue
  Reach-IsValid h here = h
  Reach-IsValid h (next r st) = Step-IsValid st (Reach-IsValid h r)

-- Nobody is on the way: no thread has been woken and not yet run, and no `close` is still to notify.
pub record IsQuiet {ℓ} {A : Type ℓ} (s : System A) : Type ℓ where
  pub no_pusher : s.pushers_awake ≡ []
  pub no_popper : s.poppers_awake ≡ []
  pub none_closing : s.closing_empty + s.closing_full ≡ 0

-- Whatever producers, consumers, close() and clear() did, in any interleaving and with any choice of
-- whom notify_one wakes: once nobody is on the way (woken and not yet run, or in a close() that is
-- still to notify), a producer sleeps only while the queue is open and full, a consumer only while
-- it is open and empty, and producers and consumers never sleep at the same time.
pub no_lost_wakeup {ℓ} :
    {A : Type ℓ} (capacity : ℕ) (p : OverflowPolicy) {s : System A}
    → Reach (start capacity p) s
    → IsQuiet s
    → (0 < length s.pushers_asleep
        → (s.queue.is_closed ≡ false) × (s.queue.capacity ≤ length s.queue.items))
      × (0 < length s.poppers_asleep → (s.queue.is_closed ≡ false) × (length s.queue.items ≡ 0))
      × ((length s.pushers_asleep ≡ 0) ⊎ (length s.poppers_asleep ≡ 0))
no_lost_wakeup capacity p {s} r z =
    ground
      (arith, Reach-Covered (Covered-start capacity p) r, Reach-IsValid (new-IsValid capacity p) r)
