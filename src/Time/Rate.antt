-- ===== src/Time/Rate.antt =====
-- A ticker keeps its rate. (code/include/rdb/common/time.h)
use mw_study.Prelude.{
  ℕ, zero, suc, if-elim, leb→le, ◌+◌, ◌*◌, ◌≤◌, ◌≡◌, refl, ap, ◌∙◌, Bool, true, false, List, [],
  ◌∷◌, arith, leb, length, replicate, some, get_elem?,
}
use mw_study.Time.{Ticker, sleep_until_next, ticks}

-- What `n` ticks did: they were no faster than the period, and if none caught up just as fast; and
-- the base of the next tick is at or after each reading that caught up.
pub record Paced (nows : List ℕ) (t : Ticker) (r : Ticker × List Bool) : Type 0 where
  pub same_period : r.0.period ≡ t.period
  pub one_each : length r.1 ≡ length nows
  pub not_faster : t.next + length nows * t.period ≤ r.0.next
  pub no_drift : r.1 ≡ replicate (length nows) false → r.0.next ≡ t.next + length nows * t.period
  pub caught_up :
      (i now : ℕ) → get_elem? nows i ≡ some now → get_elem? r.1 i ≡ some true → now ≤ r.0.next

-- One tick, and what the others did from there.
tick-Paced :
    (now : ℕ) (nows : List ℕ) (t next : Ticker) (b : Bool) (r : Ticker × List Bool)
    → next.period ≡ t.period
    → t.next + t.period ≤ next.next
    → (b ≡ false → next.next ≡ t.next + t.period)
    → (b ≡ true → now ≤ next.next)
    → Paced nows next r
    → Paced (now ∷ nows) t (r.0, b ∷ r.1)
tick-Paced now nows t next b r p far on_time late h =
    let more : suc (length nows) * t.period ≡ t.period + length nows * t.period = omega arith in
    let same : length nows * next.period ≡ length nows * t.period = ap (λ q. length nows * q) p in
    record {
      same_period = h.same_period ∙ p;
      one_each = ap suc h.one_each;
      not_faster = omega (arith, h.not_faster, far, more, same);
      no_drift = λ e.
          let (first, rest) = split e in
          let d = h.no_drift rest in let f = on_time first in omega (arith, d, f, more, same);
      caught_up = later;
    }
  where
    split :
        b ∷ r.1 ≡ false ∷ replicate (length nows) false
        → (b ≡ false) × (r.1 ≡ replicate (length nows) false)
    split e = (cc, cc)

    later :
        (i at : ℕ)
        → get_elem? (now ∷ nows) i ≡ some at
        → get_elem? (b ∷ r.1) i ≡ some true
        → at ≤ r.0.next
    later zero at e f =
        let same : now ≡ at = cc in let k = late (cc) in omega (arith, same, k, h.not_faster)
    later (suc i) at e f = h.caught_up i at e f

-- Any number of calls of sleep_until_next, with any readings of the clock: with `n` calls the base
-- has moved on by at least `n` periods, and by just `n` periods, whatever the work between the calls
-- took, if no call caught up; and it is at or after the reading of each call that caught up.
pub ticks-Paced : (nows : List ℕ) (t : Ticker) → Paced nows t (ticks nows t)
unfolding ticks sleep_until_next
ticks-Paced [] t = record {
  same_period = refl;
  one_each = refl;
  not_faster = omega arith;
  no_drift = λ _. omega arith;
  caught_up = λ i now e f. absurd (cc);
}
ticks-Paced (now ∷ nows) t =
    if-elim
      (λ (x : Ticker × Bool). Paced (now ∷ nows) t ((ticks nows x.0).0, x.1 ∷ (ticks nows x.0).1))
      (leb (t.next + t.period) now)
      (λ e.
        let next : Ticker = record t { next = now } in
        tick-Paced now nows t next true (ticks nows next) refl (leb→le (t.next + t.period) now e)
          (λ f. absurd (cc)) (λ _. omega arith) (ticks-Paced nows next))
      (λ e.
        let next : Ticker = record t { next = t.next + t.period } in
        tick-Paced now nows t next false (ticks nows next) refl (omega arith) (λ _. refl)
          (λ f. absurd (cc)) (ticks-Paced nows next))
