-- ===== src/Bus/Drain.antt =====
-- A subscription that is stopped: its thread returns, and what it does before that.
-- (code/include/rdb/bus/topic_bus.h)
use mw_study.Prelude.{
  ℕ, zero, suc, ◌+◌, ◌<◌, ◌≡◌, refl, ap, ◌∙◌, Bool, true, false, ltb, ◌&&◌, ◌-◌, Option, some,
  Bool-cases, inl, inr, List, [], ◌∷◌, arith, if◌then◌else◌, length, u64,
}
use mw_study.Prelude.Int.{ℤ, pos, negsuc, pos_part}
use mw_study.Qos.{Qos}
use mw_study.Queue.Blocking.{pop-closed_empty, pop-closed_front}
use mw_study.Bus.{Envelope, Subscription}
use mw_study.Bus.Deliver.{
  after, Round, ended, is_expired, is_late, handle, popped, deliver_round, deliver_loop,
}

-- A lifespan above 0 has passed since the message was sent.
abbrev pub outlived : (lifespan : ℤ) (sent now : ℕ) → Bool
outlived (pos zero) sent now = false
outlived (pos (suc n)) sent now = ltb (sent + suc n) now
outlived (negsuc n) sent now = false

outlived_lem :
    (lifespan : ℤ) (sent now : ℕ)
    → (ltb 0 (pos_part lifespan) && ltb sent now && ltb (pos_part lifespan) (now - sent))
      ≡ outlived lifespan sent now
outlived_lem (pos zero) sent now = refl
outlived_lem (pos (suc n)) sent now = ground arith
outlived_lem (negsuc n) sent now = refl

module _ {P : Type 0} where
  is_expired-outlived :
      (q : Qos) (now : ℕ) (e : Envelope P)
      → is_expired q now e ≡ outlived q.lifespan e.publish_ns now
  unfolding is_expired
  is_expired-outlived q now e = outlived_lem q.lifespan e.publish_ns now

  -- Those of the envelopes that have not expired when their round comes.
  abbrev pub fresh : Qos → (ℕ → ℕ) → List (Envelope P) → List (Envelope P)
  fresh q clock [] = []
  fresh q clock (e ∷ es) =
      if outlived q.lifespan e.publish_ns (clock 0)
      then fresh q (λ n. clock (suc n)) es
      else e ∷ fresh q (λ n. clock (suc n)) es

  pub record Drained (clock : ℕ → ℕ) (sub : Subscription P) (items : List (Envelope P))
      (r : Subscription P × List (Envelope P) × Option (Round P)) : Type 0 where
    pub returns : r.2 ≡ some ended
    pub sends : r.1 ≡ fresh sub.qos clock items
    pub leaves : r.0.queue.items ≡ []
    pub handled :
        u64 (r.0.expired + r.0.delivered) ≡ u64 (sub.expired + sub.delivered + length items)

  deliver_round-empty :
      (now : ℕ) (sub : Subscription P)
      → sub.queue.is_closed ≡ true
      → sub.queue.items ≡ []
      → deliver_round now sub ≡ (sub, ended)
  unfolding deliver_round popped
  deliver_round-empty now sub h e = ap (popped now sub) (pop-closed_empty now sub.queue h e)

  deliver_round-front :
      (now : ℕ) (sub : Subscription P) (x : Envelope P) (xs : List (Envelope P))
      → sub.queue.is_closed ≡ true
      → sub.queue.items ≡ x ∷ xs
      → deliver_round now sub
        ≡ handle now x (record sub { queue = record sub.queue { items = xs } })
  unfolding deliver_round popped
  deliver_round-front now sub x xs h e =
      ap (popped now sub) (pop-closed_front now sub.queue x xs h e)

  deliver_loop-empty :
      (fuel : ℕ) (clock : ℕ → ℕ) (sub : Subscription P)
      → sub.queue.is_closed ≡ true
      → sub.queue.items ≡ []
      → Drained clock sub [] (deliver_loop (suc fuel) clock sub)
  unfolding deliver_loop after
  deliver_loop-empty fuel clock sub h e =
      rw (deliver_loop, deliver_round-empty (clock 0) sub h e)
        (record { returns = refl; sends = refl; leaves = e; handled = omega arith })

  -- One round on an envelope at the front, and then the rest.
  step-Drained :
      (fuel : ℕ) (clock : ℕ → ℕ) (sub : Subscription P) (x : Envelope P) (xs : List (Envelope P))
      → sub.queue.is_closed ≡ true
      → sub.queue.items ≡ x ∷ xs
      → ((next : Subscription P)
          → next.queue.is_closed ≡ true
          → next.queue.items ≡ xs
          → Drained (λ n. clock (suc n)) next xs (deliver_loop fuel (λ n. clock (suc n)) next))
      → Drained clock sub (x ∷ xs) (deliver_loop (suc fuel) clock sub)
  unfolding deliver_loop after handle
  step-Drained fuel clock sub x xs h e more =
      let base : Subscription P = record sub { queue = record sub.queue { items = xs } } in
      elim (Bool-cases (is_expired sub.qos (clock 0) x)) [
        | inl stale ↦
            let k = more (record base { expired = u64 (sub.expired + 1) }) h refl in
            rw (deliver_loop, deliver_round-front (clock 0) sub x xs h e, handle, stale)
              (record {
                returns = k.returns;
                sends = k.sends ∙ rw (← is_expired-outlived sub.qos (clock 0) x, stale) refl;
                leaves = k.leaves;
                handled = omega (arith, k.handled);
              })
        | inr valid ↦
            let k =
              more
                (record base {
                  deadline_missed =
                      if is_late sub.qos (clock 0) sub.last_delivery_ns
                      then u64 (sub.deadline_missed + 1)
                      else sub.deadline_missed;
                  last_delivery_ns = clock 0;
                  delivered = u64 (sub.delivered + 1);
                })
                h refl in
            rw (deliver_loop, deliver_round-front (clock 0) sub x xs h e, handle, valid)
              (record {
                returns = k.returns;
                sends =
                    ap (◌∷◌ x) k.sends ∙ rw (← is_expired-outlived sub.qos (clock 0) x, valid) refl;
                leaves = k.leaves;
                handled = omega (arith, k.handled);
              })
      ]

  deliver_loop-items :
      (fuel : ℕ) (clock : ℕ → ℕ) (sub : Subscription P) (items : List (Envelope P))
      → sub.queue.is_closed ≡ true
      → sub.queue.items ≡ items
      → length items < fuel
      → Drained clock sub items (deliver_loop fuel clock sub)
  deliver_loop-items zero clock sub items h e l = absurd (omega arith)
  deliver_loop-items (suc fuel) clock sub [] h e l = deliver_loop-empty fuel clock sub h e
  deliver_loop-items (suc fuel) clock sub (x ∷ xs) h e l =
      step-Drained fuel clock sub x xs h e
        (λ next h' e'. deliver_loop-items fuel (λ n. clock (suc n)) next xs h' e' (omega arith))

  -- Once its queue is closed, the thread of a subscription returns, so that join() does: with at
  -- least one more round than envelopes queued it has ended, whatever the clock shows. It has then
  -- called the callback with those whose lifespan, where it is above 0, had not passed since they
  -- were published, in order, left none in the queue, and counted each as delivered or expired,
  -- modulo 2^64.
  pub deliver_loop-Drained :
      (fuel : ℕ) (clock : ℕ → ℕ) (sub : Subscription P)
      → sub.queue.is_closed ≡ true
      → length sub.queue.items < fuel
      → Drained clock sub sub.queue.items (deliver_loop fuel clock sub)
  deliver_loop-Drained fuel clock sub h l =
      deliver_loop-items fuel clock sub sub.queue.items h refl l
