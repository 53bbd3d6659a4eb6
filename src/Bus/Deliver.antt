-- ===== src/Bus/Deliver.antt =====
-- The thread of a subscription. (code/include/rdb/bus/topic_bus.h)
use mw_study.Prelude.{
  ℕ, zero, suc, ◌+◌, ◌-◌, Bool, ◌&&◌, not, Option, none, some, List, [], ◌∷◌, ltb, ◌==◌,
  if◌then◌else◌, u64, sub64,
}
use mw_study.Prelude.Int.{pos, pos_part, ltb_ℤ}
use mw_study.Qos.{Qos}
use mw_study.Queue.{Queue, Slice, returned, sleeping}
use mw_study.Queue
use mw_study.Bus.{Envelope, Subscription}

-- How one round of `deliver_loop` ends: asleep in `pop`, returned, with an expired envelope, or
-- with a call of the callback.
pub data Round (P : Type 0) : Type 0 where
  waiting ended : Round P
  expiry : Envelope P → Round P
  delivery : Envelope P → Round P

-- The test on the deadline.
unfoldable pub is_late : Qos → ℕ → ℕ → Bool
is_late qos now last =
    ltb_ℤ (pos 0) qos.deadline && (not (last == 0) && ltb (pos_part qos.deadline) (sub64 now last))

module _ {P : Type 0} where
  -- The test on the lifespan; `count() > 0 ? count() : 0` is `pos_part`.
  unfoldable pub is_expired : Qos → ℕ → Envelope P → Bool
  is_expired qos now envelope =
      let lifespan = pos_part qos.lifespan in
      ltb 0 lifespan && ltb envelope.publish_ns now && ltb lifespan (now - envelope.publish_ns)

  -- The loop's body from `now_ns()` on.
  unfoldable pub handle : ℕ → Envelope P → Subscription P → Subscription P × Round P
  handle now envelope sub =
      if is_expired sub.qos now envelope
      then (record sub { expired = u64 (sub.expired + 1) }, expiry envelope)
      else (
        record sub {
          deadline_missed =
              if is_late sub.qos now sub.last_delivery_ns
              then u64 (sub.deadline_missed + 1)
              else sub.deadline_missed;
          last_delivery_ns = now;
          delivered = u64 (sub.delivered + 1);
        },
        delivery envelope,
      )

  unfoldable pub popped :
      ℕ
      → Subscription P
      → Queue (Envelope P) × Slice (Option (Envelope P))
      → Subscription P × Round P
  popped now sub (queue, sleeping) = (record sub { queue = queue }, waiting)
  popped now sub (queue, returned none) = (record sub { queue = queue }, ended)
  popped now sub (queue, returned (some envelope)) =
      handle now envelope (record sub { queue = queue })

  -- One round of `deliver_loop`.
  unfoldable pub deliver_round : ℕ → Subscription P → Subscription P × Round P
  deliver_round now sub = popped now sub (Queue.pop now sub.queue)

  -- `continue` and `return`: what the loop does after a round, with the rest of its rounds.
  unfoldable pub after :
      (Subscription P → Subscription P × List (Envelope P) × Option (Round P))
      → Subscription P × Round P
      → Subscription P × List (Envelope P) × Option (Round P)
  after rest (next, waiting) = (next, [], some waiting)
  after rest (next, ended) = (next, [], some ended)
  after rest (next, expiry e) = rest next
  after rest (next, delivery e) = let (last, sent, end) = rest next in (last, e ∷ sent, end)

  -- `deliver_loop` until it sleeps or returns: what it called the callback with, and how it ended,
  -- `none` when the fuel ran out. `clock n` is the time of round `n`.
  unfoldable pub deliver_loop :
      (fuel : ℕ) (clock : ℕ → ℕ)
      → Subscription P
      → Subscription P × List (Envelope P) × Option (Round P)
  deliver_loop zero clock sub = (sub, [], none)
  deliver_loop (suc fuel) clock sub =
      after (deliver_loop fuel (λ n. clock (suc n))) (deliver_round (clock 0) sub)
