-- ===== src/Bus/TypedDeliver.antt =====
-- A round of `deliver_loop` keeps the type of the envelopes. (code/include/rdb/bus/topic_bus.h)
use mw_study.Prelude.{ℕ, ◌≡◌, refl, Option, none, some, if-elim, AllOf}
use mw_study.Queue
use mw_study.Queue.{Queue, Slice, returned, sleeping}
use mw_study.Queue.Contents.{Popped, pop-AllOf}
use mw_study.Bus.{Envelope, Subscription}
use mw_study.Bus.Deliver.{
  Round, waiting, ended, expiry, delivery, is_expired, handle, popped, deliver_round,
}
use mw_study.Bus.Typed.{Carries, SubTyped}

module _ {P : Type 0} (type_of : P → ℕ) where
  -- What the callback gets.
  abbrev pub Sends : Subscription P → Round P → Type 0
  Sends sub waiting = Unit
  Sends sub ended = Unit
  Sends sub (expiry e) = Unit
  Sends sub (delivery e) = Carries type_of sub.type_index e

  -- The subscription after a round, and what the round sent.
  abbrev pub RoundTyped : Subscription P → Subscription P × Round P → Type 0
  RoundTyped old (sub, round) =
      (sub.type_index ≡ old.type_index) × SubTyped type_of sub × Sends old round

  popped-RoundTyped :
      (now : ℕ) (old : Subscription P) (r : Queue (Envelope P) × Slice (Option (Envelope P)))
      → AllOf (Carries type_of old.type_index) r.0.items
      → Popped (Carries type_of old.type_index) r.1
      → RoundTyped old (popped now old r)
  unfolding popped handle
  popped-RoundTyped now old (queue, sleeping) h k = (refl, h, tt)
  popped-RoundTyped now old (queue, returned none) h k = (refl, h, tt)
  popped-RoundTyped now old (queue, returned (some e)) h k =
      if-elim (λ r. RoundTyped old r) (is_expired old.qos now e) (λ _. (refl, h, tt))
        (λ _. (refl, h, k))

  pub deliver_round-RoundTyped :
      (now : ℕ) (sub : Subscription P)
      → SubTyped type_of sub
      → RoundTyped sub (deliver_round now sub)
  unfolding deliver_round
  deliver_round-RoundTyped now sub typed =
      let (items, out) = pop-AllOf (Carries type_of sub.type_index) now sub.queue typed in
      popped-RoundTyped now sub (Queue.pop now sub.queue) items out
