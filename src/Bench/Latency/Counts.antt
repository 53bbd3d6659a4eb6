-- ===== src/Bench/Latency/Counts.antt =====
-- What the counters of the latency benchmark say. (code/bench/bench_bus_latency.cpp)
use mw_study.Prelude.{
  ℕ, ◌+◌, ◌≤◌, ◌≡◌, refl, ap, sym, ◌∙◌, subst, Bool, List, [], ◌∷◌, arith, length, u64, sub64, map,
}
use mw_study.Pool
use mw_study.Pool.{Buffer, BufferPool, acquire_from}
use mw_study.Histogram.{record_value}
use mw_study.Histogram.Merge.{record_all}
use mw_study.Bench.Latency.{
  SubscriberState, on_message, on_messages, PublishLoop, LoopRound, tick, release_all, send,
  publish_round, publish_loop,
}

-- Messages that come in with their numbers in order.
abbrev pub InOrder : ℕ → List (ℕ × (ℕ × ℕ)) → Type 0
InOrder last [] = Unit
InOrder last ((now, (seq, publish_ns)) ∷ messages) = (last ≤ seq) × InOrder seq messages

abbrev pub delay : ℕ × (ℕ × ℕ) → ℕ
delay (now, (seq, publish_ns)) = sub64 now publish_ns

-- What a subscriber has counted.
pub record Counted (messages : List (ℕ × (ℕ × ℕ))) (s t : SubscriberState) : Type 0 where
  pub recorded : t.latency ≡ record_all (map delay messages) s.latency
  pub received : u64 t.received ≡ u64 (s.received + length messages)
  pub in_order : InOrder s.last_seq messages → t.out_of_order ≡ s.out_of_order

on_message-counts :
    (now seq publish_ns : ℕ) (s : SubscriberState)
    → ((on_message now seq publish_ns s).latency ≡ record_value (sub64 now publish_ns) s.latency)
      × ((on_message now seq publish_ns s).received ≡ u64 (s.received + 1))
      × ((on_message now seq publish_ns s).last_seq ≡ seq)
      × (s.last_seq ≤ seq → (on_message now seq publish_ns s).out_of_order ≡ s.out_of_order)
unfolding on_message
on_message-counts now seq publish_ns s = (refl, refl, refl, λ h. ground arith)

-- A subscriber's histogram has recorded the delay of every message, in order of arrival, and its
-- count is that of the messages, modulo 2^64; if none has a number below that of the message before
-- it, none is counted as out of order.
pub on_messages-Counted :
    (messages : List (ℕ × (ℕ × ℕ))) (s : SubscriberState)
    → Counted messages s (on_messages messages s)
unfolding on_messages record_all
on_messages-Counted [] s = record { recorded = refl; received = omega arith; in_order = λ _. refl }
on_messages-Counted ((now, (seq, publish_ns)) ∷ messages) s =
    let t = on_message now seq publish_ns s in
    let k = on_messages-Counted messages t in
    let (latency, received, last, kept) = on_message-counts now seq publish_ns s in
    record {
      recorded = k.recorded ∙ ap (record_all (map delay messages)) latency;
      received = omega (arith, k.received, received);
      in_order = λ h. k.in_order (subst (λ l. InOrder l messages) (sym last) h.1) ∙ kept h.0;
    }

release_all-exhausted :
    (bs : List Buffer) (pool : BufferPool) → (release_all bs pool).exhausted ≡ pool.exhausted
unfolding release_all Pool.release
release_all-exhausted [] pool = refl
release_all-exhausted (b ∷ bs) pool = release_all-exhausted bs (Pool.release b pool)

-- A round counts an empty pool as often as the pool does.
send-exhausted :
    (payload_bytes : ℕ) (accepted : Bool) (free : List Buffer) (pool : BufferPool) (s : PublishLoop)
    → let t = (send payload_bytes accepted (acquire_from free pool) s).0 in
      u64 (t.pool.exhausted + s.pool_empty) ≡ u64 (pool.exhausted + t.pool_empty)
unfolding send acquire_from
send-exhausted payload_bytes accepted [] pool s = omega arith
send-exhausted payload_bytes accepted (raw ∷ rest) pool s = refl

publish_round-exhausted :
    (payload_bytes : ℕ) (r : LoopRound) (s : PublishLoop)
    → let t = (publish_round payload_bytes r s).0 in
      u64 (t.pool.exhausted + s.pool_empty) ≡ u64 (s.pool.exhausted + t.pool_empty)
unfolding publish_round tick Pool.acquire
publish_round-exhausted payload_bytes r s =
    let pool = release_all r.released s.pool in
    send-exhausted payload_bytes r.accepted pool.free pool s
    ∙ ap
        (λ n.
          u64 (n + (send payload_bytes r.accepted (acquire_from pool.free pool) s).0.pool_empty))
        (release_all-exhausted r.released s.pool)

-- The `pool_empty` that the program prints and the pool's exhausted_count() have grown by the same
-- number, modulo 2^64, whatever comes back to the pool and what publish returns.
pub publish_loop-exhausted :
    (payload_bytes : ℕ) (rounds : List LoopRound) (s : PublishLoop)
    → let t = (publish_loop payload_bytes rounds s).0 in
      u64 (t.pool.exhausted + s.pool_empty) ≡ u64 (s.pool.exhausted + t.pool_empty)
unfolding publish_loop
publish_loop-exhausted payload_bytes [] s = refl
publish_loop-exhausted payload_bytes (r ∷ rounds) s =
    let one = publish_round-exhausted payload_bytes r s in
    let rest = publish_loop-exhausted payload_bytes rounds (publish_round payload_bytes r s).0 in
    omega (arith, one, rest)
