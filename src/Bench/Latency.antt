-- ===== src/Bench/Latency.antt =====
-- code/bench/bench_bus_latency.cpp: the loop that publishes, and the callback of a subscriber.
-- What the bus does with a message between these two is the model of Bus.
pub mod Counts
use mw_study.Prelude.{
  ℕ, ◌+◌, ◌-◌, ◌%◌, ◌^◌, ◌≤◌, ◌<◌, ◌≡◌, refl, ap, sym, ◌∙◌, Bool, true, false, Bool-cases, inl, inr,
  Option, none, some, List, [], ◌∷◌, ◌++◌, arith, ltb, if◌then◌else◌, if-elim, length, u64, sub64,
  map,
}
use mw_study.Pool
use mw_study.Pool.{Buffer, BufferPool}
use mw_study.Histogram
use mw_study.Histogram.{Histogram, record_value}
use mw_study.Histogram.Merge.{record_all}
use mw_study.Time.{Ticker, sleep_until_next}

-- `SubscriberState`, without `work`, which only sleeps.
pub record SubscriberState : Type 0 where
  pub latency : Histogram
  pub received : ℕ
  pub out_of_order : ℕ
  pub last_seq : ℕ

abbrev pub fresh_state : SubscriberState
fresh_state = record { latency = Histogram.new; received = 0; out_of_order = 0; last_seq = 0 }

-- The callback, for a message with this `seq` and `publish_ns`.
unfoldable pub on_message : (now seq publish_ns : ℕ) → SubscriberState → SubscriberState
on_message now seq publish_ns s = record {
  latency = record_value (sub64 now publish_ns) s.latency;
  received = u64 (s.received + 1);
  out_of_order = if ltb seq s.last_seq then u64 (s.out_of_order + 1) else s.out_of_order;
  last_seq = seq;
}

unfoldable pub on_messages : List (ℕ × (ℕ × ℕ)) → SubscriberState → SubscriberState
on_messages [] s = s
on_messages ((now, (seq, publish_ns)) ∷ messages) s =
    on_messages messages (on_message now seq publish_ns s)

-- The variables of the loop that publishes.
pub record PublishLoop : Type 0 where
  pub pool : BufferPool
  pub ticker : Ticker
  pub publish_failed : ℕ
  pub pool_empty : ℕ
  pub missed_ticks : ℕ

-- `if (ticker.sleep_until_next()) ++missed_ticks;`
unfoldable pub tick : ℕ → PublishLoop → PublishLoop
tick now s =
    let (ticker, caught_up) = sleep_until_next now s.ticker in
    record s {
      ticker = ticker;
      missed_ticks = if caught_up then u64 (s.missed_ticks + 1) else s.missed_ticks;
    }

-- The buffers that the subscribers have let go of since the last round.
unfoldable pub release_all : List Buffer → BufferPool → BufferPool
release_all [] pool = pool
release_all (b ∷ bs) pool = release_all bs (Pool.release b pool)

-- What a round of the loop meets: what came back to the pool, what `publish` returns, and the clock.
pub record LoopRound : Type 0 where
  pub released : List Buffer
  pub accepted : Bool
  pub now : ℕ

-- The buffer as the message takes it along; `resize` to what the pool was made for fits.
unfoldable pub send :
    (payload_bytes : ℕ)
    → Bool
    → BufferPool × Option Buffer
    → PublishLoop
    → PublishLoop × Option Buffer
send payload_bytes accepted (pool, none) s =
    (record s { pool = pool; pool_empty = u64 (s.pool_empty + 1) }, none)
send payload_bytes accepted (pool, some buffer) s = (
  record s {
    pool = pool;
    publish_failed = if accepted then s.publish_failed else u64 (s.publish_failed + 1);
  },
  some (Pool.resize payload_bytes buffer).0,
)

-- A round, and the payload that it published.
unfoldable pub publish_round :
    (payload_bytes : ℕ) → LoopRound → PublishLoop → PublishLoop × Option Buffer
unfolding send tick
publish_round payload_bytes r s =
    let (t, payload) =
      send payload_bytes r.accepted (Pool.acquire (release_all r.released s.pool)) s in
    (tick r.now t, payload)

unfoldable pub publish_loop :
    (payload_bytes : ℕ) → List LoopRound → PublishLoop → PublishLoop × List (Option Buffer)
unfolding publish_round
publish_loop payload_bytes [] s = (s, [])
publish_loop payload_bytes (r ∷ rounds) s =
    let (t, payload) = publish_round payload_bytes r s in
    let (last, payloads) = publish_loop payload_bytes rounds t in (last, payload ∷ payloads)
