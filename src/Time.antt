-- ===== src/Time.antt =====
-- code/include/rdb/common/time.h: the ticker.
-- A reading of steady_clock is an argument `now`, so that `now_ns` and `wall_ns` are such arguments.
-- `1e9 / hz` is in doubles: the period is what that gives, not negative.
pub mod Rate
mod Tests
use mw_study.Prelude.{ℕ, ◌+◌, Bool, true, false, List, [], ◌∷◌, leb, if◌then◌else◌}

pub record Ticker : Type 0 where
  pub period : ℕ
  pub next : ℕ

-- `Ticker(hz)`
unfoldable pub new : (period now : ℕ) → Ticker
new period now = record { period = period; next = now }

-- `sleep_until_next`: whether it caught up. With `false` it returns at `next` or later.
unfoldable pub sleep_until_next : ℕ → Ticker → Ticker × Bool
sleep_until_next now t =
    let next = t.next + t.period in
    if leb next now then (record t { next = now }, true) else (record t { next = next }, false)

-- A loop that ticks once in each round, with the clock as each call reads it.
unfoldable pub ticks : List ℕ → Ticker → Ticker × List Bool
ticks [] t = (t, [])
ticks (now ∷ nows) t =
    let (t₁, caught_up) = sleep_until_next now t in
    let (t₂, rest) = ticks nows t₁ in (t₂, caught_up ∷ rest)
