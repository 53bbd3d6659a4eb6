-- ===== src/Qos.antt =====
-- code/include/rdb/bus/qos.h: QoS policies and the Requested/Offered check.
-- `std::chrono::nanoseconds` counts a signed integer.
pub mod Order
mod Tests
use Prim.Native.String.{String}
use mw_study.Prelude.{ℕ, Bool, true, false, ◌&&◌, ◌||◌, if◌then◌else◌}
use mw_study.Prelude.Int.{ℤ, pos, negsuc, ltb_ℤ, eqb_ℤ}

pub data Reliability : Type 0 where
  best_effort reliable : Reliability

pub data Durability : Type 0 where
  volatile transient_local : Durability

pub data HistoryKind : Type 0 where
  keep_last keep_all : HistoryKind

pub record Qos : Type 0 where
  pub reliability : Reliability
  pub durability : Durability
  pub history : HistoryKind
  pub depth : ℕ
  pub deadline : ℤ
  pub lifespan : ℤ

-- The member initialisers of `QoS`.
abbrev pub default_qos : Qos
default_qos = record {
  reliability = reliable;
  durability = volatile;
  history = keep_last;
  depth = 10;
  deadline = pos 0;
  lifespan = pos 0;
}

pub sensor_data : ℕ → Qos
sensor_data depth = record default_qos {
  reliability = best_effort;
  durability = volatile;
  depth = depth;
}

pub command : ℕ → Qos
command depth = record default_qos { reliability = reliable; durability = volatile; depth = depth }

pub latched : ℕ → Qos
latched depth = record default_qos {
  reliability = reliable;
  durability = transient_local;
  depth = depth;
}

-- `enum class QosMismatch`; the members are named for what does not match.
pub data QosMismatch : Type 0 where
  compatible reliability_mismatch durability_mismatch deadline_mismatch : QosMismatch

abbrev pub is_best_effort : Reliability → Bool
is_best_effort best_effort = true
is_best_effort reliable = false

abbrev pub is_reliable : Reliability → Bool
is_reliable best_effort = false
is_reliable reliable = true

abbrev pub is_volatile : Durability → Bool
is_volatile volatile = true
is_volatile transient_local = false

abbrev pub is_transient_local : Durability → Bool
is_transient_local volatile = false
is_transient_local transient_local = true

unfoldable pub check_compatible : Qos → Qos → QosMismatch
check_compatible offered requested =
    if is_best_effort offered.reliability && is_reliable requested.reliability
    then reliability_mismatch
    else if is_volatile offered.durability && is_transient_local requested.durability
    then durability_mismatch
    else if ltb_ℤ (pos 0) requested.deadline
    then if eqb_ℤ offered.deadline (pos 0) || ltb_ℤ requested.deadline offered.deadline
      then deadline_mismatch
      else compatible
    else compatible

pub mismatch_to_string : QosMismatch → String
mismatch_to_string compatible = "none"
mismatch_to_string reliability_mismatch = "reliability"
mismatch_to_string durability_mismatch = "durability"
mismatch_to_string deadline_mismatch = "deadline"

pub reliability_to_string : Reliability → String
reliability_to_string r = if is_reliable r then "reliable" else "best_effort"

pub durability_to_string : Durability → String
durability_to_string d = if is_transient_local d then "transient_local" else "volatile"
