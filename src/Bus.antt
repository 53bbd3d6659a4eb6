-- ===== src/Bus.antt =====
-- code/include/rdb/bus/topic_bus.h: publish and subscribe inside one process.
--
-- A `shared_ptr` to a subscription is its position in `heap`, where each subscription made stays.
-- `std::type_index` is a number. What the callbacks and the mismatch handler are called with is an
-- output of the operations. The clock, `now_ns()` and `steady_clock`, is an argument `now`.
pub mod Topics
pub mod Publish
pub mod Subscribe
pub mod Deliver
pub mod System
pub mod Typed
pub mod TypedPublish
pub mod TypedSubscribe
pub mod TypedDeliver
pub mod TypeSafety
pub mod Drain
pub mod History
mod Tests
mod WaitTests
pub mod Matching
pub mod Latched
pub mod Steady
pub mod Waiting
pub mod SteadySystem
pub mod NoStall
pub mod Finishes
pub mod Idle
use Prim.Native.String.{String}
use mw_study.Prelude.{ℕ, ◌*◌, ◌^◌, Bool, true, false, List, []}
use mw_study.Qos.{Qos}
use mw_study.Queue.{Queue}

-- `detail::Envelope`
pub record Envelope (P : Type 0) : Type 0 where
  pub payload : P
  pub seq : ℕ
  pub publish_ns : ℕ

-- `detail::Subscription`; `joinable` is whether `worker` holds a thread.
pub record Subscription (P : Type 0) : Type 0 where
  pub topic : String
  pub type_index : ℕ
  pub qos : Qos
  pub queue : Queue (Envelope P)
  pub joinable : Bool
  pub delivered : ℕ
  pub expired : ℕ
  pub deadline_missed : ℕ
  pub qos_rejected : ℕ
  pub last_delivery_ns : ℕ
  pub mismatch_reported : Bool

pub record TopicEntry (P : Type 0) : Type 0 where
  pub type_index : ℕ
  pub subs : List ℕ
  pub latched : List (Envelope P)
  pub published : ℕ

-- `topics` is the map by name; no name stands in it twice.
pub record TopicBus (P : Type 0) : Type 0 where
  pub topics : List (String × TopicEntry P)
  pub heap : List (Subscription P)
  pub has_handler : Bool
  pub qos_mismatches : ℕ
  pub type_mismatches : ℕ
  pub reliable_timeout : ℕ

pub new : (P : Type 0) → TopicBus P
new P = record {
  topics = [];
  heap = [];
  has_handler = false;
  qos_mismatches = 0;
  type_mismatches = 0;
  reliable_timeout = 100 * 10 ^ 6;
}

module _ {P : Type 0} where
  pub set_qos_mismatch_handler : Bool → TopicBus P → TopicBus P
  set_qos_mismatch_handler set bus = record bus { has_handler = set }

  -- A timeout that is not negative.
  pub set_reliable_timeout : ℕ → TopicBus P → TopicBus P
  set_reliable_timeout timeout bus = record bus { reliable_timeout = timeout }
