-- ===== src/Bus/WaitTests.antt =====
-- Publishers that wait, at concrete values. (code/include/rdb/bus/topic_bus.h)
use mw_study.Prelude.{ℕ, ◌≡◌, refl, true, false, some, Bool, List, [], ◌∷◌, arith, AllOf}
use mw_study.Qos.{default_qos}
use mw_study.Queue.{
  Queue, block, push_for, push_until, push_full, push_waiting, wait_for_space, ready,
}
use mw_study.Bus.{Envelope, Subscription, TopicBus}
use mw_study.Bus.Publish.{pushing, finished, publish_step, push_to, pushed, is_accepted}
use mw_study.Bus.System.{Action, subscribes, publishes, runs, fills, delivers, closes, start, run}
use mw_study.Bus.Steady.{Sound}
use mw_study.Bus.SteadySystem.{SystemSteady}
use mw_study.Bus.NoStall.{run-start-SystemSteady}
use mw_study.Bus.Idle.{wait_for_idle, Answers, wait_for_idle-Answers}
use mw_study.Bus.Finishes.{publish_through, AllDue, IsDue, publish_through-finished}

abbrev envelope : ℕ → Envelope ℕ
envelope n = record { payload = n; seq = n; publish_ns = 900 }

-- The queue of a Reliable subscription is full and nobody takes from it.
abbrev full_queue : Queue (Envelope ℕ)
full_queue = record {
  items = envelope 1 ∷ envelope 2 ∷ [];
  capacity = 2;
  policy = block;
  is_closed = false;
  dropped = 0;
  high_water = 2;
}

abbrev stuck : Subscription ℕ
stuck = record {
  topic = "scan";
  type_index = 3;
  qos = default_qos;
  queue = full_queue;
  joinable = true;
  delivered = 0;
  expired = 0;
  deadline_missed = 0;
  qos_rejected = 0;
  last_delivery_ns = 0;
  mismatch_reported = false;
}

abbrev bus : TopicBus ℕ
bus = record {
  topics = [];
  heap = stuck ∷ [];
  has_handler = false;
  qos_mismatches = 0;
  type_mismatches = 0;
  reliable_timeout = 100;
}

-- The push waits from 900 on, and gives up at 1000.
abbrev slices : List (ℕ × TopicBus ℕ)
slices = (900, bus) ∷ (1000, bus) ∷ (1001, bus) ∷ []

slices_run : publish_through slices (pushing (envelope 3) (0 ∷ []) true) ≡ finished false
unfolding publish_through publish_step push_to pushed push_for push_until push_full push_waiting
    wait_for_space ready is_accepted
slices_run = refl

due : AllDue slices (pushing (envelope 3) (0 ∷ []) true)
unfolding AllDue IsDue publish_step push_to pushed push_for push_until push_full push_waiting
    wait_for_space ready is_accepted
due = (tt, (omega arith, (tt, tt)))

sound : AllOf (λ s. AllOf Sound s.1.heap) slices
sound = ((refl, tt), ((refl, tt), ((refl, tt), tt)))

publish_through-finished_example :
    (accepted : Bool) × (publish_through slices (pushing (envelope 3) (0 ∷ []) true)
      ≡ finished accepted)
publish_through-finished_example =
    publish_through-finished slices (envelope 3) (0 ∷ []) sound due (omega arith)

-- A subscription of depth 10 and a publication that its thread delivers.
abbrev actions : List (Action ℕ)
actions =
    subscribes "scan" 3 default_qos
    ∷ fills 0 0
    ∷ publishes (record { attached = true; topic = "scan"; type_index = 3; qos = default_qos }) 20
        900
    ∷ runs 900 0
    ∷ delivers 1000 0
    ∷ closes 0
    ∷ []

run-start-SystemSteady_example : SystemSteady (run actions start)
run-start-SystemSteady_example = run-start-SystemSteady actions

-- The stuck subscriber is linked; the waiting ends at its deadline.
abbrev scanning : TopicBus ℕ
scanning = record bus {
  topics = ("scan", record { type_index = 3; subs = 0 ∷ []; latched = []; published = 2 }) ∷ [];
}

abbrev rounds : List (ℕ × TopicBus ℕ)
rounds = (5, scanning) ∷ (2010, scanning) ∷ []

wait_for_idle-Answers_example :
    (b : Bool) × ((wait_for_idle 2000 rounds ≡ some b) × Answers 2000 rounds b)
wait_for_idle-Answers_example =
    wait_for_idle-Answers 2000 rounds 1 (2010, scanning) refl (omega arith)
