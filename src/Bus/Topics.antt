-- ===== src/Bus/Topics.antt =====
-- The map of topics and the heap of subscriptions in code/include/rdb/bus/topic_bus.h.
use Prim.Native.String.{String}
use text.Mathlib.Text.{◌==◌}
use mw_study.Prelude.{
  ℕ, Bool, true, ◌&&◌, Option, none, some, List, [], ◌∷◌, if◌then◌else◌, length, get_elem?,
}
use mw_study.Bus.{Subscription, TopicEntry, TopicBus}
use mw_study.Queue

module _ {P : Type 0} where
  -- `topics_.find(topic)`
  unfoldable pub find : String → List (String × TopicEntry P) → Option (TopicEntry P)
  find topic [] = none
  find topic ((name, entry) ∷ rest) = if name == topic then some entry else find topic rest

  -- A change of the entry that `find` gives.
  unfoldable pub put :
      String → TopicEntry P → List (String × TopicEntry P) → List (String × TopicEntry P)
  put topic new [] = []
  put topic new ((name, entry) ∷ rest) =
      if name == topic then (name, new) ∷ rest else (name, entry) ∷ put topic new rest

  -- `TopicEntry(type)`
  unfoldable pub new_entry : ℕ → TopicEntry P
  new_entry type_index = record { type_index = type_index; subs = []; latched = []; published = 0 }

  unfoldable pub ensure_topic :
      String → ℕ → List (String × TopicEntry P) → List (String × TopicEntry P) × TopicEntry P
  ensure_topic topic type_index topics = elim (find topic topics) [
    | none ↦ ((topic, new_entry type_index) ∷ topics, new_entry type_index)
    | some entry ↦ (topics, entry)
  ]

  pub subscriber_count : String → TopicBus P → ℕ
  subscriber_count topic bus = elim (find topic bus.topics) [
    | none ↦ 0
    | some entry ↦ length entry.subs
  ]

  pub published_count : String → TopicBus P → ℕ
  published_count topic bus = elim (find topic bus.topics) [
    | none ↦ 0
    | some entry ↦ entry.published
  ]

  -- `queue.empty()` of a subscription in a topic.
  unfoldable pub idle_sub : List (Subscription P) → ℕ → Bool
  idle_sub heap id = elim (get_elem? heap id) [ none ↦ true | some sub ↦ Queue.empty sub.queue ]

  unfoldable pub idle_subs : List (Subscription P) → List ℕ → Bool
  unfolding idle_sub
  idle_subs heap [] = true
  idle_subs heap (id ∷ ids) = idle_sub heap id && idle_subs heap ids

  -- One round of `wait_for_idle`, with the lock held.
  unfoldable pub idle_topics : List (Subscription P) → List (String × TopicEntry P) → Bool
  unfolding idle_subs
  idle_topics heap [] = true
  idle_topics heap ((name, entry) ∷ rest) = idle_subs heap entry.subs && idle_topics heap rest
