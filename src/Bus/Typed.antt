-- ===== src/Bus/Typed.antt =====
-- A payload keeps its type: the casts that the erased bus relies on.
-- (code/include/rdb/bus/topic_bus.h)
use Prim.Native.String.{String}
use mw_study.Prelude.{
  ℕ, ◌≡◌, sym, subst, some, Option-cases, inl, inr, List, [], ◌∷◌, map, arith, get_elem?, set,
  map-set_same, get_elem?-map-some, AllOf, AllOf-imp, AllOf-set,
}
use mw_study.Bus.{Envelope, Subscription, TopicEntry, TopicBus}
use mw_study.Bus.Topics.{find, put, new_entry, ensure_topic}
use mw_study.Bus.Publish.{Publishing, pushing, blocked, finished}

-- The types of all subscriptions, and the type of one of them.
abbrev pub types : {P : Type 0} → List (Subscription P) → List ℕ
types heap = map (λ sub. sub.type_index) heap

abbrev pub TypeAt : List ℕ → ℕ → ℕ → Type 0
TypeAt ts id t = get_elem? ts id ≡ some t

-- `type_of` is the type that a payload was made with.
module _ {P : Type 0} (type_of : P → ℕ) where
  abbrev pub Carries : ℕ → Envelope P → Type 0
  Carries t e = type_of e.payload ≡ t

  abbrev pub SubTyped : Subscription P → Type 0
  SubTyped sub = AllOf (Carries sub.type_index) sub.queue.items

  abbrev pub EntryTyped : List ℕ → TopicEntry P → Type 0
  EntryTyped ts entry =
      AllOf (Carries entry.type_index) entry.latched
      × AllOf (λ id. TypeAt ts id entry.type_index) entry.subs

  abbrev pub TopicsTyped : List ℕ → List (String × TopicEntry P) → Type 0
  TopicsTyped ts topics = AllOf (λ x. EntryTyped ts x.1) topics

  abbrev pub CallTyped : List ℕ → Publishing P → Type 0
  CallTyped ts (pushing e ids accepted) = AllOf (λ id. TypeAt ts id (type_of e.payload)) ids
  CallTyped ts (blocked e deadline id ids accepted) =
      TypeAt ts id (type_of e.payload) × AllOf (λ i. TypeAt ts i (type_of e.payload)) ids
  CallTyped ts (finished accepted) = Unit

  abbrev pub JoinTyped : List ℕ → ℕ × List (Envelope P) → Type 0
  JoinTyped ts (id, es) = AllOf (λ e. TypeAt ts id (type_of e.payload)) es

  abbrev pub SentTyped : List ℕ → ℕ × Envelope P → Type 0
  SentTyped ts (id, e) = TypeAt ts id (type_of e.payload)

  -- Every envelope in a queue, kept by a topic, or on its way to a subscription has that one's type.
  pub record BusTyped (bus : TopicBus P) : Type 0 where
    pub subs : AllOf SubTyped bus.heap
    pub topics : TopicsTyped (types bus.heap) bus.topics

  -- More subscriptions may come; those there keep their types.
  abbrev pub Grows : List ℕ → List ℕ → Type 0
  Grows ts ts' = (id t : ℕ) → TypeAt ts id t → TypeAt ts' id t

  EntryTyped-Grows :
      (ts ts' : List ℕ) (entry : TopicEntry P)
      → Grows ts ts'
      → EntryTyped ts entry
      → EntryTyped ts' entry
  EntryTyped-Grows ts ts' entry g h = (h.0, AllOf-imp entry.subs (λ id. g id entry.type_index) h.1)

  pub TopicsTyped-Grows :
      (ts ts' : List ℕ) (topics : List (String × TopicEntry P))
      → Grows ts ts'
      → TopicsTyped ts topics
      → TopicsTyped ts' topics
  TopicsTyped-Grows ts ts' topics g h = AllOf-imp topics (λ x. EntryTyped-Grows ts ts' x.1 g) h

  pub CallTyped-Grows :
      (ts ts' : List ℕ) (call : Publishing P)
      → Grows ts ts'
      → CallTyped ts call
      → CallTyped ts' call
  CallTyped-Grows ts ts' (pushing e ids accepted) g h =
      AllOf-imp ids (λ id. g id (type_of e.payload)) h
  CallTyped-Grows ts ts' (blocked e deadline id ids accepted) g h =
      (g id (type_of e.payload) h.0, AllOf-imp ids (λ i. g i (type_of e.payload)) h.1)
  CallTyped-Grows ts ts' (finished accepted) g h = tt

  pub JoinTyped-Grows :
      (ts ts' : List ℕ) (join : ℕ × List (Envelope P))
      → Grows ts ts'
      → JoinTyped ts join
      → JoinTyped ts' join
  JoinTyped-Grows ts ts' (id, es) g h = AllOf-imp es (λ e. g id (type_of e.payload)) h

  -- A subscription is written back with its type.
  pub set-BusTyped :
      {bus : TopicBus P} (id : ℕ) {old : Subscription P} (sub : Subscription P)
      → BusTyped bus
      → get_elem? bus.heap id ≡ some old
      → sub.type_index ≡ old.type_index
      → SubTyped sub
      → BusTyped (record bus { heap = set bus.heap id sub })
        × (types (set bus.heap id sub) ≡ types bus.heap)
  set-BusTyped {bus} id {old} sub h e same k =
      let p : types (set bus.heap id sub) ≡ types bus.heap =
        map-set_same (λ (s : Subscription P). s.type_index) bus.heap id sub e same in
      (
        record {
          subs = AllOf-set SubTyped bus.heap id sub h.subs k;
          topics = subst (λ ts. TopicsTyped ts bus.topics) (sym p) h.topics;
        },
        p,
      )

  pub find-EntryTyped :
      (ts : List ℕ) (topic : String) (topics : List (String × TopicEntry P)) {entry : TopicEntry P}
      → TopicsTyped ts topics
      → find topic topics ≡ some entry
      → EntryTyped ts entry
  unfolding find
  find-EntryTyped ts topic [] h e = absurd (cc)
  find-EntryTyped ts topic ((name, first) ∷ topics) {entry} h e =
      ground (arith, find-EntryTyped ts topic topics {entry = entry} h.1)

  pub put-TopicsTyped :
      (ts : List ℕ) (topic : String) (entry : TopicEntry P) (topics : List (String × TopicEntry P))
      → TopicsTyped ts topics
      → EntryTyped ts entry
      → TopicsTyped ts (put topic entry topics)
  unfolding put
  put-TopicsTyped ts topic entry [] h k = tt
  put-TopicsTyped ts topic entry ((name, first) ∷ topics) h k =
      ground (arith, put-TopicsTyped ts topic entry topics h.1 k)

  pub ensure_topic-TopicsTyped :
      (ts : List ℕ) (topic : String) (t : ℕ) (topics : List (String × TopicEntry P))
      → TopicsTyped ts topics
      → TopicsTyped ts (ensure_topic topic t topics).0
        × EntryTyped ts (ensure_topic topic t topics).1
  unfolding ensure_topic new_entry
  ensure_topic-TopicsTyped ts topic t topics h = elim (Option-cases (find topic topics)) [
    | inl e ↦ rw (ensure_topic, e) (((tt, tt), h), (tt, tt))
    | inr (entry, e) ↦ rw (ensure_topic, e) (h, find-EntryTyped ts topic topics h e)
  ]

  -- What an operation on the bus leaves: all is typed, and no subscription has changed its type.
  pub record Moved (bus bus' : TopicBus P) : Type 0 where
    pub typed : BusTyped bus'
    pub same : types bus'.heap ≡ types bus.heap

  pub type_at :
      (bus : TopicBus P) (id : ℕ) {sub : Subscription P} {t : ℕ}
      → get_elem? bus.heap id ≡ some sub
      → TypeAt (types bus.heap) id t
      → t ≡ sub.type_index
  type_at bus id {sub} {t} e h =
      let k : get_elem? (types bus.heap) id ≡ some sub.type_index =
        get_elem?-map-some (λ (s : Subscription P). s.type_index) bus.heap id e in
      cc
