-- ===== src/Bus/TypedPublish.antt =====
-- Publishing puts into a queue only what has the subscription's type.
-- (code/include/rdb/bus/topic_bus.h)
use Prim.Native.String.{String}
use mw_study.Prelude.{
  ℕ, ◌+◌, ◌≡◌, refl, sym, ◌∙◌, subst, Bool, Option, some, Option-cases, Bool-cases, inl, inr, List,
  [], ◌∷◌, ◌++◌, arith, ◌==◌, if-elim, u64, ◌&&◌, get_elem?, map-set_same, AllOf, AllOf-append,
  AllOf-set, AllOf-get,
}
use mw_study.Qos.{Qos, check_compatible, is_reliable, is_transient_local}
use mw_study.Queue.{Queue, Deadline, never, at, Slice, returned, sleeping, PushStatus}
use mw_study.Queue.Contents.{push-AllOf, push_for-AllOf, push_waiting-AllOf}
use mw_study.Bus.{Envelope, Subscription, TopicEntry, TopicBus}
use mw_study.Bus.Topics.{find, put}
use mw_study.Bus.Publish.{
  Matching, Publishing, pushing, blocked, finished, Publisher, is_compatible, match_found,
  match_sub, match_subs, trim, latch, publish_entry, publish_erased, publish, pushed, push_to,
  publish_step, is_accepted,
}
use mw_study.Bus.Typed.{
  types, TypeAt, Carries, SubTyped, TopicsTyped, CallTyped, BusTyped, Moved, type_at, set-BusTyped,
  find-EntryTyped, put-TopicsTyped,
}

module _ {P : Type 0} (type_of : P → ℕ) where
  record MatchTyped (ts : List ℕ) (t : ℕ) (m : Matching P) : Type 0 where
    same : types m.heap ≡ ts
    subs : AllOf (SubTyped type_of) m.heap
    targets : AllOf (λ id. TypeAt ts id t) m.targets

  match_found-MatchTyped :
      (ts : List ℕ) (t : ℕ) (q : Qos) (id : ℕ) (sub : Subscription P) (m : Matching P)
      → MatchTyped ts t m
      → TypeAt ts id t
      → get_elem? m.heap id ≡ some sub
      → MatchTyped ts t (match_found q id sub m)
  unfolding match_found
  match_found-MatchTyped ts t q id sub m h at_id e =
      if-elim (λ r. MatchTyped ts t r) (is_compatible (check_compatible q sub.qos))
        (λ fits. record {
          same = h.same;
          subs = h.subs;
          targets = AllOf-append (λ i. TypeAt ts i t) m.targets (id ∷ []) h.targets (at_id, tt);
        })
        (λ unfit. record {
          same = map-set_same (λ (s : Subscription P). s.type_index) m.heap id _ e refl ∙ h.same;
          subs =
              AllOf-set (SubTyped type_of) m.heap id _ h.subs
                (AllOf-get (SubTyped type_of) m.heap id h.subs e);
          targets = h.targets;
        })

  match_sub-MatchTyped :
      (ts : List ℕ) (t : ℕ) (q : Qos) (id : ℕ) (m : Matching P)
      → MatchTyped ts t m
      → TypeAt ts id t
      → MatchTyped ts t (match_sub q id m)
  unfolding match_sub
  match_sub-MatchTyped ts t q id m h at_id = elim (Option-cases (get_elem? m.heap id)) [
    | inl e ↦ rw (match_sub, e) h
    | inr (sub, e) ↦ rw (match_sub, e) (match_found-MatchTyped ts t q id sub m h at_id e)
  ]

  match_subs-MatchTyped :
      (ts : List ℕ) (t : ℕ) (q : Qos) (ids : List ℕ) (m : Matching P)
      → MatchTyped ts t m
      → AllOf (λ id. TypeAt ts id t) ids
      → MatchTyped ts t (match_subs q ids m)
  unfolding match_subs
  match_subs-MatchTyped ts t q [] m h k = h
  match_subs-MatchTyped ts t q (id ∷ ids) m h k =
      match_subs-MatchTyped ts t q ids (match_sub q id m) (match_sub-MatchTyped ts t q id m h k.0)
        k.1

  trim-AllOf :
      (Q : Envelope P → Type 0) (depth : ℕ) (xs : List (Envelope P))
      → AllOf Q xs
      → AllOf Q (trim depth xs)
  unfolding trim
  trim-AllOf Q depth [] h = tt
  trim-AllOf Q depth (x ∷ xs) h = ground (arith, trim-AllOf Q depth xs h.1)

  latch-AllOf :
      (Q : Envelope P → Type 0) (q : Qos) (e : Envelope P) (xs : List (Envelope P))
      → Q e
      → AllOf Q xs
      → AllOf Q (latch q e xs)
  unfolding latch
  latch-AllOf Q q e xs k h =
      if-elim (λ r. AllOf Q r) (is_transient_local q.durability)
        (λ _. trim-AllOf Q q.depth (xs ++ (e ∷ [])) (AllOf-append Q xs (e ∷ []) h (k, tt))) (λ _. h)

  publish_entry-Moved :
      (topic : String) (entry : TopicEntry P) (q : Qos) (payload : P) (now : ℕ) (bus : TopicBus P)
      → BusTyped type_of bus
      → find topic bus.topics ≡ some entry
      → type_of payload ≡ entry.type_index
      → Moved type_of bus (publish_entry topic entry q payload now bus).0
        × CallTyped type_of (types bus.heap) (publish_entry topic entry q payload now bus).1
  unfolding publish_entry
  publish_entry-Moved topic entry q payload now bus h e k =
      let ts = types bus.heap in
      let (latched, ids) = find-EntryTyped type_of ts topic bus.topics h.topics e in
      let start : Matching P = record {
        heap = bus.heap;
        qos_mismatches = bus.qos_mismatches;
        targets = [];
        mismatches = [];
      } in
      let m =
        match_subs-MatchTyped ts entry.type_index q entry.subs start
          (record { same = refl; subs = h.subs; targets = tt }) ids in
      let envelope : Envelope P = record {
        payload = payload;
        seq = u64 (entry.published + 1);
        publish_ns = now;
      } in
      let next : TopicEntry P = record entry {
        published = u64 (entry.published + 1);
        latched = latch q envelope entry.latched;
      } in
      let keeps =
        latch-AllOf (Carries type_of entry.type_index) q envelope entry.latched k latched in
      (
        record {
          typed = record {
            subs = m.subs;
            topics =
                subst (λ us. TopicsTyped type_of us (put topic next bus.topics)) (sym m.same)
                  (put-TopicsTyped type_of ts topic next bus.topics h.topics (keeps, ids));
          };
          same = m.same;
        },
        subst (λ t. AllOf (λ id. TypeAt ts id t) (match_subs q entry.subs start).targets) (sym k)
            m.targets,
      )

  pub still : (bus : TopicBus P) → BusTyped type_of bus → Moved type_of bus bus
  still bus h = record { typed = h; same = refl }

  publish_erased-Moved :
      (topic : String) (t : ℕ) (q : Qos) (payload : P) (now : ℕ) (bus : TopicBus P)
      → BusTyped type_of bus
      → type_of payload ≡ t
      → Moved type_of bus (publish_erased topic t q payload now bus).0
        × CallTyped type_of (types bus.heap) (publish_erased topic t q payload now bus).1
  unfolding publish_erased
  publish_erased-Moved topic t q payload now bus h k = elim (Option-cases (find topic bus.topics)) [
    | inl e ↦ rw (publish_erased, e) (still bus h, tt)
    | inr (entry, e) ↦ elim (Bool-cases (entry.type_index == t)) [
      | inl same ↦
          let p : t ≡ entry.type_index = ground arith in
          rw (publish_erased, e, same)
            (publish_entry-Moved topic entry q payload now bus h e (k ∙ p))
      | inr other ↦
          rw (publish_erased, e, other)
            (record { typed = record { subs = h.subs; topics = h.topics }; same = refl }, tt)
    ]
  ]

  pub publish-Moved :
      (p : Publisher) (payload : P) (now : ℕ) (bus : TopicBus P)
      → BusTyped type_of bus
      → type_of payload ≡ p.type_index
      → Moved type_of bus (publish p payload now bus).0
        × CallTyped type_of (types bus.heap) (publish p payload now bus).1
  unfolding publish
  publish-Moved p payload now bus h k = elim (Bool-cases p.attached) [
    | inl there ↦
        rw (publish, there) (publish_erased-Moved p.topic p.type_index p.qos payload now bus h k)
    | inr null ↦ rw (publish, null) (still bus h, tt)
  ]

  pushed-Moved :
      (e : Envelope P) (d : Deadline) (id : ℕ) (rest : List ℕ) (acc : Bool) (sub : Subscription P)
      (bus : TopicBus P) (r : Queue (Envelope P) × Option (Envelope P) × Slice PushStatus)
      → BusTyped type_of bus
      → get_elem? bus.heap id ≡ some sub
      → CallTyped type_of (types bus.heap) (blocked e d id rest acc)
      → AllOf (Carries type_of sub.type_index) r.0.items
      → Moved type_of bus (pushed e d id rest acc sub bus r).0
        × CallTyped type_of (types bus.heap) (pushed e d id rest acc sub bus r).1
  unfolding pushed
  pushed-Moved e d id rest acc sub bus (queue, evicted, slice) h here c k =
      let (typed, same) = set-BusTyped type_of id (record sub { queue = queue }) h here refl k in
      (record { typed = typed; same = same }, call slice)
    where
      call :
          (s : Slice PushStatus)
          → CallTyped type_of (types bus.heap) (elim s [
            | returned status ↦ pushing e rest (acc && is_accepted status)
            | sleeping ↦ blocked e d id rest acc
          ])
      call (returned status) = c.1
      call sleeping = c

  push_to-Moved :
      (now : ℕ) (e : Envelope P) (id : ℕ) (rest : List ℕ) (acc : Bool) (sub : Subscription P)
      (bus : TopicBus P)
      → BusTyped type_of bus
      → get_elem? bus.heap id ≡ some sub
      → CallTyped type_of (types bus.heap) (pushing e (id ∷ rest) acc)
      → Moved type_of bus (push_to now e id rest acc sub bus).0
        × CallTyped type_of (types bus.heap) (push_to now e id rest acc sub bus).1
  unfolding push_to
  push_to-Moved now e id rest acc sub bus h here c =
      let k = type_at type_of bus id here c.0 in
      let items = AllOf-get (SubTyped type_of) bus.heap id h.subs here in
      let Q = Carries type_of sub.type_index in
      elim (Bool-cases (is_reliable sub.qos.reliability)) [
        | inl yes_reliable ↦
            rw (push_to, yes_reliable)
              (pushed-Moved e (at (now + bus.reliable_timeout)) id rest acc sub bus _ h here c
                (push_for-AllOf Q e bus.reliable_timeout now sub.queue k items))
        | inr best ↦
            rw (push_to, best)
              (pushed-Moved e never id rest acc sub bus _ h here c
                (push-AllOf Q e now sub.queue k items))
      ]

  pub publish_step-Moved :
      (now : ℕ) (bus : TopicBus P) (call : Publishing P)
      → BusTyped type_of bus
      → CallTyped type_of (types bus.heap) call
      → Moved type_of bus (publish_step now bus call).0
        × CallTyped type_of (types bus.heap) (publish_step now bus call).1
  unfolding publish_step
  publish_step-Moved now bus (pushing e [] acc) h c = (still bus h, tt)
  publish_step-Moved now bus (pushing e (id ∷ rest) acc) h c =
      elim (Option-cases (get_elem? bus.heap id)) [
        | inl gone ↦ rw (publish_step, gone) (still bus h, c.1)
        | inr (sub, here) ↦
            rw (publish_step, here) (push_to-Moved now e id rest acc sub bus h here c)
      ]
  publish_step-Moved now bus (blocked e d id rest acc) h c =
      elim (Option-cases (get_elem? bus.heap id)) [
        | inl gone ↦ rw (publish_step, gone) (still bus h, c.1)
        | inr (sub, here) ↦
            let k = type_at type_of bus id here c.0 in
            let items = AllOf-get (SubTyped type_of) bus.heap id h.subs here in
            rw (publish_step, here)
              (pushed-Moved e d id rest acc sub bus _ h here c
                (push_waiting-AllOf (Carries type_of sub.type_index) e d now sub.queue k items))
      ]
  publish_step-Moved now bus (finished acc) h c = (still bus h, tt)
