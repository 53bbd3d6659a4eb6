-- ===== src/Bus/Latched.antt =====
-- What a publication that reaches its topic leaves there, and whom it goes to.
-- (code/include/rdb/bus/topic_bus.h)
use Prim.Native.String.{String}
use mw_study.Prelude.{
  ℕ, suc, ◌+◌, ◌-◌, ◌≡◌, refl, ap, ◌∙◌, true, some, List, [], ◌∷◌, ◌++◌, arith, ltb, ◌==◌,
  if◌then◌else◌, if-elim, length, drop, u64,
}
use mw_study.Qos.{Qos, is_transient_local, QosMismatch}
use mw_study.Bus.{Envelope, TopicEntry, TopicBus}
use mw_study.Bus.Topics.{find, put}
use mw_study.Bus.Matching.{keep, is_offered, is_rejected, policies, queues, match_subs-Matched}
use mw_study.Bus.Publish.{Matching, Publishing, pushing, trim, latch, publish_entry, publish_erased}

module _ {P : Type 0} where
  find-put :
      (topic : String) {old : TopicEntry P} (new : TopicEntry P) (ts : List (String × TopicEntry P))
      → find topic ts ≡ some old
      → find topic (put topic new ts) ≡ some new
  unfolding find put
  find-put topic {old = old} new [] e = absurd (cc)
  find-put topic {old = old} new ((name, entry) ∷ ts) e =
      ground (arith, find-put topic {old = old} new ts)

  trim-last : (depth : ℕ) (xs : List (Envelope P)) → trim depth xs ≡ drop (length xs - depth) xs
  unfolding trim
  trim-last depth [] = let e : length {A = Envelope P} [] - depth ≡ 0 = omega arith in rw e refl
  trim-last depth (x ∷ xs) =
      if-elim (λ r. r ≡ drop (suc (length xs) - depth) (x ∷ xs)) (ltb depth (suc (length xs)))
        (λ over.
          let e : suc (length xs) - depth ≡ suc (length xs - depth) = ground arith in
          rw e (trim-last depth xs))
        (λ fits. let e : suc (length xs) - depth ≡ 0 = ground arith in rw e refl)

  -- The last `depth` of a list.
  abbrev pub last_of : ℕ → List (Envelope P) → List (Envelope P)
  last_of depth xs = drop (length xs - depth) xs

  -- What a publisher of this policy makes the topic keep.
  abbrev pub kept : Qos → Envelope P → List (Envelope P) → List (Envelope P)
  kept q envelope before =
      if is_transient_local q.durability
      then last_of q.depth (before ++ (envelope ∷ []))
      else before

  latch-kept :
      (q : Qos) (envelope : Envelope P) (before : List (Envelope P))
      → latch q envelope before ≡ kept q envelope before
  unfolding latch
  latch-kept q envelope before =
      ap (λ l. if is_transient_local q.durability then l else before)
        (trim-last q.depth (before ++ (envelope ∷ [])))

  abbrev pub next_envelope : TopicEntry P → P → ℕ → Envelope P
  next_envelope entry payload now = record {
    payload = payload;
    seq = u64 (entry.published + 1);
    publish_ns = now;
  }

  pub record Published (topic : String) (entry : TopicEntry P) (q : Qos) (payload : P) (now : ℕ)
      (bus : TopicBus P) (r : TopicBus P × Publishing P × List QosMismatch) : Type 0 where
    pub entry_left :
        find topic r.0.topics
        ≡ some (record entry {
          published = u64 (entry.published + 1);
          latched = kept q (next_envelope entry payload now) entry.latched;
        })
    pub goes_to :
        r.1
        ≡ pushing
            (next_envelope entry payload now)
            (keep (is_offered q (policies bus.heap)) entry.subs)
            true
    pub counted :
        u64 r.0.qos_mismatches
        ≡ u64 (bus.qos_mismatches + length (keep (is_rejected q (policies bus.heap)) entry.subs))
    pub same_queues : queues r.0.heap ≡ queues bus.heap

  publish_entry-Published :
      (topic : String) (entry : TopicEntry P) (q : Qos) (payload : P) (now : ℕ) (bus : TopicBus P)
      → find topic bus.topics ≡ some entry
      → Published topic entry q payload now bus (publish_entry topic entry q payload now bus)
  unfolding publish_entry
  publish_entry-Published topic entry q payload now bus e =
      let m : Matching P = record {
        heap = bus.heap;
        qos_mismatches = bus.qos_mismatches;
        targets = [];
        mismatches = [];
      } in
      let matched = match_subs-Matched q entry.subs m in
      let envelope = next_envelope entry payload now in
      record {
        entry_left =
            find-put topic {old = entry} _ bus.topics e
            ∙ ap (λ l. some (record entry { published = u64 (entry.published + 1); latched = l }))
                (latch-kept q envelope entry.latched);
        goes_to = ap (λ ts. pushing envelope ts true) matched.offered;
        counted = matched.counted;
        same_queues = matched.same_queues;
      }

  -- A publication on a topic of its type: the topic has counted it and keeps, for a TransientLocal
  -- publisher, the last `depth` of what it kept and the new envelope, numbered by that count, and
  -- otherwise what it kept; the pushes to come are to the compatible subscribers, in the order of
  -- subscription; the count of mismatches has grown by the number of the others, modulo 2^64; and
  -- no queue has changed yet.
  pub publish_erased-Published :
      (topic : String) (entry : TopicEntry P) (q : Qos) (payload : P) (now : ℕ) (bus : TopicBus P)
      → find topic bus.topics ≡ some entry
      → Published topic entry q payload now bus
          (publish_erased topic entry.type_index q payload now bus)
  unfolding publish_erased
  publish_erased-Published topic entry q payload now bus e =
      let same : (entry.type_index == entry.type_index) ≡ true = ground arith in
      rw (publish_erased, e, same) (publish_entry-Published topic entry q payload now bus e)
