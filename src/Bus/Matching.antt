-- ===== src/Bus/Matching.antt =====
-- Whom a publication goes to, and what is counted for the others.
-- (code/include/rdb/bus/topic_bus.h)
use mw_study.Prelude.{
  ℕ, ◌+◌, ◌≡◌, refl, ap, sym, ◌∙◌, Bool, true, false, not, none, some, Option-cases, Bool-cases,
  inl, inr, List, [], ◌∷◌, ◌++◌, append-nil, append_assoc, map, arith, if◌then◌else◌, length,
  get_elem?, u64, map-set_same, get_elem?-map-some, get_elem?-map-none,
}
use mw_study.Qos.{Qos, check_compatible}
use mw_study.Queue.{Queue}
use mw_study.Bus.{Envelope, Subscription}
use mw_study.Bus.Publish.{Matching, is_compatible, match_found, match_sub, match_subs}

-- By the policies of all subscriptions, this one gets what is published under the policy `q`.
abbrev pub is_offered : Qos → List Qos → ℕ → Bool
is_offered q policies id = elim (get_elem? policies id) [
  | none ↦ false
  | some requested ↦ is_compatible (check_compatible q requested)
]

-- It is there and does not get it.
abbrev pub is_rejected : Qos → List Qos → ℕ → Bool
is_rejected q policies id = elim (get_elem? policies id) [
  | none ↦ false
  | some requested ↦ not (is_compatible (check_compatible q requested))
]

-- Those of `ids` that pass a test, in order.
abbrev pub keep : (ℕ → Bool) → List ℕ → List ℕ
keep test [] = []
keep test (id ∷ ids) = if test id then id ∷ keep test ids else keep test ids

keep-cons :
    (test : ℕ → Bool) (id : ℕ) (ids : List ℕ)
    → keep test (id ∷ ids) ≡ keep test (id ∷ []) ++ keep test ids
keep-cons test id ids = ground arith

length-keep_cons :
    (test : ℕ → Bool) (id : ℕ) (ids : List ℕ)
    → length (keep test (id ∷ ids)) ≡ length (keep test (id ∷ [])) + length (keep test ids)
length-keep_cons test id ids = ground arith

module _ {P : Type 0} where
  abbrev pub policies : List (Subscription P) → List Qos
  policies heap = map (λ sub. sub.qos) heap

  abbrev pub queues : List (Subscription P) → List (Queue (Envelope P))
  queues heap = map (λ sub. sub.queue) heap

  pub record Matched (q : Qos) (ids : List ℕ) (m m' : Matching P) : Type 0 where
    pub same_policies : policies m'.heap ≡ policies m.heap
    pub same_queues : queues m'.heap ≡ queues m.heap
    pub offered : m'.targets ≡ m.targets ++ keep (is_offered q (policies m.heap)) ids
    pub counted :
        u64 m'.qos_mismatches
        ≡ u64 (m.qos_mismatches + length (keep (is_rejected q (policies m.heap)) ids))

  match_found-Matched :
      (q : Qos) (id : ℕ) (sub : Subscription P) (m : Matching P)
      → get_elem? m.heap id ≡ some sub
      → Matched q (id ∷ []) m (match_found q id sub m)
  unfolding match_found
  match_found-Matched q id sub m e =
      let k : get_elem? (policies m.heap) id ≡ some sub.qos =
        get_elem?-map-some (λ (s : Subscription P). s.qos) m.heap id e in
      elim (Bool-cases (is_compatible (check_compatible q sub.qos))) [
        | inl fits ↦
            let o : is_offered q (policies m.heap) id ≡ true = rw (is_offered, k) fits in
            let r : is_rejected q (policies m.heap) id ≡ false = rw (is_rejected, k, fits) refl in
            rw (match_found, fits)
              (record {
                same_policies = refl;
                same_queues = refl;
                offered = rw o refl;
                counted = rw r (omega arith);
              })
        | inr unfit ↦
            let o : is_offered q (policies m.heap) id ≡ false = rw (is_offered, k) unfit in
            let r : is_rejected q (policies m.heap) id ≡ true = rw (is_rejected, k, unfit) refl in
            rw (match_found, unfit)
              (record {
                same_policies = map-set_same (λ (s : Subscription P). s.qos) m.heap id _ e refl;
                same_queues = map-set_same (λ (s : Subscription P). s.queue) m.heap id _ e refl;
                offered = rw o (sym (append-nil m.targets));
                counted = rw r (omega arith);
              })
      ]

  match_sub-Matched : (q : Qos) (id : ℕ) (m : Matching P) → Matched q (id ∷ []) m (match_sub q id m)
  unfolding match_sub
  match_sub-Matched q id m = elim (Option-cases (get_elem? m.heap id)) [
    | inl e ↦
        let k : get_elem? (policies m.heap) id ≡ none =
          get_elem?-map-none (λ (s : Subscription P). s.qos) m.heap id e in
        let o : is_offered q (policies m.heap) id ≡ false = rw (is_offered, k) refl in
        let r : is_rejected q (policies m.heap) id ≡ false = rw (is_rejected, k) refl in
        rw (match_sub, e)
          (record {
            same_policies = refl;
            same_queues = refl;
            offered = rw o (sym (append-nil m.targets));
            counted = rw r (omega arith);
          })
    | inr (sub, e) ↦ rw (match_sub, e) (match_found-Matched q id sub m e)
  ]

  Matched-trans :
      {q : Qos} {id : ℕ} {ids : List ℕ} {m₁ m₂ m₃ : Matching P}
      → Matched q (id ∷ []) m₁ m₂
      → Matched q ids m₂ m₃
      → Matched q (id ∷ ids) m₁ m₃
  Matched-trans {q} {id} {ids} {m₁} {m₂} {m₃} a b =
      let p = a.same_policies in
      let offers = is_offered q (policies m₁.heap) in
      let rejects = is_rejected q (policies m₁.heap) in
      record {
        same_policies = b.same_policies ∙ p;
        same_queues = b.same_queues ∙ a.same_queues;
        offered =
            b.offered
            ∙ rw (p, a.offered)
                (append_assoc m₁.targets (keep offers (id ∷ [])) (keep offers ids)
                  ∙ ap (λ ts. m₁.targets ++ ts) (sym (keep-cons offers id ids)));
        counted =
            let c : u64 m₃.qos_mismatches ≡ u64 (m₂.qos_mismatches + length (keep rejects ids)) =
              b.counted ∙ rw p refl in
            let l = length-keep_cons rejects id ids in omega (arith, c, l, a.counted);
      }

  pub match_subs-Matched :
      (q : Qos) (ids : List ℕ) (m : Matching P) → Matched q ids m (match_subs q ids m)
  unfolding match_subs
  match_subs-Matched q [] m = record {
    same_policies = refl;
    same_queues = refl;
    offered = sym (append-nil m.targets);
    counted = omega arith;
  }
  match_subs-Matched q (id ∷ ids) m =
      let one = match_sub-Matched q id m in
      let more = match_subs-Matched q ids (match_sub q id m) in Matched-trans one more
