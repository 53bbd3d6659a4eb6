-- ===== src/Queue/Fill.antt =====
-- try_push of one item after the other. (code/include/rdb/concurrency/bounded_queue.h)
use mw_study.Prelude.{
  ℕ, zero, suc, take-nil, length-take, ◌==◌, ◌-◌, ◌+◌, ◌≤◌, ◌<◌, ◌≡◌, refl, ap, sym, ◌∙◌, false,
  List, [], ◌∷◌, ◌++◌, append-nil, append_assoc, arith, length, length-append, take, if◌then◌else◌,
}
use mw_study.Queue.{
  Queue, block, new, append, push_until, push_full, push_waiting, wait_for_space, try_push,
}

module _ {ℓ} {A : Type ℓ} where
  -- A queue that blocks, is open and takes an item only where it has room for it.
  pub record Filled (q : Queue A) (items : List A) (r : Queue A) : Type ℓ where
    pub items_left : r.items ≡ q.items ++ take (q.capacity - length q.items) items
    pub same_capacity : r.capacity ≡ q.capacity
    pub same_closed : r.is_closed ≡ q.is_closed
    pub same_policy : r.policy ≡ q.policy

  try_push-room :
      (v : A) (now : ℕ) (q : Queue A)
      → q.is_closed ≡ false
      → length q.items < q.capacity
      → ((try_push v now q).0.items ≡ q.items ++ (v ∷ []))
        × ((try_push v now q).0.capacity ≡ q.capacity)
        × ((try_push v now q).0.is_closed ≡ q.is_closed)
        × ((try_push v now q).0.policy ≡ q.policy)
  unfolding try_push push_until push_full push_waiting wait_for_space append
  try_push-room v now q h room = ground arith

  try_push-over :
      (v : A) (now : ℕ) (q : Queue A)
      → q.is_closed ≡ false
      → q.policy ≡ block
      → q.capacity ≤ length q.items
      → (try_push v now q).0 ≡ q
  unfolding try_push push_until push_full push_waiting wait_for_space append
  try_push-over v now q h p over = rw (p) (ground arith)

  gap-Filled :
      (v : A) (now : ℕ) (q : Queue A) (gap : ℕ)
      → q.capacity - length q.items ≡ gap
      → q.is_closed ≡ false
      → q.policy ≡ block
      → Filled q (v ∷ []) (try_push v now q).0
  gap-Filled v now q zero e h p =
      let same = try_push-over v now q h p (omega arith) in
      rw same (record {
        items_left = rw e (sym (append-nil q.items));
        same_capacity = refl;
        same_closed = refl;
        same_policy = refl;
      })
  gap-Filled v now q (suc gap) e h p =
      let (items, capacity, shut, policy) = try_push-room v now q h (omega arith) in
      record {
        items_left = rw (e, take-nil A gap) items;
        same_capacity = capacity;
        same_closed = shut;
        same_policy = policy;
      }

  pub try_push-Filled :
      (v : A) (now : ℕ) (q : Queue A)
      → q.is_closed ≡ false
      → q.policy ≡ block
      → Filled q (v ∷ []) (try_push v now q).0
  try_push-Filled v now q h p = gap-Filled v now q (q.capacity - length q.items) refl h p

  items_trans :
      (gap gap' : ℕ) (items next : List A) (x : A) (xs : List A)
      → next ≡ items ++ take gap (x ∷ [])
      → length next + gap' ≡ length items + gap
      → next ++ take gap' xs ≡ items ++ take gap (x ∷ xs)
  items_trans zero gap' items next x xs e l =
      let same : next ≡ items = e ∙ append-nil items in
      let none_left : gap' ≡ 0 = omega (arith, ap length same) in rw (none_left, same) refl
  items_trans (suc gap) gap' items next x xs e l =
      let same : next ≡ items ++ (x ∷ []) = e ∙ ap (λ t. items ++ (x ∷ t)) (take-nil A gap) in
      let one_less : gap' ≡ gap = omega (arith, ap length same, length-append items (x ∷ [])) in
      rw (one_less, same) (append_assoc items (x ∷ []) (take gap xs))

  pub length-Filled :
      {q r : Queue A} {x : A}
      → length q.items ≤ q.capacity
      → Filled q (x ∷ []) r
      → (length r.items ≤ r.capacity)
        × (length r.items + (r.capacity - length r.items)
            ≡ length q.items + (q.capacity - length q.items))
  length-Filled {q} {r} {x} fits a =
      let l = length-append q.items (take (q.capacity - length q.items) (x ∷ [])) in
      let t = length-take (q.capacity - length q.items) (x ∷ []) in
      let n = ap length a.items_left in omega (arith, a.same_capacity, n, l, t, fits)

  -- What a second such step adds.
  pub Filled-trans :
      {q r s : Queue A} {x : A} {xs : List A}
      → length q.items ≤ q.capacity
      → Filled q (x ∷ []) r
      → Filled r xs s
      → Filled q (x ∷ xs) s
  Filled-trans {q} {r} {s} {x} {xs} fits a b = record {
    items_left =
        b.items_left
        ∙ items_trans (q.capacity - length q.items) (r.capacity - length r.items) q.items r.items x
            xs a.items_left (length-Filled fits a).1;
    same_capacity = b.same_capacity ∙ a.same_capacity;
    same_closed = b.same_closed ∙ a.same_closed;
    same_policy = b.same_policy ∙ a.same_policy;
  }

  pub new-Filled :
      (depth : ℕ)
      → ((new {A = A} depth block).items ≡ [])
        × ((new {A = A} depth block).capacity ≡ (if depth == 0 then 1 else depth))
        × ((new {A = A} depth block).is_closed ≡ false)
        × ((new {A = A} depth block).policy ≡ block)
  unfolding new
  new-Filled depth = (refl, refl, refl, refl)
