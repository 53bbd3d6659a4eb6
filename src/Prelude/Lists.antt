-- ===== src/Prelude/Lists.antt =====
-- Lists measured and indexed by native numbers, under the library's names.
use Prim.Native.Nat.{ℕ, zero, suc, ◌+◌, ◌-◌, ◌≤◌, ◌<◌, min}
use mathlib.Core.Path.{◌≡◌, refl, ap, sym, ◌∙◌}
use mathlib.Core.Logic.{◌≢◌}
use mathlib.Core.List.{List, [], ◌∷◌, ◌++◌, map}
use mathlib.Core.Option.{Option, none, some}
use native.Mathlib.Omega.{arith}

module _ {ℓ} {A : Type ℓ} where
  abbrev pub length : List A → ℕ
  length [] = 0
  length (x ∷ xs) = suc (length xs)

  abbrev pub get_elem? : List A → ℕ → Option A
  get_elem? [] i = none
  get_elem? (x ∷ xs) zero = some x
  get_elem? (x ∷ xs) (suc i) = get_elem? xs i

  abbrev pub get_or : List A → ℕ → A → A
  get_or [] i d = d
  get_or (x ∷ xs) zero d = x
  get_or (x ∷ xs) (suc i) d = get_or xs i d

  -- A write out of bounds changes nothing.
  abbrev pub set : List A → ℕ → A → List A
  set [] i v = []
  set (x ∷ xs) zero v = v ∷ xs
  set (x ∷ xs) (suc i) v = x ∷ set xs i v

  abbrev pub take : ℕ → List A → List A
  take zero xs = []
  take (suc n) [] = []
  take (suc n) (x ∷ xs) = x ∷ take n xs

  abbrev pub drop : ℕ → List A → List A
  drop zero xs = xs
  drop (suc n) [] = []
  drop (suc n) (x ∷ xs) = drop n xs

  abbrev pub replicate : ℕ → A → List A
  replicate zero a = []
  replicate (suc n) a = a ∷ replicate n a

module _ {ℓ} {A : Type ℓ} where
  pub length-append : (xs ys : List A) → length (xs ++ ys) ≡ length xs + length ys
  length-append [] ys = omega arith
  length-append (x ∷ xs) ys = omega (arith, length-append xs ys)

  pub length-set : (xs : List A) (i : ℕ) (v : A) → length (set xs i v) ≡ length xs
  length-set [] i v = refl
  length-set (x ∷ xs) zero v = refl
  length-set (x ∷ xs) (suc i) v = ap suc (length-set xs i v)

  pub length-take : (n : ℕ) (xs : List A) → length (take n xs) ≡ min n (length xs)
  length-take zero xs = omega arith
  length-take (suc n) [] = omega arith
  length-take (suc n) (x ∷ xs) = omega (arith, length-take n xs)

  pub length-drop : (n : ℕ) (xs : List A) → length (drop n xs) ≡ length xs - n
  length-drop zero xs = omega arith
  length-drop (suc n) [] = omega arith
  length-drop (suc n) (x ∷ xs) = omega (arith, length-drop n xs)

  pub length-replicate : (n : ℕ) (a : A) → length (replicate n a) ≡ n
  length-replicate zero a = refl
  length-replicate (suc n) a = ap suc (length-replicate n a)

  pub take-append-drop : (n : ℕ) (xs : List A) → take n xs ++ drop n xs ≡ xs
  take-append-drop zero xs = refl
  take-append-drop (suc n) [] = refl
  take-append-drop (suc n) (x ∷ xs) = ap (◌∷◌ x) (take-append-drop n xs)

  pub get_or-set_self :
      (xs : List A) (i : ℕ) (v d : A) → i < length xs → get_or (set xs i v) i d ≡ v
  get_or-set_self [] i v d h = absurd (omega arith)
  get_or-set_self (x ∷ xs) zero v d h = refl
  get_or-set_self (x ∷ xs) (suc i) v d h = get_or-set_self xs i v d (omega arith)

  pub get_or-set_ne :
      (xs : List A) {i j : ℕ} (v d : A) → i ≢ j → get_or (set xs i v) j d ≡ get_or xs j d
  get_or-set_ne [] v d h = refl
  get_or-set_ne (x ∷ xs) {i = zero} {j = zero} v d h = absurd (h refl)
  get_or-set_ne (x ∷ xs) {i = zero} {j = suc j} v d h = refl
  get_or-set_ne (x ∷ xs) {i = suc i} {j = zero} v d h = refl
  get_or-set_ne (x ∷ xs) {i = suc i} {j = suc j} v d h = get_or-set_ne xs v d (λ e. h (ap suc e))

pub take-nil {ℓ} : (A : Type ℓ) (n : ℕ) → take {A = A} n [] ≡ []
take-nil A zero = refl
take-nil A (suc n) = refl

pub drop-nil {ℓ} : (A : Type ℓ) (n : ℕ) → drop {A = A} n [] ≡ []
drop-nil A zero = refl
drop-nil A (suc n) = refl

module _ {ℓ} {A : Type ℓ} where
  pub get_or-append_at :
      (pre xs : List A) (x d : A) {i : ℕ} → i ≡ length pre → get_or (pre ++ (x ∷ xs)) i d ≡ x
  get_or-append_at [] xs x d {i = zero} e = refl
  get_or-append_at [] xs x d {i = suc i} e = absurd (omega arith)
  get_or-append_at (y ∷ pre) xs x d {i = zero} e = absurd (omega arith)
  get_or-append_at (y ∷ pre) xs x d {i = suc i} e = get_or-append_at pre xs x d (omega arith)

  pub set-append_at :
      (pre xs : List A) (x v : A) {i : ℕ}
      → i ≡ length pre
      → set (pre ++ (x ∷ xs)) i v ≡ pre ++ (v ∷ xs)
  set-append_at [] xs x v {i = zero} e = refl
  set-append_at [] xs x v {i = suc i} e = absurd (omega arith)
  set-append_at (y ∷ pre) xs x v {i = zero} e = absurd (omega arith)
  set-append_at (y ∷ pre) xs x v {i = suc i} e = ap (◌∷◌ y) (set-append_at pre xs x v (omega arith))

  pub take-append_at : (xs ys : List A) {n : ℕ} → n ≡ length xs → take n (xs ++ ys) ≡ xs
  take-append_at [] ys {n = zero} e = refl
  take-append_at [] ys {n = suc n} e = absurd (omega arith)
  take-append_at (x ∷ xs) ys {n = zero} e = absurd (omega arith)
  take-append_at (x ∷ xs) ys {n = suc n} e = ap (◌∷◌ x) (take-append_at xs ys (omega arith))

  pub drop-append_at : (xs ys : List A) {n : ℕ} → n ≡ length xs → drop n (xs ++ ys) ≡ ys
  drop-append_at [] ys {n = zero} e = refl
  drop-append_at [] ys {n = suc n} e = absurd (omega arith)
  drop-append_at (x ∷ xs) ys {n = zero} e = absurd (omega arith)
  drop-append_at (x ∷ xs) ys {n = suc n} e = drop-append_at xs ys (omega arith)

  pub drop-drop : (m n : ℕ) (xs : List A) → drop n (drop m xs) ≡ drop (m + n) xs
  drop-drop zero n xs = ap (λ k. drop k xs) (omega arith)
  drop-drop (suc m) n [] = drop-nil A n ∙ sym (drop-nil A (suc m + n))
  drop-drop (suc m) n (x ∷ xs) =
      let e : suc m + n ≡ suc (m + n) = omega arith in rw e (drop-drop m n xs)

  -- Two ways to cut one list: the shorter first part begins the longer one.
  pub append-cut :
      (xs rest us vs : List A)
      → xs ++ rest ≡ us ++ vs
      → length us ≤ length xs
      → (xs ≡ us ++ drop (length us) xs) × (drop (length us) xs ++ rest ≡ vs)
  append-cut xs rest [] vs e h = (refl, e)
  append-cut [] rest (u ∷ us) vs e h = absurd (omega arith)
  append-cut (x ∷ xs) rest (u ∷ us) vs e h =
      let (p, q) = append-cut xs rest us vs (cc) (omega arith) in
      let same : x ≡ u = cc in (λ i. same i ∷ p i, q)

  pub drop_all : (n : ℕ) (xs : List A) → length xs ≤ n → drop n xs ≡ []
  drop_all zero [] h = refl
  drop_all zero (x ∷ xs) h = absurd (omega arith)
  drop_all (suc n) [] h = refl
  drop_all (suc n) (x ∷ xs) h = drop_all n xs (omega arith)

  pub append-cut_at :
      (xs rest us vs : List A) (n : ℕ)
      → xs ++ rest ≡ us ++ vs
      → length us ≡ n
      → n ≤ length xs
      → (xs ≡ us ++ drop n xs) × (drop n xs ++ rest ≡ vs)
  append-cut_at xs rest us vs n e m h = rw (← m) (append-cut xs rest us vs e (omega arith))

  pub drop-append : (n : ℕ) (xs ys : List A) → n ≤ length xs → drop n (xs ++ ys) ≡ drop n xs ++ ys
  drop-append zero xs ys h = refl
  drop-append (suc n) [] ys h = absurd (omega arith)
  drop-append (suc n) (x ∷ xs) ys h = drop-append n xs ys (omega arith)

module _ {ℓ κ} {A : Type ℓ} {B : Type κ} (f : A → B) where
  pub map-set_same :
      (xs : List A) (i : ℕ) {x : A} (y : A)
      → get_elem? xs i ≡ some x
      → f y ≡ f x
      → map f (set xs i y) ≡ map f xs
  map-set_same [] i y e h = refl
  map-set_same (x ∷ xs) zero {x = x'} y e h =
      let p : x ≡ x' = cc in ap (λ b. b ∷ map f xs) (h ∙ ap f (sym p))
  map-set_same (x ∷ xs) (suc i) y e h = ap (◌∷◌ (f x)) (map-set_same xs i y e h)

  pub get_elem?-map-some :
      (xs : List A) (i : ℕ) {x : A} → get_elem? xs i ≡ some x → get_elem? (map f xs) i ≡ some (f x)
  get_elem?-map-some [] i e = absurd (cc)
  get_elem?-map-some (x ∷ xs) zero {x = x'} e = let p : x ≡ x' = cc in ap (λ a. some (f a)) p
  get_elem?-map-some (x ∷ xs) (suc i) e = get_elem?-map-some xs i e

  pub get_elem?-map-none :
      (xs : List A) (i : ℕ) → get_elem? xs i ≡ none → get_elem? (map f xs) i ≡ none
  get_elem?-map-none [] i e = refl
  get_elem?-map-none (x ∷ xs) zero e = absurd (cc)
  get_elem?-map-none (x ∷ xs) (suc i) e = get_elem?-map-none xs i e

module _ {ℓ} {A : Type ℓ} where
  pub get_elem?-append :
      (xs ys : List A) (i : ℕ) {x : A} → get_elem? xs i ≡ some x → get_elem? (xs ++ ys) i ≡ some x
  get_elem?-append [] ys i e = absurd (cc)
  get_elem?-append (x ∷ xs) ys zero e = e
  get_elem?-append (x ∷ xs) ys (suc i) e = get_elem?-append xs ys i e

  pub get_elem?-append_last :
      (xs : List A) (x : A) → get_elem? (xs ++ (x ∷ [])) (length xs) ≡ some x
  get_elem?-append_last [] x = refl
  get_elem?-append_last (y ∷ xs) x = get_elem?-append_last xs x

module _ {ℓ} {A : Type ℓ} where
  pub get_elem?-set_self :
      (xs : List A) (i : ℕ) (y : A) → i < length xs → get_elem? (set xs i y) i ≡ some y
  get_elem?-set_self [] i y h = absurd (omega arith)
  get_elem?-set_self (x ∷ xs) zero y h = refl
  get_elem?-set_self (x ∷ xs) (suc i) y h = get_elem?-set_self xs i y (omega arith)

  pub get_elem?-set_ne :
      (xs : List A) (i j : ℕ) (y : A) → i ≢ j → get_elem? (set xs i y) j ≡ get_elem? xs j
  get_elem?-set_ne [] i j y h = refl
  get_elem?-set_ne (x ∷ xs) zero zero y h = absurd (h refl)
  get_elem?-set_ne (x ∷ xs) zero (suc j) y h = refl
  get_elem?-set_ne (x ∷ xs) (suc i) zero y h = refl
  get_elem?-set_ne (x ∷ xs) (suc i) (suc j) y h = get_elem?-set_ne xs i j y (λ e. h (ap suc e))

  pub get_elem?-append_lt :
      (xs ys : List A) (i : ℕ) → i < length xs → get_elem? (xs ++ ys) i ≡ get_elem? xs i
  get_elem?-append_lt [] ys i h = absurd (omega arith)
  get_elem?-append_lt (x ∷ xs) ys zero h = refl
  get_elem?-append_lt (x ∷ xs) ys (suc i) h = get_elem?-append_lt xs ys i (omega arith)
