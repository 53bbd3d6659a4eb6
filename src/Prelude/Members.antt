-- ===== src/Prelude/Members.antt =====
-- Properties of every member of a list.
use Prim.Native.Nat.{ℕ, zero, suc}
use mathlib.Core.Path.{◌≡◌, subst}
use mathlib.Core.List.{List, [], ◌∷◌, ◌++◌}
use mathlib.Core.Option.{some}
use mw_study.Prelude.Lists.{get_elem?, set, drop}

module _ {ℓ κ} {A : Type ℓ} where
  abbrev pub AllOf : (A → Type κ) → List A → Type κ
  AllOf Q [] = Unit
  AllOf Q (x ∷ xs) = Q x × AllOf Q xs

  pub AllOf-imp : {Q R : A → Type κ} (xs : List A) → ((x : A) → Q x → R x) → AllOf Q xs → AllOf R xs
  AllOf-imp [] f p = tt
  AllOf-imp (x ∷ xs) f p = (f x p.0, AllOf-imp xs f p.1)

module _ {ℓ κ} {A : Type ℓ} (Q : A → Type κ) where
  pub AllOf-append : (xs ys : List A) → AllOf Q xs → AllOf Q ys → AllOf Q (xs ++ ys)
  AllOf-append [] ys p q = q
  AllOf-append (x ∷ xs) ys p q = (p.0, AllOf-append xs ys p.1 q)

  pub AllOf-left : (xs ys : List A) → AllOf Q (xs ++ ys) → AllOf Q xs
  AllOf-left [] ys p = tt
  AllOf-left (x ∷ xs) ys p = (p.0, AllOf-left xs ys p.1)

  pub AllOf-set : (xs : List A) (i : ℕ) (y : A) → AllOf Q xs → Q y → AllOf Q (set xs i y)
  AllOf-set [] i y p q = tt
  AllOf-set (x ∷ xs) zero y p q = (q, p.1)
  AllOf-set (x ∷ xs) (suc i) y p q = (p.0, AllOf-set xs i y p.1 q)

  pub AllOf-get : (xs : List A) (i : ℕ) {x : A} → AllOf Q xs → get_elem? xs i ≡ some x → Q x
  AllOf-get [] i p e = absurd (cc)
  AllOf-get (y ∷ xs) zero {x} p e = let same : y ≡ x = cc in subst Q same p.0
  AllOf-get (y ∷ xs) (suc i) p e = AllOf-get xs i p.1 e

  pub AllOf-drop : (n : ℕ) (xs : List A) → AllOf Q xs → AllOf Q (drop n xs)
  AllOf-drop zero xs p = p
  AllOf-drop (suc n) [] p = tt
  AllOf-drop (suc n) (x ∷ xs) p = AllOf-drop n xs p.1
