-- ===== src/Bench/Args.antt =====
-- code/bench/args.h: the command line of the measuring programs.
-- A C string is the list of its bytes; `args` are `argv[1]` and those after it.
use mw_study.Prelude.{
  ℕ, zero, suc, ◌+◌, ◌-◌, ◌*◌, ◌≡◌, refl, Bool, true, false, ◌&&◌, ◌||◌, Option, none, some, List,
  [], ◌∷◌, ◌++◌, arith, leb, ◌==◌, if◌then◌else◌, if-elim, AllOf,
}
use mw_study.Prelude.Int.{ℤ, pos, negsuc}

-- `strcmp(a, b) == 0`
abbrev pub same_text : List ℕ → List ℕ → Bool
same_text [] [] = true
same_text [] (b ∷ bs) = false
same_text (a ∷ xs) [] = false
same_text (a ∷ xs) (b ∷ ys) = (a == b) && same_text xs ys

-- `isspace` in the C locale, and `isdigit`.
abbrev is_space : ℕ → Bool
is_space c = (c == 32) || (leb 9 c && leb c 13)

abbrev is_digit : ℕ → Bool
is_digit c = leb 48 c && leb c 57

-- The digits of `atoll`, as long as the value fits in a `long long`; beyond that it is undefined.
abbrev digits : ℕ → List ℕ → ℕ
digits value [] = value
digits value (c ∷ cs) =
    let rest = digits (value * 10 + (c - 48)) cs in if is_digit c then rest else value

abbrev negative : ℕ → ℤ
negative zero = pos 0
negative (suc n) = negsuc n

abbrev signed : List ℕ → ℤ
signed [] = pos 0
signed (c ∷ cs) =
    if c == 45
    then negative (digits 0 cs)
    else if c == 43
    then pos (digits 0 cs)
    else pos (digits 0 (c ∷ cs))

-- `std::atoll`
unfoldable pub atoll : List ℕ → ℤ
atoll [] = pos 0
atoll (c ∷ cs) = let rest = atoll cs in if is_space c then rest else signed (c ∷ cs)

-- The loop of `arg_int` and `arg_str`: the first argument that is `name` and has one after it.
abbrev pub value_of : List ℕ → List (List ℕ) → Option (List ℕ)
value_of name [] = none
value_of name (a ∷ []) = none
value_of name (a ∷ b ∷ args) =
    let rest = value_of name (b ∷ args) in if same_text a name then some b else rest

unfoldable pub arg_int : List (List ℕ) → List ℕ → ℤ → ℤ
unfolding atoll
arg_int args name fallback = elim (value_of name args) [ none ↦ fallback | some text ↦ atoll text ]

unfoldable pub arg_str : List (List ℕ) → List ℕ → List ℕ → List ℕ
arg_str args name fallback = elim (value_of name args) [ none ↦ fallback | some text ↦ text ]

unfoldable pub arg_flag : List (List ℕ) → List ℕ → Bool
arg_flag [] name = false
arg_flag (a ∷ args) name = if same_text a name then true else arg_flag args name

same_text_self : (a : List ℕ) → same_text a a ≡ true
same_text_self [] = refl
same_text_self (a ∷ xs) = ground (arith, same_text_self xs)

-- The value after the first argument that is the name, whatever comes after these two.
pub value_of-append :
    (name value : List ℕ) (before after : List (List ℕ))
    → AllOf (λ a. same_text a name ≡ false) before
    → value_of name (before ++ (name ∷ value ∷ after)) ≡ some value
value_of-append name value [] after h = rw (same_text_self name) refl
value_of-append name value (a ∷ []) after h = rw h.0 (value_of-append name value [] after tt)
value_of-append name value (a ∷ b ∷ before) after h =
    rw h.0 (value_of-append name value (b ∷ before) after h.1)

-- A flag is set wherever it stands.
pub arg_flag-append :
    (name : List ℕ) (before after : List (List ℕ)) → arg_flag (before ++ (name ∷ after)) name ≡ true
unfolding arg_flag
arg_flag-append name [] after = rw (same_text_self name) refl
arg_flag-append name (a ∷ before) after =
    if-elim (λ b. b ≡ true) (same_text a name) (λ _. refl) (λ _. arg_flag-append name before after)
