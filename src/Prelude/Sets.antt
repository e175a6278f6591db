-- ===== src/Prelude/Sets.antt =====
-- Python's sets of texts, as lists read through `contains`. Order and repetition are not observed.
use Prim.Native.String.{String}
use mathlib.Core.Path.{◌≡◌, refl}
use mathlib.Core.Bool.{Bool, true, false, not, ◌&&◌, ◌||◌}
use mathlib.Core.List.{List, [], ◌∷◌, ◌++◌}
use mathlib.Core.Logic.{◌↔◌, inl, inr}
use native.Mathlib.Omega.{arith}
use text.Mathlib.Text.{◌==◌}
use text.Mathlib.TextEquality.{eq_iff}
use text.Mathlib.TextPositions.{eq_refl}
use writ_ai.Prelude.Tests.{Bool-cases}
use writ_ai.Prelude.Lists.{filter, all, any}

-- `a in xs`, for a list or a set.
abbrev pub contains : List String → String → Bool
contains [] a = false
contains (x ∷ xs) a = x == a || contains xs a

-- `xs & ys`
abbrev pub inter : List String → List String → List String
inter xs ys = filter (contains ys) xs

-- `xs - ys`
abbrev pub diff : List String → List String → List String
diff xs ys = filter (λ x. not (contains ys x)) xs

-- `xs | ys`
abbrev pub union : List String → List String → List String
union xs ys = xs ++ diff ys xs

-- `xs ^ ys`
abbrev pub sym_diff : List String → List String → List String
sym_diff xs ys = diff xs ys ++ diff ys xs

-- `xs <= ys`
abbrev pub subset : List String → List String → Bool
subset xs ys = all (contains ys) xs

-- `set(xs) == set(ys)`
abbrev pub same_set : List String → List String → Bool
same_set xs ys = subset xs ys && subset ys xs

-- `not xs`
abbrev pub is_empty {ℓ} : {A : Type ℓ} → List A → Bool
is_empty [] = true
is_empty (x ∷ xs) = false

pub contains-append :
    (xs ys : List String) (a : String) → contains (xs ++ ys) a ≡ (contains xs a || contains ys a)
contains-append [] ys a = refl
contains-append (x ∷ xs) ys a = ground (arith, contains-append xs ys a)

-- Set membership is a congruence for `==`.
pub contains-filter :
    (p : String → Bool) (xs : List String) (a : String)
    → contains (filter p xs) a ≡ (contains xs a && p a)
contains-filter p [] a = refl
contains-filter p (x ∷ xs) a = ground (arith, contains-filter p xs a, eq_iff x a)

pub contains-inter :
    (xs ys : List String) (a : String) → contains (inter xs ys) a ≡ (contains xs a && contains ys a)
contains-inter xs ys a = contains-filter (contains ys) xs a

pub contains-diff :
    (xs ys : List String) (a : String)
    → contains (diff xs ys) a ≡ (contains xs a && not (contains ys a))
contains-diff xs ys a = contains-filter (λ x. not (contains ys x)) xs a

pub contains-union :
    (xs ys : List String) (a : String) → contains (union xs ys) a ≡ (contains xs a || contains ys a)
contains-union xs ys a = ground (arith, contains-append xs (diff ys xs) a, contains-diff ys xs a)

pub subset→contains :
    (xs ys : List String) (a : String)
    → subset xs ys ≡ true
    → contains xs a ≡ true
    → contains ys a ≡ true
subset→contains [] ys a h m = ground arith
subset→contains (x ∷ xs) ys a h m = ground (arith, subset→contains xs ys a, eq_iff x a)

-- A list has no member exactly when it is empty.
pub is_empty→contains : (xs : List String) (a : String) → is_empty xs ≡ true → contains xs a ≡ false
is_empty→contains [] a h = refl
is_empty→contains (x ∷ xs) a h = ground arith

-- A set is empty when it has no member.
pub empty_of_contains :
    (xs : List String) → ((x : String) → contains xs x ≡ false) → is_empty xs ≡ true
empty_of_contains [] h = refl
empty_of_contains (x ∷ xs) h = absurd (ground (arith, h x, eq_iff x x))

-- `all` says it of every member.
pub all_iff :
    (p : String → Bool) (xs : List String)
    → (all p xs ≡ true) ↔ ((x : String) → contains xs x ≡ true → p x ≡ true)
all_iff p [] = (λ h x c. absurd (ground (arith, c)), λ h. refl)
all_iff p (y ∷ xs) = (
  λ h x c. elim (Bool-cases (y == x)) [
    | inl same ↦ ground (arith, h, eq_iff y x)
    | inr other ↦ (all_iff p xs).0 (ground (arith, h)) x (ground (arith, c, other))
  ],
  λ h.
      let first : p y ≡ true = h y (ground (arith, eq_refl y)) in
      ground (arith, first, (all_iff p xs).1 (λ x c. h x (ground (arith, c)))),
)

-- `any` under another name: a text is a member when some element equals it.
pub contains-any : (xs : List String) (k : String) → contains xs k ≡ any (λ x. x == k) xs
contains-any [] k = refl
contains-any (x ∷ xs) k = ground (arith, contains-any xs k)

pub same_set_refl : (xs : List String) → same_set xs xs ≡ true
same_set_refl xs = let itself = (all_iff (contains xs) xs).1 (λ x c. c) in ground (arith, itself)
