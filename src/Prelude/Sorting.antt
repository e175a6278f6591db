-- ===== src/Prelude/Sorting.antt =====
-- Python's `sorted`: stable, by a Boolean order on the keys. An element goes behind those that are
-- not above it, so equal keys keep their order.
use Prim.Native.String.{String, compare}
use mathlib.Core.Path.{◌≡◌, refl, ap, ◌∙◌}
use mathlib.Core.Bool.{Bool, ◌&&◌, ◌||◌}
use mathlib.Core.Logic.{inl, inr}
use mathlib.Core.List.{List, [], ◌∷◌}
use native.Mathlib.Omega.{arith}
use text.Mathlib.Text.{is_lt, is_le}
use writ_ai.Prelude.Tests.{if◌then◌else◌, Bool-cases}
use writ_ai.Prelude.Lists.{any, all, Each}

-- `s <= t` and `s < t` between texts: code point by code point.
abbrev pub text_le : String → String → Bool
text_le s t = is_le (compare s t)

abbrev pub text_lt : String → String → Bool
text_lt s t = is_lt (compare s t)

module _ {ℓ} {A : Type ℓ} (le : A → A → Bool) where
  -- `x` stood before the elements of the list.
  unfoldable pub insert_sorted : A → List A → List A
  insert_sorted x [] = x ∷ []
  insert_sorted x (y ∷ ys) =
      let rest = insert_sorted x ys in if le x y then x ∷ y ∷ ys else y ∷ rest

  unfoldable pub sort_by : List A → List A
  sort_by [] = []
  sort_by (x ∷ xs) = insert_sorted x (sort_by xs)

  any-insert_sorted :
      (p : A → Bool) (x : A) (ys : List A) → any p (insert_sorted x ys) ≡ (p x || any p ys)
  unfolding insert_sorted
  any-insert_sorted p x [] = refl
  any-insert_sorted p x (y ∷ ys) = ground (arith, any-insert_sorted p x ys)

  -- Sorting keeps the elements.
  pub any-sort_by : (p : A → Bool) (xs : List A) → any p (sort_by xs) ≡ any p xs
  unfolding sort_by
  any-sort_by p [] = refl
  any-sort_by p (x ∷ xs) =
      any-insert_sorted p x (sort_by xs) ∙ ap (λ b. p x || b) (any-sort_by p xs)

  all-insert_sorted :
      (p : A → Bool) (x : A) (ys : List A) → all p (insert_sorted x ys) ≡ (p x && all p ys)
  unfolding insert_sorted
  all-insert_sorted p x [] = refl
  all-insert_sorted p x (y ∷ ys) = ground (arith, all-insert_sorted p x ys)

  pub all-sort_by : (p : A → Bool) (xs : List A) → all p (sort_by xs) ≡ all p xs
  unfolding sort_by
  all-sort_by p [] = refl
  all-sort_by p (x ∷ xs) =
      all-insert_sorted p x (sort_by xs) ∙ ap (λ b. p x && b) (all-sort_by p xs)

module _ {ℓ κ} {A : Type ℓ} (le : A → A → Bool) (P : A → Type κ) where
  pub Each-insert_sorted : (x : A) (ys : List A) → P x → Each P ys → Each P (insert_sorted le x ys)
  unfolding insert_sorted
  Each-insert_sorted x [] p h = (p, tt)
  Each-insert_sorted x (y ∷ ys) p h = elim (Bool-cases (le x y)) [
    | inl first ↦ rw first (p, h)
    | inr later ↦ rw later (h.0, Each-insert_sorted x ys p h.1)
  ]

  pub Each-sort_by : (xs : List A) → Each P xs → Each P (sort_by le xs)
  unfolding sort_by
  Each-sort_by [] h = tt
  Each-sort_by (x ∷ xs) h = Each-insert_sorted x (sort_by le xs) h.0 (Each-sort_by xs h.1)

abbrev pub sort_texts : List String → List String
sort_texts = sort_by text_le
