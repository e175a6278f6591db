-- ===== src/Provenance/Primary.antt =====
-- The theorem about `select_primary_invalidation_path`.
use text.Mathlib.Text.{is_lt}
use writ_ai.Prelude.{
  ◌≤◌, String, true, false, ◌==◌, ◌≡◌, refl, sym, ap, subst, ◌⊎◌, List, [], ◌∷◌, Option, none, some,
  filter, length, Each, arith, Bool-cases, is_empty, List-cases, inl, inr, if◌then◌else◌,
}
use writ_ai.Domain.{InvalidationPath}
use writ_ai.Provenance.{
  compare_paths, least_path, preferred_paths, select_primary_invalidation_path,
}

longer :
    (p q : InvalidationPath)
    → is_lt (compare_paths p q) ≡ true
    → length q.node_ids ≤ length p.node_ids
unfolding compare_paths
longer p q h = ground arith

not_longer :
    (p q : InvalidationPath)
    → is_lt (compare_paths p q) ≡ false
    → length p.node_ids ≤ length q.node_ids
unfolding compare_paths
not_longer p q h = ground arith

abbrev pub In : InvalidationPath → List InvalidationPath → Type 0
In p [] = ⊥
In p (q ∷ rest) = (q ≡ p) ⊎ In p rest

abbrev pub NoLonger : InvalidationPath → List InvalidationPath → Type 0
NoLonger p paths = Each (λ (q : InvalidationPath). length q.node_ids ≤ length p.node_ids) paths

least_path-shorter :
    (best p : InvalidationPath) (rest : List InvalidationPath)
    → is_lt (compare_paths p best) ≡ true
    → least_path best (p ∷ rest) ≡ least_path p rest
unfolding least_path
least_path-shorter best p rest h = ap (λ b. least_path (if b then p else best) rest) h

least_path-kept :
    (best p : InvalidationPath) (rest : List InvalidationPath)
    → is_lt (compare_paths p best) ≡ false
    → least_path best (p ∷ rest) ≡ least_path best rest
unfolding least_path
least_path-kept best p rest h = ap (λ b. least_path (if b then p else best) rest) h

least_path-In :
    (best : InvalidationPath) (rest : List InvalidationPath)
    → In (least_path best rest) (best ∷ rest)
least_path-In best [] = unfold least_path in inl refl
least_path-In best (p ∷ rest) =
    let family : InvalidationPath → Type 0 = λ r. In r (best ∷ p ∷ rest) in
    elim (Bool-cases (is_lt (compare_paths p best))) [
      | inl lt ↦ subst family (sym (least_path-shorter best p rest lt)) (inr (least_path-In p rest))
      | inr ge ↦
          subst family (sym (least_path-kept best p rest ge))
            (elim (least_path-In best rest) [ inl first ↦ inl first | inr later ↦ inr (inr later) ])
    ]

least_path-NoLonger :
    (best : InvalidationPath) (rest : List InvalidationPath)
    → NoLonger (least_path best rest) (best ∷ rest)
least_path-NoLonger best [] = unfold least_path in (omega arith, tt)
least_path-NoLonger best (p ∷ rest) =
    let family : InvalidationPath → Type 0 = λ r. NoLonger r (best ∷ p ∷ rest) in
    elim (Bool-cases (is_lt (compare_paths p best))) [
      | inl lt ↦
          let h = least_path-NoLonger p rest in
          subst family (sym (least_path-shorter best p rest lt))
            (omega (arith, longer p best lt, h.0), h)
      | inr ge ↦
          let h = least_path-NoLonger best rest in
          subst family (sym (least_path-kept best p rest ge))
            (h.0, (omega (arith, not_longer p best ge, h.0), h.1))
    ]

-- The paths that end at the preferred artifact, or all when there is none.
abbrev pub considered : Option String → List InvalidationPath → List InvalidationPath
considered none paths = paths
considered (some k) paths =
    if is_empty (filter (λ p. p.artifact_id == k) paths)
    then paths
    else filter (λ p. p.artifact_id == k) paths

preferred_paths-considered :
    (preferred : Option String) (paths : List InvalidationPath)
    → preferred_paths preferred paths ≡ considered preferred paths
unfolding preferred_paths
preferred_paths-considered none paths = refl
preferred_paths-considered (some k) paths =
    elim (List-cases (filter (λ p. p.artifact_id == k) paths)) [
      | inl nothing ↦ ground (arith, nothing)
      | inr (p, rest, found) ↦ ground (arith, found)
    ]

-- The primary path is, among the paths that end at the preferred artifact, or among all when no path does
-- or none is preferred, one of the longest; there is no primary path when there is none to choose from.
pub select_primary_invalidation_path-longest :
    (paths : List InvalidationPath) (preferred : Option String)
    → ((considered preferred paths ≡ [])
        × (select_primary_invalidation_path paths preferred ≡ none))
      ⊎ ((p : InvalidationPath) × (select_primary_invalidation_path paths preferred ≡ some p)
          × In p (considered preferred paths)
          × NoLonger p (considered preferred paths))
unfolding select_primary_invalidation_path
select_primary_invalidation_path-longest paths preferred =
    let same = preferred_paths-considered preferred paths in
    elim (List-cases (considered preferred paths)) [
      | inl nothing ↦ inl (nothing, ground (arith, same, nothing))
      | inr (best, rest, found) ↦ inr (
        least_path best rest,
        ground (arith, same, found),
        rw found (least_path-In best rest),
        rw found (least_path-NoLonger best rest),
      )
    ]
