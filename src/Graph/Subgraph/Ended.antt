-- ===== src/Graph/Subgraph/Ended.antt =====
-- The loop of `downstream_subgraph`, and how many rounds it makes.
use writ_ai.Prelude.{ℕ, zero, suc, ◌≤◌, ◌≡◌, ◌∙◌, [], length, arith, some, List-cases, inl, inr}
use writ_ai.Exec.{ok, Result-cases}
use writ_ai.Dict.{has_key_of_lookup, lookup}
use writ_ai.Domain.{Artifact}
use writ_ai.Graph.{Store, Kinds, Walk, first_walk, follow_all, walk}
use writ_ai.Graph.WellFormed.{WellFormed}
use writ_ai.Graph.Subgraph.Reached.{walk_returns}

module _ (s : Store) (kinds : Kinds) where
  walk_idle : (m : ℕ) (t : Walk) → t.queue ≡ [] → walk s kinds m t ≡ ok t
  unfolding walk
  walk_idle zero t idle = ground (arith, idle)
  walk_idle (suc m) t idle = ground (arith, idle)

  -- Fuel beyond what the loop needs changes nothing.
  walk_more : (m n : ℕ) (t u : Walk) → n ≤ m → walk s kinds n t ≡ ok u → walk s kinds m t ≡ ok u
  unfolding walk
  walk_more m zero t u less ran = elim (List-cases t.queue) [
    | inl empty ↦ walk_idle m t empty ∙ ground (arith, empty, ran)
    | inr (k, rest, more) ↦ absurd (ground (arith, more, ran))
  ]
  walk_more zero (suc n) t u less ran = absurd (omega arith)
  walk_more (suc m) (suc n) t u less ran = elim (List-cases t.queue) [
    | inl empty ↦ walk_idle (suc m) t empty ∙ ground (arith, empty, ran)
    | inr (k, rest, more) ↦
        elim (Result-cases (follow_all s kinds k s.edges (record t { queue = rest }))) [
          | inr (e, raised) ↦ absurd (ground (arith, more, raised, ran))
          | inl (t', followed) ↦
              let later : walk s kinds n t' ≡ ok u = ground (arith, more, followed, ran) in
              ground (arith, more, followed, walk_more m n t' u (omega arith) later)
        ]
  ]

  -- From a stored root of a well-formed store, the loop ends with an empty queue after at most as many
  -- rounds as there are stored artifacts, raises nothing, and what it finds does not depend on
  -- how many more rounds it is given.
  pub walk_ends :
      (root : Artifact) (fuel : ℕ)
      → WellFormed s
      → lookup root.id s.artifacts ≡ some root
      → length s.artifacts ≤ fuel
      → (t : Walk) × (walk s kinds fuel (first_walk root) ≡ ok t)
        × (walk s kinds (length s.artifacts) (first_walk root) ≡ ok t)
        × (t.queue ≡ [])
  walk_ends root fuel w stored enough =
      let (t, returned, tracked, gathered, idle, exact) =
        walk_returns s w kinds root stored (has_key_of_lookup root.id s.artifacts root stored) in
      (t, walk_more fuel (length s.artifacts) (first_walk root) t enough returned, returned, idle)
