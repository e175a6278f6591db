-- ===== src/Provenance.antt =====
-- backend/writai/provenance.py: the traversal order of authority edges, and the invalidation path that
-- stands for a change.
pub mod Primary
use Prim.Native.Nat.{Ordering, compare as compare_numbers}
use Prim.Native.String.{compare, then as and_else}
use text.Mathlib.Text.{is_lt, is_le}
use writ_ai.Prelude.{
  ℕ, String, Bool, true, false, ◌==◌, List, [], ◌∷◌, Option, none, some, filter, length,
  if◌then◌else◌,
}
use writ_ai.Prelude.Sorting.{sort_texts}
use writ_ai.Domain.{Edge, EdgeKind, InvalidationPath}
use writ_ai.Graph.{Kinds, kind_value}

-- `AUTHORITY_DOWNSTREAM_EDGE_KINDS`
abbrev pub authority_downstream_edge_kinds : Kinds
authority_downstream_edge_kinds EdgeKind.basis_for = true
authority_downstream_edge_kinds EdgeKind.creates = true
authority_downstream_edge_kinds EdgeKind.decomposes_to = true
authority_downstream_edge_kinds EdgeKind.currently_drives = true
authority_downstream_edge_kinds EdgeKind.implements = true
authority_downstream_edge_kinds _ = false

-- The order of tuples of texts.
unfoldable pub compare_texts : List String → List String → Ordering
compare_texts [] [] = Ordering.eq
compare_texts [] (t ∷ ts) = Ordering.lt
compare_texts (s ∷ ss) [] = Ordering.gt
compare_texts (s ∷ ss) (t ∷ ts) = and_else (compare s t) (compare_texts ss ts)

-- `reference or ""`
abbrev pub or_blank : Option String → String
or_blank none = ""
or_blank (some s) = s

-- The order of `authority_edge_sort_key`.
unfoldable pub authority_edge_order : Edge → Edge → Bool
unfolding compare_texts
authority_edge_order a b = is_le (
    and_else (compare a.target_id b.target_id) (
      and_else (compare (kind_value a.kind) (kind_value b.kind)) (
        and_else (compare_texts (sort_texts a.scopes) (sort_texts b.scopes))
          (compare (or_blank a.evidence_ref) (or_blank b.evidence_ref)))))

-- The order of the key `(-len(node_ids), tuple(node_ids), artifact_id)`.
unfoldable pub compare_paths : InvalidationPath → InvalidationPath → Ordering
compare_paths p q =
    and_else (compare_numbers (length q.node_ids) (length p.node_ids))
      (and_else (compare_texts p.node_ids q.node_ids) (compare p.artifact_id q.artifact_id))

-- Python's `min`: the first of the least.
unfoldable pub least_path : InvalidationPath → List InvalidationPath → InvalidationPath
least_path best [] = best
least_path best (p ∷ rest) = least_path (if is_lt (compare_paths p best) then p else best) rest

preferred_paths : Option String → List InvalidationPath → List InvalidationPath
preferred_paths none paths = paths
preferred_paths (some k) paths = elim (filter (λ p. p.artifact_id == k) paths) [
  | [] ↦ paths
  | p ∷ rest ↦ p ∷ rest
]

unfoldable pub select_primary_invalidation_path :
    List InvalidationPath → Option String → Option InvalidationPath
unfolding preferred_paths
select_primary_invalidation_path paths preferred = elim (preferred_paths preferred paths) [
  | [] ↦ none
  | p ∷ rest ↦ some (least_path p rest)
]
