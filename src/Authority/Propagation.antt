-- ===== src/Authority/Propagation.antt =====
-- `IntentAuthority._mark_artifact` and `_propagate_invalidation`.
pub mod Marks
pub mod Synced
pub mod Steps
pub mod Loop
pub mod Report
pub mod Outcome
pub mod Exact
pub mod Invalidation
use text.Mathlib.Text.{find?}
use writ_ai.Prelude.{
  ℕ, zero, suc, String, Bool, true, false, ◌&&◌, ◌==◌, List, [], ◌∷◌, ◌++◌, map, Option, none, some,
  contains, inter, union, subset, is_empty, filter, not, length, if◌then◌else◌,
}
use writ_ai.Prelude.Sorting.{sort_by}
use writ_ai.Exec.{
  Result, ok, err, Exec, pure, raise, reads, ◌>>=◌, ◌>>◌, out_of_fuel, key_error, and_then,
}
use writ_ai.Dict.{Dict, lookup, insert}
use writ_ai.Domain.{Artifact, Edge, ValidityStatus, InvalidationPath, InvalidationReport, is_task}
use writ_ai.Graph.{
  Store, index_by_id, get_artifact, update_artifact, downstream_subgraph, version_label,
}
use writ_ai.Provenance.{
  authority_downstream_edge_kinds, authority_edge_order, select_primary_invalidation_path,
}
use writ_ai.Authority.{Platform, is_upstream, is_stoppable}

-- What `_mark_artifact` does to the artifact when the scopes meet.
unfoldable pub mark : Artifact → List String → Artifact
mark a affected =
    let lost = union a.invalidated_scopes (inter a.scopes affected) in
    record a {
      invalidated_scopes = lost;
      validity =
          if not (is_empty a.scopes) && subset a.scopes lost
          then ValidityStatus.invalidated
          else ValidityStatus.needs_review;
    }

-- The artifact as it is left, and the common scopes. An artifact with none is not written.
unfoldable pub mark_artifact : Artifact → List String → Exec Store (Artifact × List String)
unfolding mark
mark_artifact a affected =
    let common = inter a.scopes affected in
    if is_empty common
    then pure (a, [])
    else (update_artifact (mark a affected) >> pure (mark a affected, common))

-- The variables of `_propagate_invalidation`; `artifacts` is `artifacts_by_id`, whose objects the loop
-- changes in place.
pub record Trace : Type 0 where
  pub affected : List String
  pub preserved : List String
  pub paths : List InvalidationPath
  pub evidence_refs : List String
  pub artifacts : Dict Artifact
  pub queue : List (String × List String)
  pub visited : List String

-- `record_evidence`
unfoldable pub record_evidence : Option String → List String → List String
record_evidence none refs = refs
record_evidence (some r) refs =
    if r == "" then refs else if contains refs r then refs else refs ++ r ∷ []

-- `if k not in xs: xs.append(k)`
abbrev pub add_once : String → List String → List String
add_once k xs = if contains xs k then xs else xs ++ k ∷ []

-- The bookkeeping for a child whose scopes are affected.
unfoldable pub note_affected : Artifact → List String → Trace → Trace
note_affected child next_path t = record t {
  affected = add_once child.id t.affected;
  paths =
      if contains t.affected child.id
      then t.paths
      else t.paths ++ record { artifact_id = child.id; node_ids = next_path } ∷ [];
  queue = if contains t.visited child.id then t.queue else t.queue ++ (child.id, next_path) ∷ [];
  visited = if contains t.visited child.id then t.visited else child.id ∷ t.visited;
}

-- Both references of a step are recorded before the scopes are looked at.
unfoldable pub note_evidence : Edge → Artifact → Trace → Trace
unfolding record_evidence
note_evidence e child t = record t {
  evidence_refs = record_evidence child.source_ref (record_evidence e.evidence_ref t.evidence_refs);
}

-- The body of `for edge in outgoing`.
unfoldable pub visit_child : List String → List String → Edge → Artifact → Trace → Exec Store Trace
visit_child affected path e child t =
    if is_empty (inter child.scopes affected)
    then pure (record t { preserved = add_once child.id t.preserved })
    else do
      (child', _) ← mark_artifact child affected
      pure (
          note_affected child' (path ++ child'.id ∷ [])
            (record t { artifacts = insert e.target_id child' t.artifacts }))

unfoldable pub visit_edge : List String → List String → Edge → Trace → Exec Store Trace
visit_edge affected path e t = elim (lookup e.target_id t.artifacts) [
  | none ↦ raise (key_error e.target_id)
  | some child ↦ visit_child affected path e child (note_evidence e child t)
]

unfoldable pub visit_edges : List String → List String → List Edge → Trace → Exec Store Trace
visit_edges affected path [] t = pure t
visit_edges affected path (e ∷ rest) t = do
  t' ← visit_edge affected path e t
  visit_edges affected path rest t'

-- `sorted(edges_by_source.get(current_id, []), key=authority_edge_sort_key)`
unfoldable pub outgoing : List Edge → String → List Edge
outgoing edges k = sort_by authority_edge_order (filter (λ e. e.source_id == k) edges)

-- `while queue`
unfoldable pub propagate : ℕ → List String → List Edge → Trace → Exec Store Trace
propagate zero affected edges t = elim t.queue [ [] ↦ pure t | _ ∷ _ ↦ raise out_of_fuel ]
propagate (suc fuel) affected edges t = elim t.queue [
  | [] ↦ pure t
  | (k, path) ∷ rest ↦ do
    t' ← visit_edges affected path (outgoing edges k) (record t { queue = rest })
    propagate fuel affected edges t'
]

-- `[self.graph.get_artifact(k) for k in keys]`
unfoldable pub get_artifacts : List String → Store → Result (List Artifact)
get_artifacts [] s = ok []
get_artifacts (k ∷ ks) s =
    and_then (get_artifact k s) λ a. and_then (get_artifacts ks s) λ rest. ok (a ∷ rest)

abbrev pub ids_where : (Artifact → Bool) → List Artifact → List String
ids_where p xs = map (λ a. a.id) (filter p xs)

is_invalidated : ValidityStatus → Bool
is_invalidated ValidityStatus.invalidated = true
is_invalidated _ = false

is_needs_review : ValidityStatus → Bool
is_needs_review ValidityStatus.needs_review = true
is_needs_review _ = false

-- `part in whole`
abbrev pub occurs_in : String → String → Bool
occurs_in part whole = elim (find? whole part) [ none ↦ false | some _ ↦ true ]

-- The artifacts of a path, the changed decision as it was given.
unfoldable pub chain : Artifact → List String → Store → Result (List Artifact)
chain changed [] s = ok []
chain changed (k ∷ ks) s =
    and_then (if k == changed.id then ok changed else get_artifact k s)
      λ a. and_then (chain changed ks s) λ rest. ok (a ∷ rest)

unfoldable pub first_trace : Artifact → Artifact → List String → List Artifact → Trace
first_trace changed marked common found =
    let path = changed.id ∷ marked.id ∷ [] in
    record {
      affected = if is_empty common then [] else marked.id ∷ [];
      preserved = [];
      paths =
          if is_empty common then [] else record { artifact_id = marked.id; node_ids = path } ∷ [];
      evidence_refs = record_evidence marked.source_ref (record_evidence changed.source_ref []);
      artifacts = index_by_id [] found;
      queue = (marked.id, path) ∷ [];
      visited = marked.id ∷ [];
    }

module _ (platform : Platform) where
  -- The lists of the report, from the affected artifacts, those of the primary path and the preserved.
  unfoldable pub compose_report :
      Artifact
      → String
      → List String
      → Trace
      → String
      → List Artifact
      → List Artifact
      → List Artifact
      → InvalidationReport
  unfolding is_invalidated is_needs_review
  compose_report changed superseded_id affected_scopes t version found upstream kept = record {
    graph_version = version;
    changed_decision_id = changed.id;
    superseded_decision_id = superseded_id;
    affected_scopes = affected_scopes;
    affected_artifact_ids = t.affected;
    upstream_chain_artifact_ids = ids_where (λ a. is_upstream a.kind) upstream;
    preserved_task_ids = ids_where (λ a. is_task a.kind) kept;
    invalidated_task_ids = ids_where (λ a. is_task a.kind && is_invalidated a.validity) found;
    needs_review_artifact_ids = ids_where (λ a. is_needs_review a.validity) found;
    stopped_work_artifact_ids = ids_where (λ a. is_stoppable a.kind) found;
    directly_mentioned_artifact_ids =
        ids_where (λ a. occurs_in (platform.casefold a.id) (platform.casefold changed.text)) found;
    preserved_artifact_ids = t.preserved;
    paths = t.paths;
    evidence_refs = t.evidence_refs;
  }

  -- The lookups behind those lists, in the order of the code.
  unfoldable pub build_report :
      Artifact → String → List String → Trace → Store → Result InvalidationReport
  unfolding compose_report
  build_report changed superseded_id affected_scopes t s =
      let primary : List String = elim (select_primary_invalidation_path t.paths none) [
        | none ↦ changed.id ∷ []
        | some p ↦ p.node_ids
      ] in
      and_then (get_artifacts t.affected s) λ found. and_then (chain changed primary s) λ upstream.
        and_then (get_artifacts t.preserved s) λ kept. ok (
          compose_report changed superseded_id affected_scopes t (version_label s) found upstream
            kept)

  -- The loop starts at the superseded decision, which stays out of the lists when no scope of it is
  -- affected. Every queued id is one of the subgraph, and none is queued twice.
  unfoldable pub propagate_invalidation :
      Artifact → String → List String → Exec Store InvalidationReport
  unfolding first_trace
  propagate_invalidation changed superseded_id affected_scopes = do
    superseded ← reads (get_artifact superseded_id)
    (marked, common) ← mark_artifact superseded affected_scopes
    (found, edges) ← reads (λ s. downstream_subgraph s authority_downstream_edge_kinds marked.id)
    t ← propagate (length found) affected_scopes edges (first_trace changed marked common found)
    reads (build_report changed superseded_id affected_scopes t)
