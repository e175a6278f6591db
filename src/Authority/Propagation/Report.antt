-- ===== src/Authority/Propagation/Report.antt =====
-- The lookups at the end of `_propagate_invalidation`.
use writ_ai.Prelude.{
  String, true, ◌||◌, ◌==◌, ◌≡◌, refl, List, [], ◌∷◌, none, some, contains, Each, arith, eq_refl,
  Bool-cases, inl, inr,
}
use text.Mathlib.Text.{is_lt}
use writ_ai.Exec.{ok}
use writ_ai.Dict.{has_key, lookup_of_has_key}
use writ_ai.Domain.{Artifact, InvalidationPath, InvalidationReport}
use writ_ai.Graph.{Store, get_artifact, version_label}
use writ_ai.Provenance.{select_primary_invalidation_path, least_path, compare_paths}
use writ_ai.Authority.{Platform}
use writ_ai.Authority.Propagation.{Trace, get_artifacts, chain, compose_report, build_report}

get_artifacts_returns :
    (ks : List String) (s : Store)
    → ((k : String) → contains ks k ≡ true → has_key s.artifacts k ≡ true)
    → (xs : List Artifact) × (get_artifacts ks s ≡ ok xs)
unfolding get_artifacts get_artifact
get_artifacts_returns [] s h = ([], refl)
get_artifacts_returns (k ∷ ks) s h =
    let (a, here) = lookup_of_has_key k s.artifacts (h k (ground (arith, eq_refl k))) in
    let (rest, later) = get_artifacts_returns ks s (λ j m. h j (ground (arith, m))) in
    (a ∷ rest, ground arith)

chain_returns :
    (changed : Artifact) (ks : List String) (s : Store)
    → Each (λ k. (k == changed.id || has_key s.artifacts k) ≡ true) ks
    → (xs : List Artifact) × (chain changed ks s ≡ ok xs)
unfolding chain get_artifact
chain_returns changed [] s h = ([], refl)
chain_returns changed (k ∷ ks) s h =
    let (rest, later) = chain_returns changed ks s h.1 in
    elim (Bool-cases (k == changed.id)) [
      | inl own ↦ (changed ∷ rest, ground arith)
      | inr other ↦
          let (a, here) = lookup_of_has_key k s.artifacts (ground (arith, h.0)) in
          (a ∷ rest, ground arith)
    ]

least_path-Each :
    (P : InvalidationPath → Type 0) (best : InvalidationPath) (ps : List InvalidationPath)
    → P best
    → Each P ps
    → P (least_path best ps)
unfolding least_path
least_path-Each P best [] h hs = h
least_path-Each P best (p ∷ ps) h hs = elim (Bool-cases (is_lt (compare_paths p best))) [
  | inl less ↦ rw less (least_path-Each P p ps hs.0 hs.1)
  | inr more ↦ rw more (least_path-Each P best ps h hs.1)
]

abbrev pub primary_nodes : String → List InvalidationPath → List String
primary_nodes changed paths = elim (select_primary_invalidation_path paths none) [
  | none ↦ changed ∷ []
  | some p ↦ p.node_ids
]

primary_nodes-Each :
    (P : String → Type 0) (changed : String) (paths : List InvalidationPath)
    → P changed
    → Each (λ (p : InvalidationPath). Each P p.node_ids) paths
    → Each P (primary_nodes changed paths)
unfolding select_primary_invalidation_path
primary_nodes-Each P changed [] own h = (own, tt)
primary_nodes-Each P changed (p ∷ ps) own h =
    least_path-Each (λ (q : InvalidationPath). Each P q.node_ids) p ps h.0 h.1

module _ (platform : Platform) (changed : Artifact) (superseded_id : String)
    (affected : List String) where
  -- The report keeps the lists of the trace as they are.
  pub record Reports (t : Trace) (r : InvalidationReport) : Type 0 where
    pub changed_id : r.changed_decision_id ≡ changed.id
    pub superseded : r.superseded_decision_id ≡ superseded_id
    pub scopes : r.affected_scopes ≡ affected
    pub affected_ids : r.affected_artifact_ids ≡ t.affected
    pub preserved_ids : r.preserved_artifact_ids ≡ t.preserved
    pub paths : r.paths ≡ t.paths

  pub build_report_returns :
      (t : Trace) (s : Store)
      → ((k : String) → contains t.affected k ≡ true → has_key s.artifacts k ≡ true)
      → ((k : String) → contains t.preserved k ≡ true → has_key s.artifacts k ≡ true)
      → Each
          (λ (p : InvalidationPath).
            Each (λ k. (k == changed.id || has_key s.artifacts k) ≡ true) p.node_ids)
          t.paths
      → (r : InvalidationReport) × (build_report platform changed superseded_id affected t s ≡ ok r)
        × Reports t r
  unfolding build_report
  build_report_returns t s hit_keys kept_keys nodes =
      let (found, p) = get_artifacts_returns t.affected s hit_keys in
      let (kept, q) = get_artifacts_returns t.preserved s kept_keys in
      let (upstream, c) = chain_returns changed (primary_nodes changed.id t.paths) s (
        primary_nodes-Each (λ k. (k == changed.id || has_key s.artifacts k) ≡ true) changed.id
          t.paths (ground (arith, eq_refl changed.id)) nodes) in
      (
        compose_report platform changed superseded_id affected t (version_label s) found upstream
            kept,
        rw (p, c, q) refl,
        record {
          changed_id = refl;
          superseded = refl;
          scopes = refl;
          affected_ids = refl;
          preserved_ids = refl;
          paths = refl;
        },
      )
