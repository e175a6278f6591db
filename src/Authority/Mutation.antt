-- ===== src/Authority/Mutation.antt =====
-- `IntentAuthority.apply_decision_change`.
pub mod Acceptance
pub mod Commit
pub mod Decided
use writ_ai.Prelude.{
  String, Bool, true, false, not, ◌||◌, List, [], ◌∷◌, Option, none, some, contains, filter,
  is_empty, subset, sym_diff, lt_float, if◌then◌else◌, all,
}
use writ_ai.Exec.{Result, ok, err, Exec, pure, ◌>>=◌, ◌>>◌}
use writ_ai.Dict.{Dict, lookup, has_key}
use writ_ai.Domain.{
  ApprovalStatus, Artifact, DecisionMutation, Edge, EdgeKind, InvalidationReport, MutationResult,
  Verdict, is_decision,
}
use writ_ai.Domain.Value.{Value, Fields, end, field, object, find, field_names}
use writ_ai.Graph.{
  Store, transaction, add_artifact, add_edge, increment_version, get_artifact, version_label,
}
use writ_ai.Authority.{Platform, IntentAuthority}
use writ_ai.Authority.Propagation.{propagate_invalidation}

-- The text of a result's `reason`, by the branch that chose it.
pub data Reason : Type 0 where
  applied not_a_decision not_approved low_confidence no_scopes malformed_requirements scope_mismatch
        role_not_authoritative decision_exists target_not_decision scopes_not_covered :
      Reason

abbrev pub is_approved : Option ApprovalStatus → Bool
is_approved (some ApprovalStatus.approved) = true
is_approved _ = false

-- Every requirement is a dictionary.
unfoldable pub all_objects : Fields → Bool
all_objects end = true
all_objects (field k (object r) rest) = all_objects rest
all_objects (field k v rest) = false

-- `decision.attributes.get("requirements", {})`, if it is a dictionary of dictionaries.
unfoldable pub requirements_of : Artifact → Option Fields
unfolding all_objects
requirements_of a = elim (find "requirements" a.attributes) [
  | none ↦ some end
  | some (object r) ↦ if all_objects r then some r else none
  | some _ ↦ none
]

-- `decision.authority_role in policy.get(scope, set())`
unfoldable pub role_allowed : Dict (List String) → Option String → String → Bool
role_allowed policy none scope = false
role_allowed policy (some role) scope = elim (lookup scope policy) [
  | none ↦ false
  | some roles ↦ contains roles role
]

-- The scopes must be those of the decision and of its requirements, and the role must hold each.
unfoldable pub check_scopes : IntentAuthority → DecisionMutation → Fields → Option Reason
unfolding role_allowed
check_scopes a m requirements =
    if not (is_empty (sym_diff m.decision.scopes m.affected_scopes))
      || not (is_empty (sym_diff (field_names requirements) m.affected_scopes))
    then some scope_mismatch
    else if not (
        is_empty (
          filter (λ scope. not (role_allowed a.authority_policy m.decision.authority_role scope))
            m.affected_scopes))
    then some role_not_authoritative
    else if has_key a.graph.artifacts m.decision.id
    then some decision_exists
    else none

-- The refusals before the superseded artifact is looked up, in the order of the code.
unfoldable pub refusal : IntentAuthority → DecisionMutation → Option Reason
unfolding check_scopes requirements_of
refusal a m =
    if not (is_decision m.decision.kind)
    then some not_a_decision
    else if not (is_approved m.decision.approval_status)
    then some not_approved
    else if lt_float m.decision.confidence a.authority_threshold
    then some low_confidence
    else if is_empty m.affected_scopes
    then some no_scopes
    else elim (requirements_of m.decision) [
      | none ↦ some malformed_requirements
      | some requirements ↦ check_scopes a m requirements
    ]

-- The refusals that read the superseded artifact.
unfoldable pub target_refusal : Artifact → DecisionMutation → Option Reason
target_refusal superseded m =
    if not (is_decision superseded.kind)
    then some target_not_decision
    else if not (subset m.affected_scopes superseded.scopes)
    then some scopes_not_covered
    else none

-- A refused change: `HUMAN_REVIEW` at the current version.
unfoldable pub refused : Reason → IntentAuthority → MutationResult Reason
refused r a = record {
  applied = false;
  reason = r;
  graph_version = version_label a.graph;
  verdict = some Verdict.human_review;
  report = none;
}

-- The SUPERSEDES edge of the change.
abbrev pub supersedes_edge : DecisionMutation → Edge
supersedes_edge m = record {
  source_id = m.decision.id;
  target_id = m.supersedes_id;
  kind = EdgeKind.supersedes;
  scopes = m.affected_scopes;
  evidence_ref = m.decision.source_ref;
}

module _ (platform : Platform) where
  -- The body of the transaction: the new version's label, and the report.
  unfoldable pub change : DecisionMutation → Exec Store (String × InvalidationReport)
  change m = do
    add_artifact m.decision
    add_edge (supersedes_edge m)
    label ← increment_version
    report ← propagate_invalidation platform m.decision m.supersedes_id m.affected_scopes
    pure (label, report)

  -- After the block: the report gets the label and becomes the last one.
  unfoldable pub conclude :
      IntentAuthority
      → Result (String × InvalidationReport)
      → Store
      → Exec IntentAuthority (MutationResult Reason)
  conclude a (err e) g _ = (err e, record a { graph = g })
  conclude a (ok (label, report)) g _ =
      let report' = record report { graph_version = label } in
      (
        ok (record {
          applied = true;
          reason = applied;
          graph_version = label;
          verdict = none;
          report = some report';
        }),
        record a { graph = g; last_report = some report' },
      )

  unfoldable pub commit : DecisionMutation → Exec IntentAuthority (MutationResult Reason)
  unfolding conclude
  commit m a = let (r, g) = transaction (change m) a.graph in conclude a r g a

  unfoldable pub apply_decision_change :
      DecisionMutation → Exec IntentAuthority (MutationResult Reason)
  unfolding refusal target_refusal refused
  apply_decision_change m a = elim (refusal a m) [
    | some r ↦ (ok (refused r a), a)
    | none ↦ elim (get_artifact m.supersedes_id a.graph) [
      | err e ↦ (err e, a)
      | ok superseded ↦ elim (target_refusal superseded m) [
        | some r ↦ (ok (refused r a), a)
        | none ↦ commit m a
      ]
    ]
  ]
