-- ===== src/Authority/Findings.antt =====
-- The mismatches that `IntentAuthority.evaluate_plan` collects.
use writ_ai.Prelude.{
  String, Bool, true, false, not, List, [], ◌∷◌, ◌++◌, Option, none, some, inter, diff, union,
  if◌then◌else◌,
}
use writ_ai.Prelude.Sorting.{sort_texts}
use writ_ai.Dict.{Dict, lookup, keys}
use writ_ai.Domain.{
  AgentPlan, Artifact, ArtifactKind, PlanAction, PlanMismatch, ValidityStatus, is_task, plan_scopes,
}
use writ_ai.Domain.Value.{Value, Fields, null, text, end, field, find, get, eq_fields}
use writ_ai.Graph.{Store}

-- `ArtifactKind.value`
unfoldable pub kind_text : ArtifactKind → String
kind_text ArtifactKind.decision = "Decision"
kind_text ArtifactKind.specification = "Specification"
kind_text ArtifactKind.ticket = "Ticket"
kind_text ArtifactKind.task = "Task"
kind_text ArtifactKind.agent_plan = "AgentPlan"
kind_text ArtifactKind.pull_request = "PullRequest"
kind_text ArtifactKind.code_change = "CodeChange"
kind_text ArtifactKind.evidence = "Evidence"
kind_text ArtifactKind.agent_run = "AgentRun"

-- `ValidityStatus.value`
unfoldable pub validity_text : ValidityStatus → String
validity_text ValidityStatus.valid = "VALID"
validity_text ValidityStatus.needs_review = "NEEDS_REVIEW"
validity_text ValidityStatus.invalidated = "INVALIDATED"

abbrev pub is_valid : ValidityStatus → Bool
is_valid ValidityStatus.valid = true
is_valid _ = false

-- `{key: None for key in expected}`
unfoldable pub all_null : Fields → Fields
all_null end = end
all_null (field k v rest) = field k null (all_null rest)

-- `{key: attributes.get(key) for key in requirement}`
unfoldable pub project : Fields → Fields → Fields
project attributes end = end
project attributes (field k v rest) = field k (get attributes k) (project attributes rest)

-- The mismatches and the affected scopes that a step adds.
pub record Findings : Type 0 where
  pub mismatches : List PlanMismatch
  pub affected : List String

abbrev pub no_findings : Findings
no_findings = record { mismatches = []; affected = [] }

abbrev pub and_findings : Findings → Findings → Findings
and_findings f g = record {
  mismatches = f.mismatches ++ g.mismatches;
  affected = union f.affected g.affected;
}

-- The loop over `sorted(missing_scopes)`, each of which has a requirement.
unfoldable pub missing_findings : AgentPlan → Dict Fields → List String → Findings
missing_findings plan requirements [] = no_findings
missing_findings plan requirements (scope ∷ rest) =
    let more = missing_findings plan requirements rest in
    elim (lookup scope requirements) [
      | none ↦ more
      | some expected ↦
          and_findings
            (record {
              mismatches =
                  record {
                    action_id = plan.id;
                    scope = scope;
                    expected = expected;
                    actual = all_null expected;
                  }
                  ∷ [];
              affected = scope ∷ [];
            })
            more
    ]

-- `(set(requirements) & task.scopes) - plan.scopes`, sorted.
unfoldable pub missing_scopes : Dict Fields → Artifact → AgentPlan → List String
missing_scopes requirements task plan =
    sort_texts (diff (inter (keys requirements) task.scopes) (plan_scopes plan))

-- The artifact that `attributes["task_id"]` names: only a text can name one.
unfoldable pub referenced_task : Store → Value → Option Artifact
referenced_task s (text k) = lookup k s.artifacts
referenced_task s _ = none

unfoldable pub reference_actual : Value → Option Artifact → Option Fields
reference_actual v none = some (field "task_id" v (field "validity" (text "MISSING") end))
reference_actual v (some t) =
    if not (is_task t.kind)
    then some (field "task_id" v (field "kind" (text (kind_text t.kind)) end))
    else if not (is_valid t.validity)
    then some (field "task_id" v (field "validity" (text (validity_text t.validity)) end))
    else none

-- `sorted(reference_scopes)[0] if reference_scopes else "task.reference"`
abbrev pub first_scope : List String → String
first_scope [] = "task.reference"
first_scope (scope ∷ _) = scope

-- `action.scopes | (referenced_task.invalidated_scopes if referenced_task else set())`
abbrev pub reference_scopes : PlanAction → Option Artifact → List String
reference_scopes action none = action.scopes
reference_scopes action (some t) = union action.scopes t.invalidated_scopes

unfoldable pub reference_findings : PlanAction → Value → Option Artifact → Findings
unfolding reference_actual
reference_findings action v referenced = elim (reference_actual v referenced) [
  | none ↦ no_findings
  | some actual ↦ record {
    mismatches =
        record {
          action_id = action.id;
          scope = first_scope (sort_texts (reference_scopes action referenced));
          expected = field "task_id" v (field "validity" (text "VALID") end);
          actual = actual;
        }
        ∷ [];
    affected = reference_scopes action referenced;
  }
]

-- `for scope in action.scopes`
unfoldable pub scope_findings : PlanAction → Dict Fields → List String → Findings
unfolding project
scope_findings action requirements [] = no_findings
scope_findings action requirements (scope ∷ rest) =
    let more = scope_findings action requirements rest in
    elim (lookup scope requirements) [
      | none ↦ more
      | some expected ↦
          let actual = project action.attributes expected in
          if eq_fields actual expected
          then more
          else and_findings
              (record {
                mismatches =
                    record {
                      action_id = action.id;
                      scope = scope;
                      expected = expected;
                      actual = actual;
                    }
                    ∷ [];
                affected = scope ∷ [];
              })
              more
    ]

unfoldable pub action_findings : Store → Dict Fields → PlanAction → Findings
unfolding reference_findings scope_findings referenced_task
action_findings s requirements action =
    let scoped = scope_findings action requirements action.scopes in
    elim (find "task_id" action.attributes) [
      | none ↦ scoped
      | some v ↦ and_findings (reference_findings action v (referenced_task s v)) scoped
    ]

-- `for action in plan.actions`
unfoldable pub actions_findings : Store → Dict Fields → List PlanAction → Findings
actions_findings s requirements [] = no_findings
actions_findings s requirements (action ∷ rest) =
    and_findings (action_findings s requirements action) (actions_findings s requirements rest)

-- All findings on a plan for a task.
unfoldable pub plan_findings : Store → Dict Fields → Artifact → AgentPlan → Findings
unfolding missing_findings missing_scopes action_findings actions_findings
plan_findings s requirements task plan =
    and_findings (missing_findings plan requirements (missing_scopes requirements task plan))
      (actions_findings s requirements plan.actions)
