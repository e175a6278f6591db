-- ===== src/Authority/Evaluation.antt =====
-- `IntentAuthority.evaluate_plan`.
pub mod Fits
pub mod Allow
use writ_ai.Prelude.{
  ℕ, String, not, ◌==◌, List, [], ◌∷◌, Option, none, some, inter, filter, is_empty, if◌then◌else◌,
}
use writ_ai.Exec.{Result, ok, and_then}
use writ_ai.Dict.{Dict, lookup}
use writ_ai.Domain.{
  AgentPlan, AuthorizationResult, InvalidationPath, InvalidationReport, PlanAction, SignedGrant,
  Verdict,
}
use writ_ai.Domain.Value.{Fields, text, find}
use writ_ai.Graph.{version_label}
use writ_ai.Authority.Findings.{Findings, plan_findings}
use writ_ai.Authority.{Platform, IntentAuthority}
use writ_ai.Authority.Requirements.{current_requirements, typed_requirements}

pub data Reason : Type 0 where
  unknown_task other_ticket conflicts matches : Reason

-- `dependency_artifact_ids`: the task, the plan, and the texts that actions give as `task_id`.
unfoldable pub referenced_ids : List PlanAction → List String
referenced_ids [] = []
referenced_ids (action ∷ rest) =
    let more = referenced_ids rest in
    elim (find "task_id" action.attributes) [
      | none ↦ more
      | some (text k) ↦ k ∷ more
      | some _ ↦ more
    ]

-- The lists that are copied from the report when the plan depends on what it invalidated.
pub record Context : Type 0 where
  pub invalidated_ids : List String
  pub preserved_ids : List String
  pub evidence_refs : List String
  pub path : List String

abbrev pub no_context : Context
no_context = record { invalidated_ids = []; preserved_ids = []; evidence_refs = []; path = [] }

-- The first path that ends at the plan.
abbrev pub first_path : List InvalidationPath → List String
first_path [] = []
first_path (p ∷ _) = p.node_ids

unfoldable pub context_of : List String → AgentPlan → Option InvalidationReport → Context
context_of dependencies plan none = no_context
context_of dependencies plan (some r) =
    if is_empty (inter dependencies r.affected_artifact_ids) then no_context else record {
      invalidated_ids = r.affected_artifact_ids;
      preserved_ids = r.preserved_artifact_ids;
      evidence_refs = r.evidence_refs;
      path = first_path (filter (λ p. p.artifact_id == plan.id) r.paths);
    }

-- `report if report is not None else self.last_report`
abbrev pub or_last :
    Option InvalidationReport → Option InvalidationReport → Option InvalidationReport
or_last none last = last
or_last (some r) last = some r

-- A blocked request.
unfoldable pub blocked :
    Reason → IntentAuthority → String → Dict Fields → AuthorizationResult Reason
blocked reason a task_id requirements = record {
  verdict = Verdict.block;
  reason = reason;
  graph_version = version_label a.graph;
  task_id = task_id;
  affected_scopes = [];
  mismatches = [];
  current_requirements = requirements;
  invalidation_path = [];
  invalidated_artifact_ids = [];
  preserved_artifact_ids = [];
  evidence_refs = [];
  grant = none;
}

-- What the call reads from its surroundings: the time, and a random identifier.
pub record Moment : Type 0 where
  pub now : ℕ
  pub fresh_id : String

-- `ALLOW` with a grant.
unfoldable pub allowed :
    IntentAuthority → String → Dict Fields → Context → SignedGrant → AuthorizationResult Reason
allowed a task_id requirements context grant = record {
  verdict = Verdict.allow;
  reason = matches;
  graph_version = version_label a.graph;
  task_id = task_id;
  affected_scopes = [];
  mismatches = [];
  current_requirements = requirements;
  invalidation_path = context.path;
  invalidated_artifact_ids = context.invalidated_ids;
  preserved_artifact_ids = context.preserved_ids;
  evidence_refs = context.evidence_refs;
  grant = some grant;
}

-- `REPLAN` with the mismatches.
unfoldable pub conflicting :
    IntentAuthority → String → Dict Fields → Context → Findings → AuthorizationResult Reason
conflicting a task_id requirements context found = record {
  verdict = Verdict.replan;
  reason = conflicts;
  graph_version = version_label a.graph;
  task_id = task_id;
  affected_scopes = found.affected;
  mismatches = found.mismatches;
  current_requirements = requirements;
  invalidation_path = context.path;
  invalidated_artifact_ids = context.invalidated_ids;
  preserved_artifact_ids = context.preserved_ids;
  evidence_refs = context.evidence_refs;
  grant = none;
}

module _ (platform : Platform) where
  -- `REPLAN` if there is any mismatch; otherwise `ALLOW` with a grant for this plan and version.
  unfoldable pub verdict_on :
      IntentAuthority
      → Moment
      → String
      → String
      → AgentPlan
      → Dict Fields
      → Findings
      → Context
      → Result (AuthorizationResult Reason)
  unfolding allowed conflicting
  verdict_on a at run_id task_id plan requirements found context =
      if not (is_empty found.mismatches)
      then ok (conflicting a task_id requirements context found)
      else and_then
          (platform.issue at.now at.fresh_id run_id task_id (version_label a.graph)
            (platform.stable_hash plan))
          λ grant. ok (allowed a task_id requirements context grant)

  unfoldable pub judge :
      IntentAuthority
      → Moment
      → String
      → String
      → AgentPlan
      → Option InvalidationReport
      → Dict Fields
      → Result (AuthorizationResult Reason)
  unfolding verdict_on blocked
  judge a at run_id task_id plan report requirements = elim (lookup task_id a.graph.artifacts) [
    | none ↦ ok (blocked unknown_task a task_id requirements)
    | some task ↦
        if not (plan.ticket_id == task_id)
        then ok (blocked other_ticket a task_id requirements)
        else verdict_on a at run_id task_id plan requirements
            (plan_findings a.graph requirements task plan)
            (context_of (task_id ∷ plan.id ∷ referenced_ids plan.actions) plan
              (or_last report a.last_report))
  ]

  unfoldable pub evaluate_plan :
      IntentAuthority
      → Moment
      → String
      → String
      → AgentPlan
      → Option InvalidationReport
      → Result (AuthorizationResult Reason)
  unfolding judge
  evaluate_plan a at run_id task_id plan report = and_then (current_requirements a.graph) λ current.
      and_then (typed_requirements current)
        λ requirements. judge a at run_id task_id plan report requirements
