-- ===== src/Domain.antt =====
-- backend/writai/domain.py: the artifacts of the authority graph, and the records that the engine,
-- the grants and the agent loop exchange. Sets of texts are lists read through `contains`, and
-- instants count microseconds from `datetime.min` in UTC.
pub mod Value
use writ_ai.Prelude.{ℕ, String, Float, Bool, true, false, List, [], ◌∷◌, Option, union, eqb}
use writ_ai.Dict.{Dict}
use Value.{Fields}

pub data ArtifactKind : Type 0 where
  decision specification ticket task agent_plan pull_request code_change evidence agent_run :
      ArtifactKind

pub data EdgeKind : Type 0 where
  supersedes amends contradicts basis_for creates decomposes_to currently_drives implements
        supported_by :
      EdgeKind

pub data ApprovalStatus : Type 0 where
  proposal approved rejected : ApprovalStatus

pub data ValidityStatus : Type 0 where
  valid needs_review invalidated : ValidityStatus

pub data Verdict : Type 0 where
  allow replan block human_review : Verdict

pub data VerificationCode : Type 0 where
  valid invalid_token non_allow_verdict expired binding_mismatch plan_hash_mismatch stale_snapshot
        current_plan_rejected :
      VerificationCode

pub data LoopState : Type 0 where
  plan verify act replan blocked human_review complete : LoopState

pub record Artifact : Type 0 where
  pub id : String
  pub kind : ArtifactKind
  pub title : String
  pub text : String
  pub scopes : List String
  pub validity : ValidityStatus
  pub invalidated_scopes : List String
  pub approval_status : Option ApprovalStatus
  pub authority_role : Option String
  pub confidence : Float
  pub effective_at : Option ℕ
  pub source_ref : Option String
  pub attributes : Fields

pub record Edge : Type 0 where
  pub source_id : String
  pub target_id : String
  pub kind : EdgeKind
  pub scopes : List String
  pub evidence_ref : Option String

pub record PlanAction : Type 0 where
  pub id : String
  pub description : String
  pub scopes : List String
  pub attributes : Fields

pub record AgentPlan : Type 0 where
  pub id : String
  pub ticket_id : String
  pub objective : String
  pub actions : List PlanAction

-- `AgentPlan.scopes`: the union over the actions.
unfoldable pub action_scopes : List PlanAction → List String
action_scopes [] = []
action_scopes (a ∷ rest) = union a.scopes (action_scopes rest)

abbrev pub plan_scopes : AgentPlan → List String
plan_scopes p = action_scopes p.actions

pub record AgentRun : Type 0 where
  pub run_id : String
  pub ticket_id : String
  pub plan : AgentPlan
  pub state : LoopState
  pub tests_passed : Bool
  pub graph_snapshot : Option String
  pub grant_token : Option String
  pub history : List String

pub record DecisionMutation : Type 0 where
  pub decision : Artifact
  pub supersedes_id : String
  pub affected_scopes : List String

pub record InvalidationPath : Type 0 where
  pub artifact_id : String
  pub node_ids : List String

pub record InvalidationReport : Type 0 where
  pub graph_version : String
  pub changed_decision_id : String
  pub superseded_decision_id : String
  pub affected_scopes : List String
  pub affected_artifact_ids : List String
  pub upstream_chain_artifact_ids : List String
  pub preserved_task_ids : List String
  pub invalidated_task_ids : List String
  pub needs_review_artifact_ids : List String
  pub stopped_work_artifact_ids : List String
  pub directly_mentioned_artifact_ids : List String
  pub preserved_artifact_ids : List String
  pub paths : List InvalidationPath
  pub evidence_refs : List String

-- `reason` is kept as the case that chose the text.
pub record MutationResult {ℓ} (Reason : Type ℓ) : Type ℓ where
  pub applied : Bool
  pub reason : Reason
  pub graph_version : String
  pub verdict : Option Verdict
  pub report : Option InvalidationReport

pub record GrantPayload : Type 0 where
  pub authorization_id : String
  pub run_id : String
  pub task_id : String
  pub decision_snapshot : String
  pub plan_hash : String
  pub verdict : Verdict
  pub issued_at : ℕ
  pub expires_at : ℕ

pub record SignedGrant : Type 0 where
  pub payload : GrantPayload
  pub token : String

pub record PlanMismatch : Type 0 where
  pub action_id : String
  pub scope : String
  pub expected : Fields
  pub actual : Fields

pub record AuthorizationResult {ℓ} (Reason : Type ℓ) : Type ℓ where
  pub verdict : Verdict
  pub reason : Reason
  pub graph_version : String
  pub task_id : String
  pub affected_scopes : List String
  pub mismatches : List PlanMismatch
  pub current_requirements : Dict Fields
  pub invalidation_path : List String
  pub invalidated_artifact_ids : List String
  pub preserved_artifact_ids : List String
  pub evidence_refs : List String
  pub grant : Option SignedGrant

pub record GrantVerificationResult : Type 0 where
  pub valid : Bool
  pub code : VerificationCode
  pub payload : Option GrantPayload

-- `kind is ArtifactKind.DECISION`, `kind is ArtifactKind.TASK`
abbrev pub is_decision : ArtifactKind → Bool
is_decision decision = true
is_decision _ = false

abbrev pub is_task : ArtifactKind → Bool
is_task task = true
is_task _ = false
