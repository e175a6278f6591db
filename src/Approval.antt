-- ===== src/Approval.antt =====
-- backend/writai/intake/approval.py: the path by which a human approves a pending decision. The reading of
-- a mutation, the hash of a token and the clock are parameters, as are the permission service and
-- the workspace port; a fingerprint is as the hash gives it.
pub mod Identity
pub mod Pending
pub mod Decides
pub mod Confirmed
use Prim.Native.String.{count, String.[], String.◌∷◌}
use writ_ai.Prelude.{
  ℕ, String, Bool, true, false, not, ◌&&◌, ◌||◌, ◌==◌, List, [], ◌∷◌, ◌++◌, Option, none, some,
  contains, eqb, suc, leb, if◌then◌else◌,
}
use writ_ai.Prelude.Sorting.{sort_texts}
use writ_ai.Exec.{Error, Result, ok, err, Exec, and_then, value_error, validation_error}
use writ_ai.Dict.{Dict}
use writ_ai.Domain.Value.{Fields, Items, Value, text, array, object, nil, cons, get}
use writ_ai.Supervisor.Texts.{strip}
use writ_ai.Gate.{PermissionChecker}
use writ_ai.Interrupts.{InterruptResult}

pub data ApprovalChannel : Type 0 where
  cli workspace_ui slack_reaction push email : ApprovalChannel

pub data ApprovalDisposition : Type 0 where
  approved already_approved ignored_not_authorized permission_check_unavailable stale_confirmation
        missing_confirmation :
      ApprovalDisposition

pub record PendingApproval : Type 0 where
  pub workspace_id : String
  pub decision_id : String
  pub supersedes_id : String
  pub affected_scopes : List String
  pub permission_id : String
  pub source_ref : String
  pub title : String
  pub text : String
  pub effective_at : ℕ
  pub requirements : Dict Fields
  pub proposal_fingerprint : String
  pub proposal_instance_id : String
  pub evidence_refs : List String

pub record ApprovalEvidence : Type 0 where
  pub workspace_id : String
  pub decision_id : String
  pub approver_user_id : String
  pub permission_id : String
  pub channel : ApprovalChannel
  pub evidence_ref : String
  pub approved_at : ℕ
  pub confirmed_proposal_fingerprint : String
  pub confirmed_proposal_instance_id : String

pub record ApprovalResult : Type 0 where
  pub disposition : ApprovalDisposition
  pub evidence : Option ApprovalEvidence
  pub interrupt_result : InterruptResult
  pub workspace : Option Fields

abbrev pub nobody : InterruptResult
nobody = record { interrupted_assignment_ids = []; preserved_assignment_ids = [] }

-- `ApprovalResult(disposition=…)`
abbrev pub without_evidence : ApprovalDisposition → ApprovalResult
without_evidence d = record {
  disposition = d;
  evidence = none;
  interrupt_result = nobody;
  workspace = none;
}

-- The ids of a list of assignments in JSON, by whether they are interrupted.
abbrev pub add_id : Value → Bool → InterruptResult → InterruptResult
add_id (text id) interrupted r =
    if id == ""
    then r
    else if interrupted
    then record r { interrupted_assignment_ids = id ∷ r.interrupted_assignment_ids }
    else record r { preserved_assignment_ids = id ∷ r.preserved_assignment_ids }
add_id _ interrupted r = r

abbrev pub is_interrupted_text : Value → Bool
is_interrupted_text (text t) = t == "interrupted"
is_interrupted_text _ = false

unfoldable pub ids_of : Items → InterruptResult
ids_of nil = nobody
ids_of (cons (object a) rest) =
    let later = ids_of rest in add_id (get a "id") (is_interrupted_text (get a "state")) later
ids_of (cons v rest) = ids_of rest

-- `actual_partition_from_workspace`
unfoldable pub actual_partition_from_workspace : Fields → InterruptResult
unfolding ids_of
actual_partition_from_workspace workspace = elim (get workspace "supervisor") [
  | (object supervisor) ↦ elim (get supervisor "assignments") [
    | (array items) ↦
        let r = ids_of items in
        record {
          interrupted_assignment_ids = sort_texts r.interrupted_assignment_ids;
          preserved_assignment_ids = sort_texts r.preserved_assignment_ids;
        }
    | _ ↦ nobody
  ]
  | _ ↦ nobody
]

-- `WorkspaceApprovalPort.approve_decision`, which changes the state of the workspaces.
abbrev pub WorkspaceApprovalPort : Type 0 → Type 0
WorkspaceApprovalPort S = PendingApproval → ApprovalEvidence → Exec S Fields

-- A field with `min_length=1` and this maximum, its text stripped.
abbrev pub fits : ℕ → String → Bool
unfolding strip
fits n t = not (strip t == "") && leb (count (strip t)) n

-- The fields of `ApprovalEvidence(…)`; those of the pending approval are validated with it.
abbrev pub evidence_for : PendingApproval → String → ApprovalChannel → String → ℕ → ApprovalEvidence
unfolding strip
evidence_for pending user_id channel evidence_ref now = record {
  workspace_id = pending.workspace_id;
  decision_id = pending.decision_id;
  approver_user_id = user_id;
  permission_id = pending.permission_id;
  channel = channel;
  evidence_ref = strip evidence_ref;
  approved_at = now;
  confirmed_proposal_fingerprint = pending.proposal_fingerprint;
  confirmed_proposal_instance_id = pending.proposal_instance_id;
}

module _ {S : Type 0} (checker : PermissionChecker) (port : WorkspaceApprovalPort S) where
  -- The answer of the port, with the evidence that it was given.
  unfoldable pub concluded : ApprovalEvidence → Result Fields × S → Result ApprovalResult × S
  unfolding actual_partition_from_workspace
  concluded evidence (err e, s) = (err e, s)
  concluded evidence (ok workspace, s) = (
    ok (record {
      disposition = ApprovalDisposition.approved;
      evidence = some evidence;
      interrupt_result = actual_partition_from_workspace workspace;
      workspace = some workspace;
    }),
    s,
  )

  -- `ApprovalCoordinator.approve`
  unfoldable pub approve :
      PendingApproval → String → ApprovalChannel → String → ℕ → Exec S ApprovalResult
  unfolding strip
  approve pending approver_user_id channel evidence_ref now s =
      let user_id = strip approver_user_id in
      if user_id == ""
      then (err (value_error "An approver user ID is required."), s)
      else if strip evidence_ref == ""
      then (err (value_error "An approval evidence reference is required."), s)
      else elim (checker user_id pending.permission_id) [
        | none ↦ (ok (without_evidence ApprovalDisposition.permission_check_unavailable), s)
        | some false ↦ (ok (without_evidence ApprovalDisposition.ignored_not_authorized), s)
        | some true ↦
            if fits 255 user_id && fits 1000 evidence_ref
            then (let evidence = evidence_for pending user_id channel evidence_ref now in
                concluded evidence (port pending evidence s))
            else (err validation_error, s)
      ]
