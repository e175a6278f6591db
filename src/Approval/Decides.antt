-- ===== src/Approval/Decides.antt =====
-- What an approval comes to.
use writ_ai.Prelude.{ℕ, String, Bool, true, false, ◌≡◌, some}
use writ_ai.Exec.{Result, ok, err}
use writ_ai.Domain.Value.{Fields}
use writ_ai.Supervisor.Texts.{strip}
use writ_ai.Gate.{PermissionChecker}
use writ_ai.Approval.{
  actual_partition_from_workspace, ApprovalChannel, ApprovalDisposition, ApprovalEvidence,
  ApprovalResult, PendingApproval, WorkspaceApprovalPort,
}

-- The answer of the port, passed on: its error, or its workspace with the evidence.
abbrev pub IsAnswered :
    {S : Type 0} → ApprovalEvidence → Result Fields × S → Result ApprovalResult × S → Type 0
IsAnswered evidence (err e, t) outcome = outcome ≡ (err e, t)
IsAnswered evidence (ok workspace, t) outcome =
    (r : ApprovalResult) × (outcome ≡ (ok r, t))
    × (r.disposition ≡ ApprovalDisposition.approved)
    × (r.evidence ≡ some evidence)
    × (r.workspace ≡ some workspace)
    × (r.interrupt_result ≡ actual_partition_from_workspace workspace)

-- The evidence names the user, the channel, the reference and the time, and exactly this pending approval.
pub record Confirms (pending : PendingApproval) (approver_user_id : String)
    (channel : ApprovalChannel) (evidence_ref : String) (now : ℕ) (evidence : ApprovalEvidence)
    : Type 0 where
  pub user : evidence.approver_user_id ≡ strip approver_user_id
  pub by : evidence.channel ≡ channel
  pub reference : evidence.evidence_ref ≡ strip evidence_ref
  pub time : evidence.approved_at ≡ now
  pub workspace : evidence.workspace_id ≡ pending.workspace_id
  pub decision : evidence.decision_id ≡ pending.decision_id
  pub permission : evidence.permission_id ≡ pending.permission_id
  pub fingerprint : evidence.confirmed_proposal_fingerprint ≡ pending.proposal_fingerprint
  pub instance_id : evidence.confirmed_proposal_instance_id ≡ pending.proposal_instance_id

-- The port was given such evidence by a user who holds the permission, and its answer is passed on.
abbrev pub IsAuthorized :
    {S : Type 0}
    → PermissionChecker
    → WorkspaceApprovalPort S
    → PendingApproval
    → String
    → ApprovalChannel
    → String
    → ℕ
    → ApprovalEvidence
    → S
    → Result ApprovalResult × S
    → Type 0
IsAuthorized checker port pending approver_user_id channel evidence_ref now evidence s outcome =
    (checker (strip approver_user_id) pending.permission_id ≡ some true)
    × Confirms pending approver_user_id channel evidence_ref now evidence
    × IsAnswered evidence (port pending evidence s) outcome

-- An answer that approves.
abbrev pub is_approval : Result ApprovalResult → Bool
is_approval (err e) = false
is_approval (ok r) = elim r.disposition [ ApprovalDisposition.approved ↦ true | _ ↦ false ]
