-- ===== src/Approval/Confirmed.antt =====
-- The pending approval that is read from a workspace, and what its approval confirms.
use writ_ai.Prelude.{String, true, map, ◌≡◌, some, same_set}
use writ_ai.Dict.{keys}
use writ_ai.Domain.{DecisionMutation}
use writ_ai.Domain.Value.{Value}
use writ_ai.Supervisor.Texts.{strip}
use writ_ai.Approval.{PendingApproval}

-- What a pending approval takes from its mutation.
pub record Names (fingerprint : DecisionMutation → String) (m : DecisionMutation)
    (p : PendingApproval) : Type 0 where
  pub same_fingerprint : p.proposal_fingerprint ≡ strip (fingerprint m)
  pub same_decision : p.decision_id ≡ strip m.decision.id
  pub same_superseded : p.supersedes_id ≡ strip m.supersedes_id
  pub same_scopes : p.affected_scopes ≡ map strip m.affected_scopes
  pub same_time : m.decision.effective_at ≡ some p.effective_at
  pub covered : same_set (keys p.requirements) p.affected_scopes ≡ true
  pub role : (t : String) × (m.decision.authority_role ≡ some t) × (p.permission_id ≡ strip t)
