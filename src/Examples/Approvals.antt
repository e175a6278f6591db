-- ===== src/Examples/Approvals.antt =====
-- A decision that a manager approves.
use writ_ai.Prelude.{ℕ, ◌+◌, String, Bool, ◌==◌, ◌≡◌, refl, [], ◌∷◌, Option, some}
use writ_ai.Exec.{Result, ok}
use writ_ai.Domain.{DecisionMutation}
use writ_ai.Domain.Value.{Fields, end, field, object, text}
use writ_ai.Approval.{
  ApprovalChannel, ApprovalResult, PendingApproval, WorkspaceApprovalPort, approve,
}
use writ_ai.Examples.Data.{passkey}
use writ_ai.Approval.Identity.{register_all, resolve_user_id, resolve_user_id-register_all}

abbrev login_change : PendingApproval
login_change = record {
  workspace_id = "W";
  decision_id = "D2";
  supersedes_id = "D1";
  affected_scopes = "login" ∷ [];
  permission_id = "security";
  source_ref = "slack";
  title = "D2";
  text = "D2";
  effective_at = 5;
  requirements = ("login", field "method" (text "passkey") end) ∷ [];
  proposal_fingerprint = "sha256:0123456789abcdef0123456789abcdef0123456789abcdef0123456789abcdef";
  proposal_instance_id = "I1";
  evidence_refs = "slack" ∷ [];
}

abbrev checker : String → String → Option Bool
checker user permission = some (user == "ann")

-- A port that counts its calls.
abbrev port : WorkspaceApprovalPort ℕ
port p evidence n = (ok end, n + 1)

abbrev outcome : Result ApprovalResult × ℕ
outcome = approve checker port login_change " ann " ApprovalChannel.email "mail" 7 0

abbrev login_mutation : DecisionMutation
login_mutation = record {
  decision = record passkey { authority_role = some "security"; source_ref = some "slack" };
  supersedes_id = "D1";
  affected_scopes = "login" ∷ [];
}

abbrev parse : Fields → Option DecisionMutation
parse mutation = some login_mutation

abbrev fingerprint : DecisionMutation → String
fingerprint m = "sha256:0123456789abcdef0123456789abcdef0123456789abcdef0123456789abcdef"

abbrev workspace : Fields
workspace =
    field "id" (text "W")
      (field "pending_proposal_instance_id" (text "I1") (field "pending_mutation" (object end) end))

abbrev sha256 : String → String
sha256 t = t

resolve_user_id-register_all_example :
    resolve_user_id sha256 "t1"
      (register_all sha256 (("t1", "eve") ∷ ("t2", "bob") ∷ []) (("t1", "ann") ∷ []))
    ≡ ok "ann"
unfolding resolve_user_id
resolve_user_id-register_all_example =
    resolve_user_id-register_all sha256 "t1" "ann" (("t1", "eve") ∷ ("t2", "bob") ∷ [])
      (("t1", "ann") ∷ []) refl
