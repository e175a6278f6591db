-- ===== src/Authority/Verification.antt =====
-- `IntentAuthority.verify_grant`.
pub mod Validity
pub mod Issued
use writ_ai.Prelude.{
  ℕ, String, Bool, true, false, not, ◌||◌, ◌==◌, Option, none, some, leb, if◌then◌else◌,
}
use writ_ai.Exec.{Error, Result, ok, err, and_then, value_error, validation_error, type_error}
use writ_ai.Domain.{
  AgentPlan, AuthorizationResult, GrantPayload, GrantVerificationResult, Verdict, VerificationCode,
}
use writ_ai.Graph.{version_label}
use writ_ai.Authority.{Platform, IntentAuthority}
use writ_ai.Authority.Evaluation.{Moment, Reason, evaluate_plan}

abbrev pub is_allow : Verdict → Bool
is_allow Verdict.allow = true
is_allow _ = false

abbrev pub rejected : VerificationCode → Option GrantPayload → GrantVerificationResult
rejected code payload = record { valid = false; code = code; payload = payload }

-- The checks on a decoded payload, in the order of the code.
unfoldable pub payload_rejection :
    Platform
    → IntentAuthority
    → Moment
    → String
    → String
    → AgentPlan
    → GrantPayload
    → Option VerificationCode
payload_rejection platform a at run_id task_id plan p =
    if not (is_allow p.verdict)
    then some VerificationCode.non_allow_verdict
    else if leb p.expires_at at.now
    then some VerificationCode.expired
    else if not (p.run_id == run_id) || not (p.task_id == task_id)
    then some VerificationCode.binding_mismatch
    else if not (p.plan_hash == platform.stable_hash plan)
    then some VerificationCode.plan_hash_mismatch
    else if not (p.decision_snapshot == version_label a.graph)
    then some VerificationCode.stale_snapshot
    else none

-- `except (ValueError, TypeError)`, where a validation error is a value error; another exception passes through.
unfoldable pub is_token_error : Error → Bool
is_token_error (value_error _) = true
is_token_error validation_error = true
is_token_error type_error = true
is_token_error _ = false

unfoldable pub recheck : GrantPayload → AuthorizationResult Reason → GrantVerificationResult
recheck p fresh =
    if not (is_allow fresh.verdict)
    then rejected VerificationCode.current_plan_rejected (some p)
    else record { valid = true; code = VerificationCode.valid; payload = some p }

module _ (platform : Platform) where
  unfoldable pub verify_payload :
      IntentAuthority
      → Moment
      → String
      → String
      → AgentPlan
      → GrantPayload
      → Result GrantVerificationResult
  unfolding payload_rejection recheck
  verify_payload a at run_id task_id plan p =
      elim (payload_rejection platform a at run_id task_id plan p) [
        | some code ↦ ok (rejected code (some p))
        | none ↦
            and_then (evaluate_plan platform a at run_id task_id plan a.last_report)
              λ fresh. ok (recheck p fresh)
      ]

  unfoldable pub verify_grant :
      IntentAuthority
      → Moment
      → String
      → String
      → String
      → AgentPlan
      → Result GrantVerificationResult
  unfolding verify_payload is_token_error
  verify_grant a at token run_id task_id plan = elim (platform.decode token) [
    | ok p ↦ verify_payload a at run_id task_id plan p
    | err e ↦ if is_token_error e then ok (rejected VerificationCode.invalid_token none) else err e
  ]
