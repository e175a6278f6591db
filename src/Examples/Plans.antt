-- ===== src/Examples/Plans.antt =====
-- Plans and grants on concrete graphs.
use writ_ai.Authority.Requirements.{Candidate, candidates}
use writ_ai.Authority.Requirements.Governing.{Governs, Ungoverned, current_requirements-Governs}
use writ_ai.Domain.Value.{Value, object}
use writ_ai.Prelude.{◌⊎◌, true, ◌≡◌, refl, ap, ◌↔◌, [], ◌∷◌, none, some, is_empty, arith}
use writ_ai.Exec.{ok}
use writ_ai.Dict.{Dict, lookup, insert}
use writ_ai.Domain.{
  AgentPlan, AuthorizationResult, GrantPayload, GrantVerificationResult, PlanAction, SignedGrant,
  Verdict, VerificationCode, action_scopes,
}
use writ_ai.Domain.Value.{Fields, end, field, text, find, within}
use writ_ai.Prelude.Decimal.{decimal}
use writ_ai.Graph.{Store, version_label, list_artifacts}
use writ_ai.Prelude.Sorting.{sort_by, insert_sorted}
use writ_ai.Authority.Mutation.{apply_decision_change}
use writ_ai.Authority.Requirements.{
  current_requirements, requirement_fields, latest, typed_requirements,
}
use writ_ai.Authority.Findings.{plan_findings}
use writ_ai.Authority.Evaluation.{Moment, Reason, allowed, evaluate_plan}
use writ_ai.Authority.Evaluation.Fits.{plan_findings_iff}
use writ_ai.Authority.Evaluation.Allow.{
  Permitted, context, evaluated-Permitted, evaluate_plan_allows_iff, issued,
}
use writ_ai.Authority.Verification.{rejected, verify_grant}
use writ_ai.Authority.Verification.Validity.{
  Honoured, applied_change_voids_grant, verify_grant_valid_iff,
}
use writ_ai.Authority.Verification.Issued.{evaluated_grant_verifies}
use writ_ai.Grants.{issue, decode, payload_of}
use writ_ai.Grants.Tokens.{ReadsBack, IsIssued, decode-issue, issue_decodes, issue_returns}
use writ_ai.Examples.Data.{authority, switch, small-WellFormed, ticket}
use writ_ai.Examples.Signer.{
  codec, one_payload-Padded, one_payload-ReadsBack, signer, signing, ticket_grant,
}
use writ_ai.Examples.Changes.{switched}

abbrev action : PlanAction
action = record {
  id = "A1";
  description = "";
  scopes = "login" ∷ [];
  attributes = field "method" (text "password") (field "task_id" (text "K1") end);
}

abbrev plan : AgentPlan
plan = record { id = "P1"; ticket_id = "T1"; objective = ""; actions = action ∷ [] }

abbrev now : Moment
now = record { now = 1000; fresh_id = "x" }

abbrev later : Moment
later = record { now = 2000; fresh_id = "y" }

abbrev in_force : Dict Fields
in_force = ("login", field "method" (text "password") end) ∷ []

nothing_found : is_empty (plan_findings authority.graph in_force ticket plan).mismatches ≡ true
unfolding plan_findings sort_by action_scopes find lookup within
nothing_found = refl

plan-Permitted : Permitted authority "T1" plan
unfolding lookup current_requirements typed_requirements list_artifacts sort_by insert_sorted
    requirement_fields find latest insert
plan-Permitted =
    let (covered, fits) =
      (plan_findings_iff authority.graph in_force ticket plan).0 nothing_found in
    record {
      requirements = in_force;
      in_force = refl;
      task = ticket;
      stored = refl;
      same_ticket = refl;
      covered = covered;
      fits = fits;
    }

granted : (g : SignedGrant) × (issued signing authority now "r" "T1" plan none ≡ ok g)
granted =
    issue_returns codec (one_payload-Padded (ticket_grant "graph-v3")) signer Verdict.allow 1000 "x"
      "r" "T1" (version_label authority.graph) "h"

abbrev payload_at_version : Store → GrantPayload
payload_at_version s = payload_of codec signer Verdict.allow 1000 "x" "r" "T1" (version_label s) "h"

payload_at_version-ReadsBack : ReadsBack codec (payload_at_version authority.graph)
unfolding payload_of version_label decimal
payload_at_version-ReadsBack = one_payload-ReadsBack (ticket_grant "graph-v3")

abbrev answer : AuthorizationResult Reason
answer =
    allowed authority "T1" plan-Permitted.requirements
      (context signing authority now "r" "T1" plan none) granted.0

answered : evaluate_plan signing authority now "r" "T1" plan none ≡ ok answer
answered =
    evaluated-Permitted signing authority now "r" "T1" plan none plan-Permitted granted.0 granted.1

answer-allows : answer.verdict ≡ Verdict.allow
unfolding allowed
answer-allows = refl

-- The grant that is issued for run `r` at version 3.
abbrev granted_payload : GrantPayload
granted_payload = payload_of codec signer Verdict.allow 1000 "x" "r" "T1" "graph-v3" "h"

payload_same : granted_payload ≡ ticket_grant "graph-v3"
unfolding payload_of
payload_same = refl

payload-ReadsBack : ReadsBack codec granted_payload
unfolding payload_of
payload-ReadsBack = one_payload-ReadsBack (ticket_grant "graph-v3")

issued_grant :
    (g : SignedGrant) × (issue codec signer Verdict.allow 1000 "x" "r" "T1" "graph-v3" "h" ≡ ok g)
    × (g.payload ≡ granted_payload)
    × (decode codec signer g.token ≡ ok g.payload)
issued_grant =
    issue_decodes codec (one_payload-Padded (ticket_grant "graph-v3")) signer Verdict.allow 1000 "x"
      "r" "T1" "graph-v3" "h" payload-ReadsBack

abbrev grant_before : SignedGrant
grant_before = issued_grant.0

grant_before_snapshot : grant_before.payload.decision_snapshot ≡ version_label authority.graph
unfolding payload_of version_label decimal
grant_before_snapshot = ap (λ (p : GrantPayload). p.decision_snapshot) issued_grant.2

evaluate_plan_allows_iff_example :
    ((r : AuthorizationResult Reason) × (evaluate_plan signing authority now "r" "T1" plan none
        ≡ ok r)
      × (r.verdict ≡ Verdict.allow))
    ↔ (Permitted authority "T1" plan
        × ((g : SignedGrant) × (issued signing authority now "r" "T1" plan none ≡ ok g)))
evaluate_plan_allows_iff_example = evaluate_plan_allows_iff signing authority now "r" "T1" plan none

verify_grant_valid_iff_example :
    ((r : GrantVerificationResult) × (verify_grant signing authority later granted.0.token "r" "T1"
          plan
        ≡ ok r)
      × (r.valid ≡ true))
    ↔ Honoured signing authority later "r" "T1" plan granted.0.token
verify_grant_valid_iff_example =
    verify_grant_valid_iff signing authority later "r" "T1" plan granted.0.token

evaluated_grant_verifies_example :
    (g : SignedGrant) × (answer.grant ≡ some g)
    × (verify_grant signing authority later g.token "r" "T1" plan
        ≡ ok (record {
          valid = true;
          code = VerificationCode.valid;
          payload = some (payload_at_version authority.graph);
        }))
evaluated_grant_verifies_example =
    evaluated_grant_verifies codec (one_payload-Padded (ticket_grant "graph-v3")) signer (λ _. "h")
      (λ s. s) authority now later "r" "T1" plan none answer answered answer-allows
      payload_at_version-ReadsBack (omega arith)

decode-issue_example :
    (g : SignedGrant) × (issue codec signer Verdict.allow 1000 "x" "r" "T1" "graph-v3" "h" ≡ ok g)
    × IsIssued g.payload codec signer Verdict.allow 1000 "x" "r" "T1" "graph-v3" "h"
    × (decode codec signer g.token ≡ ok g.payload)
decode-issue_example =
    decode-issue codec (one_payload-Padded (ticket_grant "graph-v3")) signer Verdict.allow 1000 "x"
      "r" "T1" "graph-v3" "h" payload-ReadsBack

applied_change_voids_grant_example :
    (code : VerificationCode) × (verify_grant signing
        (apply_decision_change signing switch authority).1
        later
        grant_before.token
        "r"
        "T1"
        plan
      ≡ ok (rejected code (some grant_before.payload)))
applied_change_voids_grant_example =
    applied_change_voids_grant signing switch authority switched.0 later grant_before.token "r" "T1"
      plan grant_before.payload small-WellFormed refl (ap (λ p. p.0) switched.2)
      switched.3.is_applied issued_grant.3 grant_before_snapshot

abbrev login_candidate : Candidate
login_candidate = record {
  effective_at = 5;
  scope = "login";
  requirement = object (field "method" (text "password") end);
}

login_candidates : candidates (list_artifacts authority.graph) ≡ ok (login_candidate ∷ [])
unfolding candidates list_artifacts sort_by insert_sorted requirement_fields find
login_candidates = refl

current_requirements-Governs_example :
    (d : Dict Value) × (current_requirements authority.graph ≡ ok d)
    × ((Ungoverned (login_candidate ∷ []) "login" × (lookup "login" d ≡ none))
        ⊎ ((c : Candidate) × Governs (login_candidate ∷ []) "login" c
            × (lookup "login" d ≡ some c.requirement)))
current_requirements-Governs_example =
    current_requirements-Governs authority.graph (login_candidate ∷ []) "login" login_candidates
