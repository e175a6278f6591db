-- ===== src/Authority/Verification/Issued.antt =====
-- A grant from `evaluate_plan`, presented to `verify_grant`.
use writ_ai.Prelude.{
  ℕ, ◌+◌, ◌*◌, ◌<◌, String, true, false, ◌≡◌, refl, ◌∙◌, ap, subst, Option, none, some, arith, leb,
}
use writ_ai.Exec.{ok}
use writ_ai.Domain.{
  AgentPlan, AuthorizationResult, GrantPayload, InvalidationReport, SignedGrant, Verdict,
  VerificationCode,
}
use writ_ai.Graph.{version_label}
use writ_ai.Authority.{Platform, IntentAuthority}
use writ_ai.Authority.Evaluation.{Moment, Reason, allowed, evaluate_plan}
use writ_ai.Authority.Evaluation.Allow.{evaluated_allows, evaluated-Permitted}
use writ_ai.Authority.Verification.{recheck, payload_rejection, verify_payload, verify_grant}
use writ_ai.Authority.Verification.Validity.{Binds, payload_rejection_iff}
use writ_ai.Grants.{Codec, GrantSigner, payload_of, signed_platform}
use writ_ai.Grants.Tokens.{Padded, ReadsBack, issue_decodes, issue_returns}

module _ (codec : Codec) (padded : Padded codec) (signer : GrantSigner)
    (stable_hash : AgentPlan → String) (casefold : String → String) where
  abbrev pub platform : Platform
  platform = signed_platform codec signer stable_hash casefold

  abbrev pub granted : IntentAuthority → Moment → String → String → AgentPlan → GrantPayload
  granted a at run_id task_id plan =
      payload_of codec signer Verdict.allow at.now at.fresh_id run_id task_id
        (version_label a.graph) (stable_hash plan)

  leb-false : (m n : ℕ) → m < n → leb n m ≡ false
  leb-false m n h = ground arith

  granted-Binds :
      (a : IntentAuthority) (at later : Moment) (run_id task_id : String) (plan : AgentPlan)
      → later.now < at.now + signer.ttl_seconds * 1000000
      → Binds platform a later run_id task_id plan (granted a at run_id task_id plan)
  unfolding payload_of
  granted-Binds a at later run_id task_id plan early = record {
    allows = refl;
    unexpired = leb-false later.now (at.now + signer.ttl_seconds * 1000000) early;
    run = refl;
    task = refl;
    hash = refl;
    snapshot = refl;
  }

  verify_of :
      (a : IntentAuthority) (later : Moment) (token run_id task_id : String) (plan : AgentPlan)
      (p : GrantPayload) (fresh : AuthorizationResult Reason)
      → platform.decode token ≡ ok p
      → payload_rejection platform a later run_id task_id plan p ≡ none
      → evaluate_plan platform a later run_id task_id plan a.last_report ≡ ok fresh
      → fresh.verdict ≡ Verdict.allow
      → verify_grant platform a later token run_id task_id plan
        ≡ ok (record { valid = true; code = VerificationCode.valid; payload = some p })
  unfolding verify_grant verify_payload recheck
  verify_of a later token run_id task_id plan p fresh decoded pass evaluates good =
      ground (arith, decoded, pass, evaluates, good)

  -- When `evaluate_plan` allows a plan, the grant in its answer is found valid for the same run, task and
  -- plan by the authority as it was, at every time before the signer's number of seconds has passed. It
  -- needs of the library that base64 is padded text of its alphabet, and that it reads back what it wrote
  -- for the granted payload.
  pub evaluated_grant_verifies :
      (a : IntentAuthority) (at later : Moment) (run_id task_id : String) (plan : AgentPlan)
      (report : Option InvalidationReport) (r : AuthorizationResult Reason)
      → evaluate_plan platform a at run_id task_id plan report ≡ ok r
      → r.verdict ≡ Verdict.allow
      → ReadsBack codec (granted a at run_id task_id plan)
      → later.now < at.now + signer.ttl_seconds * 1000000
      → (g : SignedGrant) × (r.grant ≡ some g)
        × (verify_grant platform a later g.token run_id task_id plan
            ≡ ok (record {
              valid = true;
              code = VerificationCode.valid;
              payload = some (granted a at run_id task_id plan);
            }))
  unfolding allowed
  evaluated_grant_verifies a at later run_id task_id plan report r ran good back early =
      let (permitted, (g, signed, given)) =
        evaluated_allows platform a at run_id task_id plan report r ran good in
      let (g', signed', named, decoded) =
        issue_decodes codec padded signer Verdict.allow at.now at.fresh_id run_id task_id
          (version_label a.graph) (stable_hash plan) back in
      let (g'', signed'') =
        issue_returns codec padded signer Verdict.allow later.now later.fresh_id run_id task_id
          (version_label a.graph) (stable_hash plan) in
      let same : g' ≡ g = ground (arith, signed, signed') in
      (
        g,
        given,
        verify_of a later g.token run_id task_id plan (granted a at run_id task_id plan) _
            (subst
              (λ (x : SignedGrant). platform.decode x.token ≡ ok (granted a at run_id task_id plan))
              same (decoded ∙ ap ok named))
            ((payload_rejection_iff platform a later run_id task_id plan
                (granted a at run_id task_id plan)).1
              (granted-Binds a at later run_id task_id plan early))
            (evaluated-Permitted platform a later run_id task_id plan a.last_report permitted g''
              signed'')
            refl,
      )
