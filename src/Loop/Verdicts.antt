-- ===== src/Loop/Verdicts.antt =====
-- What a verification leaves in the agent's run.
use writ_ai.Prelude.{String, ◌≡◌, ◌≢◌, refl, sym, ap, ◌∙◌, ◌⊎◌, inl, inr, none, some, arith}
use writ_ai.Exec.{Error, Result, ok, err, Result-cases}
use writ_ai.Domain.{AuthorizationResult, LoopState, SignedGrant, Verdict}
use writ_ai.Authority.{Platform}
use writ_ai.Authority.Evaluation.{Moment, Reason, evaluate_plan}
use writ_ai.Authority.Evaluation.Allow.{Permitted, evaluated_allows, evaluated_denies, issued}
use writ_ai.Loop.{
  AgentLoopController, apply_authorization_result, record_result, state_for, token_of, verify_run,
}

module _ (platform : Platform) (at : Moment) (prefix : String) (c : AgentLoopController) where
  abbrev pub outcome : Result (AuthorizationResult Reason) × AgentLoopController
  outcome = verify_run platform at prefix c

  -- The run may act: its plan is permitted, and it holds the token of the grant.
  pub record Acts : Type 0 where
    pub result : AuthorizationResult Reason
    pub answer : outcome.0 ≡ ok result
    pub permitted : Permitted c.authority c.run.ticket_id c.run.plan
    pub grant : SignedGrant
    pub signed :
        issued platform c.authority at c.run.run_id c.run.ticket_id c.run.plan
          c.authority.last_report
        ≡ ok grant
    pub state : outcome.1.run.state ≡ LoopState.act
    pub token : outcome.1.run.grant_token ≡ some grant.token

  -- The run is stopped: it neither acts nor holds a token.
  pub record Stops : Type 0 where
    pub result : AuthorizationResult Reason
    pub answer : outcome.0 ≡ ok result
    pub state : outcome.1.run.state ≢ LoopState.act
    pub token : outcome.1.run.grant_token ≡ none

  -- The evaluation raised: the run is left in `VERIFY`.
  pub record Raises : Type 0 where
    pub error : Error
    pub answer : outcome.0 ≡ err error
    pub state : outcome.1.run.state ≡ LoopState.verify

  returns :
      (r : AuthorizationResult Reason)
      → evaluate_plan platform c.authority at c.run.run_id c.run.ticket_id c.run.plan
          c.authority.last_report
        ≡ ok r
      → (outcome.0 ≡ ok r)
        × (outcome.1.run.state ≡ state_for r.verdict)
        × (outcome.1.run.grant_token ≡ token_of r.grant)
  unfolding verify_run record_result apply_authorization_result
  returns r h = (ground (arith, h), ground (arith, h), ground (arith, h))

  act_only : (v : Verdict) → state_for v ≡ LoopState.act → v ≡ Verdict.allow
  act_only Verdict.allow e = refl
  act_only Verdict.replan e = absurd (ground (arith, e))
  act_only Verdict.block e = absurd (ground (arith, e))
  act_only Verdict.human_review e = absurd (ground (arith, e))

  raises :
      (e : Error)
      → evaluate_plan platform c.authority at c.run.run_id c.run.ticket_id c.run.plan
          c.authority.last_report
        ≡ err e
      → Raises
  unfolding verify_run
  raises e h = record { error = e; answer = ground (arith, h); state = ground (arith, h) }

  -- A verification of the agent's plan ends in one of three ways: the plan is permitted, and the run is in
  -- `ACT` with the token of the grant that the authority issued; or the run is in another state and holds
  -- no token; or the evaluation raised, and the run is left in `VERIFY`.
  pub verify_run_decides : Acts ⊎ (Stops ⊎ Raises)
  verify_run_decides =
      let a = c.authority in
      let run = c.run in
      elim (Result-cases
        (evaluate_plan platform a at run.run_id run.ticket_id run.plan a.last_report)) [
          | inr (e, failed) ↦ inr (inr (raises e failed))
          | inl (r, ran) ↦
              let (answer, state, token) = returns r ran in
              elim (evaluated_denies platform a at run.run_id run.ticket_id run.plan a.last_report r
                ran) [
                  | inr (denied, none_given) ↦ inr (
                      inl (record {
                        result = r;
                        answer = answer;
                        state = λ e. denied (act_only r.verdict (sym state ∙ e));
                        token = token ∙ ap token_of none_given;
                      }))
                  | inl good ↦
                      let (permitted, (g, signed, given)) =
                        evaluated_allows platform a at run.run_id run.ticket_id run.plan
                          a.last_report r ran good in
                      inl (record {
                        result = r;
                        answer = answer;
                        permitted = permitted;
                        grant = g;
                        signed = signed;
                        state = state ∙ ap state_for good;
                        token = token ∙ ap token_of given;
                      })
                ]
        ]
