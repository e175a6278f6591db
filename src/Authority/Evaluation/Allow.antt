-- ===== src/Authority/Evaluation/Allow.antt =====
-- The theorem about `evaluate_plan`.
use writ_ai.Prelude.{
  none, ◌≢◌, ◌⊎◌, String, ◌==◌, ◌≡◌, refl, sym, ◌∙◌, ◌↔◌, ◌∷◌, Option, some, is_empty, Each, arith,
  eq_iff, Bool-cases, Option-cases, inl, inr,
}
use writ_ai.Exec.{Result, ok, and_then, Result-cases}
use writ_ai.Dict.{Dict, lookup}
use writ_ai.Domain.{
  AgentPlan, Artifact, AuthorizationResult, InvalidationReport, SignedGrant, Verdict,
}
use writ_ai.Domain.Value.{Fields}
use writ_ai.Graph.{version_label}
use writ_ai.Authority.{Platform, IntentAuthority}
use writ_ai.Authority.Requirements.{current_requirements, typed_requirements}
use writ_ai.Authority.Findings.{plan_findings}
use writ_ai.Authority.Evaluation.{
  Context, Moment, Reason, allowed, blocked, conflicting, context_of, evaluate_plan, judge, or_last,
  referenced_ids, verdict_on,
}
use writ_ai.Authority.Evaluation.Fits.{Covered, Fits, plan_findings_iff}

-- What a plan must satisfy: the requirements in force can be read, the task is stored and the plan is
-- for it, every required scope of the task is in the plan, and every action fits.
pub record Permitted (a : IntentAuthority) (task_id : String) (plan : AgentPlan) : Type 0 where
  pub requirements : Dict Fields
  pub in_force : and_then (current_requirements a.graph) typed_requirements ≡ ok requirements
  pub task : Artifact
  pub stored : lookup task_id a.graph.artifacts ≡ some task
  pub same_ticket : plan.ticket_id ≡ task_id
  pub covered : Covered requirements task plan
  pub fits : Each (Fits a.graph requirements) plan.actions

module _ (platform : Platform) (a : IntentAuthority) (at : Moment) (run_id task_id : String)
    (plan : AgentPlan) (report : Option InvalidationReport) where
  abbrev pub evaluated : Result (AuthorizationResult Reason)
  evaluated = evaluate_plan platform a at run_id task_id plan report

  abbrev pub issued : Result SignedGrant
  issued =
      platform.issue at.now at.fresh_id run_id task_id (version_label a.graph)
        (platform.stable_hash plan)

  -- What a permitted plan gets.
  abbrev pub context : Context
  context =
      context_of (task_id ∷ plan.id ∷ referenced_ids plan.actions) plan
        (or_last report a.last_report)

  evaluated-judge :
      (requirements : Dict Fields)
      → and_then (current_requirements a.graph) typed_requirements ≡ ok requirements
      → evaluated ≡ judge platform a at run_id task_id plan report requirements
  unfolding evaluate_plan
  evaluated-judge requirements h = ground (arith, h)

  evaluated_fails :
      (r : AuthorizationResult Reason)
      → evaluated ≡ ok r
      → (requirements : Dict Fields) × (and_then (current_requirements a.graph) typed_requirements
          ≡ ok requirements)
  unfolding evaluate_plan
  evaluated_fails r h =
      elim (Result-cases (and_then (current_requirements a.graph) typed_requirements)) [
        | inl found ↦ found
        | inr (e, failed) ↦ absurd (ground (arith, h, failed))
      ]

  judge-Permitted :
      (h : Permitted a task_id plan)
      → judge platform a at run_id task_id plan report h.requirements
        ≡ and_then issued (λ g. ok (allowed a task_id h.requirements context g))
  unfolding judge verdict_on
  judge-Permitted h =
      let none_found =
        (plan_findings_iff a.graph h.requirements h.task plan).1 (h.covered, h.fits) in
      ground (arith, h.stored, eq_iff plan.ticket_id task_id, h.same_ticket, none_found)

  -- A permitted plan is allowed, with the grant that the signer issues for the run, the task, the plan's
  -- hash and the current version.
  pub evaluated-Permitted :
      (h : Permitted a task_id plan) (g : SignedGrant)
      → issued ≡ ok g
      → evaluated ≡ ok (allowed a task_id h.requirements context g)
  evaluated-Permitted h g signed =
      evaluated-judge h.requirements h.in_force ∙ (judge-Permitted h ∙ rw signed refl)

  judge_allows :
      (requirements : Dict Fields) (r : AuthorizationResult Reason)
      → and_then (current_requirements a.graph) typed_requirements ≡ ok requirements
      → judge platform a at run_id task_id plan report requirements ≡ ok r
      → r.verdict ≡ Verdict.allow
      → Permitted a task_id plan × ((g : SignedGrant) × (issued ≡ ok g) × (r.grant ≡ some g))
  unfolding judge verdict_on blocked allowed conflicting
  judge_allows requirements r read h good = elim (Option-cases (lookup task_id a.graph.artifacts)) [
    | inl missing ↦ absurd (ground (arith, h, good, missing))
    | inr (task, stored) ↦ elim (Bool-cases (plan.ticket_id == task_id)) [
      | inr other ↦ absurd (ground (arith, h, good, stored, other))
      | inl same ↦
          elim (Bool-cases (is_empty (plan_findings a.graph requirements task plan).mismatches)) [
            | inr some_found ↦ absurd (ground (arith, h, good, stored, same, some_found))
            | inl nothing ↦ elim (Result-cases issued) [
              | inr (e, failed) ↦ absurd (ground (arith, h, stored, same, nothing, failed))
              | inl (g, signed) ↦
                  let (covered, fits) =
                    (plan_findings_iff a.graph requirements task plan).0 nothing in
                  (
                    record {
                      requirements = requirements;
                      in_force = read;
                      task = task;
                      stored = stored;
                      same_ticket = (eq_iff plan.ticket_id task_id).0 same;
                      covered = covered;
                      fits = fits;
                    },
                    (g, signed, ground (arith, h, stored, same, nothing, signed)),
                  )
            ]
          ]
    ]
  ]

  judge_denies :
      (requirements : Dict Fields) (r : AuthorizationResult Reason)
      → judge platform a at run_id task_id plan report requirements ≡ ok r
      → (r.verdict ≡ Verdict.allow) ⊎ ((r.verdict ≢ Verdict.allow) × (r.grant ≡ none))
  unfolding judge verdict_on blocked allowed conflicting
  judge_denies requirements r h = elim (Option-cases (lookup task_id a.graph.artifacts)) [
    | inl missing ↦ inr (λ e. ground (arith, h, missing, e), ground (arith, h, missing))
    | inr (task, stored) ↦ elim (Bool-cases (plan.ticket_id == task_id)) [
      | inr other ↦ inr (λ e. ground (arith, h, stored, other, e), ground (arith, h, stored, other))
      | inl same ↦
          elim (Bool-cases (is_empty (plan_findings a.graph requirements task plan).mismatches)) [
            | inr found ↦ inr (
              λ e. ground (arith, h, stored, same, found, e),
              ground (arith, h, stored, same, found),
            )
            | inl nothing ↦ elim (Result-cases issued) [
              | inr (e, failed) ↦ absurd (ground (arith, h, stored, same, nothing, failed))
              | inl (g, signed) ↦ inl (ground (arith, h, stored, same, nothing, signed))
            ]
          ]
    ]
  ]

  -- Only an answer of `ALLOW` carries a grant.
  pub evaluated_denies :
      (r : AuthorizationResult Reason)
      → evaluated ≡ ok r
      → (r.verdict ≡ Verdict.allow) ⊎ ((r.verdict ≢ Verdict.allow) × (r.grant ≡ none))
  evaluated_denies r h =
      let (requirements, read) = evaluated_fails r h in
      judge_denies requirements r (sym (evaluated-judge requirements read) ∙ h)

  pub evaluated_allows :
      (r : AuthorizationResult Reason)
      → evaluated ≡ ok r
      → r.verdict ≡ Verdict.allow
      → Permitted a task_id plan × ((g : SignedGrant) × (issued ≡ ok g) × (r.grant ≡ some g))
  evaluated_allows r h good =
      let (requirements, read) = evaluated_fails r h in
      judge_allows requirements r read (sym (evaluated-judge requirements read) ∙ h) good

  -- `evaluate_plan` answers `ALLOW` exactly if the plan is permitted and the signer issues a grant: the
  -- task is stored, the plan is for it, no required scope of the task is left out, and every action
  -- refers to a valid Task, if to any, and says what the requirements in force say on its scopes.
  pub evaluate_plan_allows_iff :
      ((r : AuthorizationResult Reason) × (evaluate_plan platform a at run_id task_id plan report
          ≡ ok r)
        × (r.verdict ≡ Verdict.allow))
      ↔ (Permitted a task_id plan × ((g : SignedGrant) × (issued ≡ ok g)))
  unfolding allowed
  evaluate_plan_allows_iff = (
    λ (r, h, good).
        let (permitted, (g, signed, _)) = evaluated_allows r h good in (permitted, (g, signed)),
    λ (permitted, (g, signed)). (_, evaluated-Permitted permitted g signed, refl),
  )
