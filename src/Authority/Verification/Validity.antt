-- ===== src/Authority/Verification/Validity.antt =====
-- The theorems about `verify_grant`.
use writ_ai.Prelude.{
  String, true, false, ◌≡◌, refl, sym, ◌∙◌, ◌↔◌, none, some, arith, eq_iff, leb, Option-cases, inl,
  inr,
}
use writ_ai.Exec.{ok, Result-cases}
use writ_ai.Domain.{
  AgentPlan, AuthorizationResult, DecisionMutation, GrantPayload, GrantVerificationResult,
  MutationResult, VerificationCode,
}
use writ_ai.Graph.{version_label}
use writ_ai.Graph.WellFormed.{WellFormed}
use writ_ai.Authority.{Platform, IntentAuthority}
use writ_ai.Authority.Mutation.{apply_decision_change}
use writ_ai.Authority.Mutation.Decided.{applied_changes_label}
use writ_ai.Authority.Mutation as mutation
use writ_ai.Authority.Evaluation.{Moment, Reason, evaluate_plan}
use writ_ai.Authority.Verification.{
  is_allow, rejected, payload_rejection, recheck, verify_payload, verify_grant,
}

-- The payload allows this run, task and plan, has not expired, and was issued at the current version.
pub record Binds (platform : Platform) (a : IntentAuthority) (at : Moment) (run_id task_id : String)
    (plan : AgentPlan) (p : GrantPayload) : Type 0 where
  pub allows : is_allow p.verdict ≡ true
  pub unexpired : leb p.expires_at at.now ≡ false
  pub run : p.run_id ≡ run_id
  pub task : p.task_id ≡ task_id
  pub hash : p.plan_hash ≡ platform.stable_hash plan
  pub snapshot : p.decision_snapshot ≡ version_label a.graph

module _ (platform : Platform) (a : IntentAuthority) (at : Moment) (run_id task_id : String)
    (plan : AgentPlan) where
  pub payload_rejection_iff :
      (p : GrantPayload)
      → (payload_rejection platform a at run_id task_id plan p ≡ none)
        ↔ Binds platform a at run_id task_id plan p
  unfolding payload_rejection
  payload_rejection_iff p = (
    λ h. record {
      allows = ground arith;
      unexpired = ground arith;
      run = ground (arith, eq_iff p.run_id run_id);
      task = ground (arith, eq_iff p.task_id task_id);
      hash = ground (arith, eq_iff p.plan_hash (platform.stable_hash plan));
      snapshot = ground (arith, eq_iff p.decision_snapshot (version_label a.graph));
    },
    λ b. ground (
      arith,
      b.allows,
      b.unexpired,
      b.run,
      b.task,
      b.hash,
      b.snapshot,
      eq_iff p.run_id run_id,
      eq_iff p.task_id task_id,
      eq_iff p.plan_hash (platform.stable_hash plan),
      eq_iff p.decision_snapshot (version_label a.graph),
    ),
  )

  -- What a grant needs in order to be found valid.
  pub record Honoured (token : String) : Type 0 where
    pub payload : GrantPayload
    pub decodes : platform.decode token ≡ ok payload
    pub binds : Binds platform a at run_id task_id plan payload
    pub fresh : AuthorizationResult Reason
    pub evaluates : evaluate_plan platform a at run_id task_id plan a.last_report ≡ ok fresh
    pub allowed : is_allow fresh.verdict ≡ true

  Honoured-of :
      (token : String) (r : GrantVerificationResult)
      → verify_grant platform a at token run_id task_id plan ≡ ok r
      → r.valid ≡ true
      → Honoured token
  unfolding verify_grant verify_payload recheck
  Honoured-of token r ran good = elim (Result-cases (platform.decode token)) [
    | inl (p, decoded) ↦
        elim (Option-cases (payload_rejection platform a at run_id task_id plan p)) [
          | inr (code, refused) ↦ absurd (ground (arith, ran, decoded, refused, good))
          | inl pass ↦
              elim (Result-cases (evaluate_plan platform a at run_id task_id plan a.last_report)) [
                | inl (fresh, evaluated) ↦ record {
                  payload = p;
                  decodes = decoded;
                  binds = (payload_rejection_iff p).0 pass;
                  fresh = fresh;
                  evaluates = evaluated;
                  allowed = ground (arith, ran, decoded, pass, evaluated, good);
                }
                | inr (e, failed) ↦ absurd (ground (arith, ran, decoded, pass, failed))
              ]
        ]
    | inr (e, failed) ↦ absurd (ground (arith, ran, failed, good))
  ]

  -- A grant is found valid exactly if its token decodes to a payload that allows this run, task and plan,
  -- has not expired and was issued at the current version, and the plan is allowed when it is evaluated
  -- again now.
  pub verify_grant_valid_iff :
      (token : String)
      → ((r : GrantVerificationResult) × (verify_grant platform a at token run_id task_id plan
            ≡ ok r)
          × (r.valid ≡ true))
        ↔ Honoured token
  unfolding verify_grant verify_payload recheck
  verify_grant_valid_iff token = (
    λ (r, ran, good). Honoured-of token r ran good,
    λ h. (
      record { valid = true; code = VerificationCode.valid; payload = some h.payload },
      ground
          (arith, h.decodes, (payload_rejection_iff h.payload).1 h.binds, h.evaluates, h.allowed),
      refl,
    ),
  )

module _ (platform : Platform) (m : DecisionMutation) (a : IntentAuthority) where
  -- Once a decision change has been applied to a well-formed graph outside a transaction, a token
  -- that decodes to a payload issued at the version before the change is rejected, for every run,
  -- task and plan and at every time.
  pub applied_change_voids_grant :
      (r : MutationResult mutation.Reason) (at : Moment) (token run_id task_id : String)
      (plan : AgentPlan) (p : GrantPayload)
      → WellFormed a.graph
      → a.graph.in_transaction ≡ false
      → (apply_decision_change platform m a).0 ≡ ok r
      → r.applied ≡ true
      → platform.decode token ≡ ok p
      → p.decision_snapshot ≡ version_label a.graph
      → (code : VerificationCode) × (verify_grant platform
            (apply_decision_change platform m a).1
            at
            token
            run_id
            task_id
            plan
          ≡ ok (rejected code (some p)))
  unfolding verify_grant verify_payload
  applied_change_voids_grant r at token run_id task_id plan p w outer answered done decoded before =
      let after = (apply_decision_change platform m a).1 in
      elim (Option-cases (payload_rejection platform after at run_id task_id plan p)) [
        | inr (code, refused) ↦ (code, ground (arith, decoded, refused))
        | inl pass ↦ absurd (
            (applied_changes_label platform m a r w outer answered done).0 (
              sym ((payload_rejection_iff platform after at run_id task_id plan p).0 pass).snapshot
              ∙ before))
      ]
