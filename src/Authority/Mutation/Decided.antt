-- ===== src/Authority/Mutation/Decided.antt =====
-- The theorems about `apply_decision_change` as a whole.
use writ_ai.Prelude.{
  String, true, false, ◌==◌, ◌≡◌, ◌≢◌, refl, sym, ◌∙◌, ap, subst, ◌⊎◌, inl, inr, none, some,
  contains, arith, eq_iff, Bool-cases, Option-cases,
}
use writ_ai.Exec.{Result, ok, err, unknown_artifact}
use writ_ai.Dict.{lookup, lookup-insert, has_key_of_lookup}
use writ_ai.Domain.{Artifact, DecisionMutation, MutationResult}
use writ_ai.Graph.{Store, get_artifact, version_label, version_label-injective}
use writ_ai.Graph.WellFormed.{WellFormed, WellFormed-flag}
use writ_ai.Authority.{Platform, IntentAuthority}
use writ_ai.Authority.Propagation.Marks.{hit}
use writ_ai.Authority.Mutation.{
  Reason, commit, refusal, refused, target_refusal, apply_decision_change,
}
use writ_ai.Authority.Mutation.Acceptance.{
  Accepted, refusal_sound, refusal_complete, target_refusal_iff,
}
use writ_ai.Authority.Mutation.Commit.{Applies, proposed, commit_applies}

module _ (platform : Platform) (m : DecisionMutation) (a : IntentAuthority) where
  abbrev pub outcome : Result (MutationResult Reason) × IntentAuthority
  outcome = apply_decision_change platform m a

  -- A refused change: the authority is as it was, and the caller gets `HUMAN_REVIEW` with a reason, or
  -- a `KeyError` for an unknown superseded artifact.
  pub record Refuses : Type 0 where
    pub unchanged : outcome.1 ≡ a
    pub answer :
        (outcome.0 ≡ err (unknown_artifact m.supersedes_id))
        ⊎ ((r : Reason) × (outcome.0 ≡ ok (refused r a)))

  unknown_target :
      refusal a m ≡ none
      → lookup m.supersedes_id a.graph.artifacts ≡ none
      → outcome ≡ (err (unknown_artifact m.supersedes_id), a)
  unfolding apply_decision_change get_artifact
  unknown_target pass missing = ground arith

  refused_early : (r : Reason) → refusal a m ≡ some r → outcome ≡ (ok (refused r a), a)
  unfolding apply_decision_change
  refused_early r e = ground arith

  refused_late :
      (r : Reason) (s : Artifact)
      → refusal a m ≡ none
      → lookup m.supersedes_id a.graph.artifacts ≡ some s
      → target_refusal s m ≡ some r
      → outcome ≡ (ok (refused r a), a)
  unfolding apply_decision_change get_artifact
  refused_late r s pass found e = ground arith

  accepted_runs :
      (s : Artifact)
      → refusal a m ≡ none
      → lookup m.supersedes_id a.graph.artifacts ≡ some s
      → target_refusal s m ≡ none
      → outcome ≡ commit platform m a
  unfolding apply_decision_change get_artifact
  accepted_runs s pass found e = ground arith

  -- An accepted change is applied, and nothing on the way raises.
  pub accepted_applies :
      WellFormed a.graph
      → a.graph.in_transaction ≡ false
      → Accepted a m
      → (r : MutationResult Reason) × (a' : IntentAuthority) × (apply_decision_change platform m a
          ≡ (ok r, a'))
        × Applies a m r a'
  accepted_applies w outer h =
      let (r, a', ran, applies) = commit_applies platform a m w outer h in
      let late = (target_refusal_iff a m h.superseded).1 (h.target_decision, h.covered) in
      (
        r,
        a',
        accepted_runs h.superseded (refusal_complete a m h.admissible) h.stored late ∙ ran,
        applies,
      )

  refuses_of :
      (r : Result (MutationResult Reason))
      → outcome ≡ (r, a)
      → (r ≡ err (unknown_artifact m.supersedes_id)) ⊎ ((x : Reason) × (r ≡ ok (refused x a)))
      → Refuses
  refuses_of r e answer = record {
    unchanged = ap (λ p. p.1) e;
    answer =
        subst
          (λ x.
            (x ≡ err (unknown_artifact m.supersedes_id)) ⊎ ((y : Reason) × (x ≡ ok (refused y a))))
          (sym (ap (λ p. p.0) e)) answer;
  }

  pub apply_decision_change_decides :
      WellFormed a.graph
      → a.graph.in_transaction ≡ false
      → (Accepted a m
          × ((r : MutationResult Reason) × (a' : IntentAuthority) × (apply_decision_change platform
                  m a
                ≡ (ok r, a'))
              × Applies a m r a'))
        ⊎ ((¬ Accepted a m) × Refuses)
  apply_decision_change_decides w outer = elim (Option-cases (refusal a m)) [
    | inr (r, early) ↦ inr (
      λ h. cc (early, refusal_complete a m h.admissible),
      refuses_of _ (refused_early r early) (inr (r, refl)),
    )
    | inl pass ↦ elim (Option-cases (lookup m.supersedes_id a.graph.artifacts)) [
      | inl missing ↦
          inr (λ h. cc (missing, h.stored), refuses_of _ (unknown_target pass missing) (inl refl))
      | inr (s, found) ↦ elim (Option-cases (target_refusal s m)) [
        | inr (r, late) ↦ inr (
          λ h. cc (
            found,
            h.stored,
            late,
            (target_refusal_iff a m h.superseded).1 (h.target_decision, h.covered),
          ),
          refuses_of _ (refused_late r s pass found late) (inr (r, refl)),
        )
        | inl ok_target ↦
            let (kind, covers) = (target_refusal_iff a m s).0 ok_target in
            let h : Accepted a m = record {
              admissible = refusal_sound a m pass;
              superseded = s;
              stored = found;
              target_decision = kind;
              covered = covers;
            } in
            inl (h, accepted_applies w outer h)
      ]
    ]
  ]

  -- On a well-formed graph outside a transaction, a stored artifact that carries no affected scope
  -- is left as it is, whatever becomes of the change.
  pub unaffected-apply_decision_change :
      (k : String) (b : Artifact)
      → WellFormed a.graph
      → a.graph.in_transaction ≡ false
      → lookup k a.graph.artifacts ≡ some b
      → hit b m.affected_scopes ≡ false
      → lookup k (apply_decision_change platform m a).1.graph.artifacts ≡ some b
  unaffected-apply_decision_change k b w outer stored miss =
      elim (apply_decision_change_decides w outer) [
        | inr (_, refused) ↦ rw refused.unchanged stored
        | inl (h, (r, a', ran, applies)) ↦
            let other : (m.decision.id == k) ≡ false = ground (
              arith,
              h.admissible.fresh,
              has_key_of_lookup k a.graph.artifacts b stored,
              eq_iff m.decision.id k,
            ) in
            let before : lookup k (proposed a.graph m).artifacts ≡ some b =
              lookup-insert m.decision.id k m.decision a.graph.artifacts
              ∙ ground (arith, other, stored) in
            rw (ap (λ p. p.1) ran) (
              rw applies.graph
                (elim (Bool-cases (contains applies.report.affected_artifact_ids k)) [
                  | inr unlisted ↦ applies.invalidates.unlisted k unlisted ∙ before
                  | inl listed ↦
                      let (c, was, is_hit, now) = applies.invalidates.listed k listed in
                      absurd (cc (before, was, miss, is_hit))
                ]))
      ]

  -- A decision change keeps a well-formed graph outside a transaction well formed and outside a
  -- transaction, whether the change is applied or refused.
  pub apply_decision_change-WellFormed :
      WellFormed a.graph
      → a.graph.in_transaction ≡ false
      → WellFormed (apply_decision_change platform m a).1.graph
        × ((apply_decision_change platform m a).1.graph.in_transaction ≡ false)
  apply_decision_change-WellFormed w outer = elim (apply_decision_change_decides w outer) [
    | inr (_, refused) ↦ rw refused.unchanged (w, outer)
    | inl (h, (r, a', ran, applies)) ↦ rw (ap (λ p. p.1) ran) (
        rw applies.graph
          (WellFormed-flag applies.marked false applies.invalidates.well_formed, refl))
  ]

  -- On a well-formed graph outside a transaction, an applied change moves the graph to a version
  -- whose label differs from the one before, and the result tells that label.
  pub applied_changes_label :
      (r : MutationResult Reason)
      → WellFormed a.graph
      → a.graph.in_transaction ≡ false
      → (apply_decision_change platform m a).0 ≡ ok r
      → r.applied ≡ true
      → (version_label (apply_decision_change platform m a).1.graph ≢ version_label a.graph)
        × (r.graph_version ≡ version_label (apply_decision_change platform m a).1.graph)
  unfolding refused
  applied_changes_label r w outer answered done = elim (apply_decision_change_decides w outer) [
    | inr (_, refused) ↦ elim refused.answer [
      | inl raised ↦ absurd (cc (answered, raised))
      | inr (x, told) ↦ absurd (ground (arith, answered, told, done))
    ]
    | inl (h, (r', a', ran, applies)) ↦
        let same : r' ≡ r = cc (answered, ap (λ p. p.0) ran) in
        rw (ap (λ p. p.1) ran) (
          λ e. absurd (
              omega (
                arith,
                version_label-injective a'.graph a.graph e,
                ap (λ (s : Store). s.version) applies.graph,
                applies.invalidates.version,
              )),
          rw (← same) applies.label,
        )
  ]
