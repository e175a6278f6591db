-- ===== src/Authority/Mutation/Commit.antt =====
-- What an accepted change does to the graph.
use writ_ai.Prelude.{
  ◌+◌, true, false, ◌==◌, ◌≡◌, refl, sym, ◌∙◌, ap, subst, [], ◌∷◌, ◌++◌, none, some, arith, eq_iff,
  eq_refl,
}
use writ_ai.Prelude.Decimal.{decimal, append_text}
use writ_ai.Exec.{ok}
use writ_ai.Dict.{lookup, insert, has_key, lookup-insert, has_key-insert, has_key_of_lookup}
use writ_ai.Domain.{DecisionMutation, InvalidationReport, MutationResult}
use writ_ai.Graph.{Store, add_artifact, add_edge, increment_version, version_label}
use writ_ai.Graph.WellFormed.{
  WellFormed, WellFormed-flag, id-lookup, add_artifact-WellFormed, add_edge-WellFormed,
  increment_version-WellFormed,
}
use writ_ai.Graph.Transaction.{transaction_commit}
use writ_ai.Authority.{Platform, IntentAuthority}
use writ_ai.Authority.Propagation.{propagate_invalidation}
use writ_ai.Authority.Propagation.Invalidation.{Invalidates, propagate_invalidation_exact}
use writ_ai.Authority.Mutation.{Reason, applied, supersedes_edge, change, commit}
use writ_ai.Authority.Mutation.Acceptance.{Accepted}

-- The graph with the decision, its edge and the next version, before anything is marked.
abbrev pub proposed : Store → DecisionMutation → Store
proposed g m = record {
  version = g.version + 1;
  artifacts = insert m.decision.id m.decision g.artifacts;
  edges = g.edges ++ supersedes_edge m ∷ [];
  in_transaction = true;
}

-- The outcome of an accepted change.
pub record Applies (a : IntentAuthority) (m : DecisionMutation) (r : MutationResult Reason)
    (a' : IntentAuthority) : Type 0 where
  pub is_applied : r.applied ≡ true
  pub report : InvalidationReport
  pub marked : Store
  pub invalidates : Invalidates m.affected_scopes (proposed a.graph m) m.supersedes_id marked report
  pub graph : a'.graph ≡ record marked { in_transaction = false }
  pub label : r.graph_version ≡ version_label a'.graph
  pub last : a'.last_report ≡ some (record report { graph_version = r.graph_version })
  pub told : r.report ≡ a'.last_report
  pub same_threshold : a'.authority_threshold ≡ a.authority_threshold
  pub same_policy : a'.authority_policy ≡ a.authority_policy

module _ (platform : Platform) (a : IntentAuthority) (m : DecisionMutation) (w : WellFormed a.graph)
    (outer : a.graph.in_transaction ≡ false) (h : Accepted a m) where
  abbrev inside : Store
  inside = record a.graph { in_transaction = true }

  target_key : has_key a.graph.artifacts m.supersedes_id ≡ true
  target_key = has_key_of_lookup m.supersedes_id a.graph.artifacts h.superseded h.stored

  first_steps :
      (add_artifact m.decision inside
        ≡ (ok tt, record inside { artifacts = insert m.decision.id m.decision a.graph.artifacts }))
      × (add_edge
            (supersedes_edge m)
            (record inside { artifacts = insert m.decision.id m.decision a.graph.artifacts })
          ≡ (ok tt, record (proposed a.graph m) { version = a.graph.version }))
  unfolding add_artifact add_edge
  first_steps = (
    ground (arith, h.admissible.fresh),
    ground (
      arith,
      has_key-insert m.decision.id m.decision.id m.decision a.graph.artifacts,
      has_key-insert m.decision.id m.supersedes_id m.decision a.graph.artifacts,
      target_key,
      eq_refl m.decision.id,
    ),
  )

  proposed-WellFormed : WellFormed (proposed a.graph m)
  unfolding increment_version
  proposed-WellFormed =
      let w1 = add_artifact-WellFormed m.decision inside (WellFormed-flag a.graph true w) in
      let w2 =
        add_edge-WellFormed (supersedes_edge m) _ (subst (λ p. WellFormed p.1) first_steps.0 w1) in
      increment_version-WellFormed _ (subst (λ p. WellFormed p.1) first_steps.1 w2)

  target_differs : (m.decision.id == m.supersedes_id) ≡ false
  target_differs =
      ground (arith, h.admissible.fresh, target_key, eq_iff m.decision.id m.supersedes_id)

  target_named : h.superseded.id ≡ m.supersedes_id
  target_named = id-lookup a.graph m.supersedes_id h.superseded w h.stored

  target_proposed : lookup h.superseded.id (proposed a.graph m).artifacts ≡ some h.superseded
  target_proposed =
      subst (λ i. lookup i (proposed a.graph m).artifacts ≡ some h.superseded) (sym target_named)
        (lookup-insert m.decision.id m.supersedes_id m.decision a.graph.artifacts
          ∙ ground (arith, target_differs, h.stored))

  change_runs :
      (report : InvalidationReport) (marked : Store)
      → propagate_invalidation platform m.decision m.supersedes_id m.affected_scopes
          (proposed a.graph m)
        ≡ (ok report, marked)
      → change platform m inside ≡ (ok (version_label (proposed a.graph m), report), marked)
  unfolding change increment_version
  change_runs report marked ran = rw first_steps.0 (rw first_steps.1 (rw ran))

  result_of : InvalidationReport → MutationResult Reason
  result_of report = record {
    applied = true;
    reason = applied;
    graph_version = version_label (proposed a.graph m);
    verdict = none;
    report = some (record report { graph_version = version_label (proposed a.graph m) });
  }

  authority_after : InvalidationReport → Store → IntentAuthority
  authority_after report marked = record a {
    graph = record marked { in_transaction = false };
    last_report = some (record report { graph_version = version_label (proposed a.graph m) });
  }

  commit_runs :
      (report : InvalidationReport) (marked : Store)
      → change platform m inside ≡ (ok (version_label (proposed a.graph m), report), marked)
      → commit platform m a ≡ (ok (result_of report), authority_after report marked)
  unfolding commit result_of authority_after
  commit_runs report marked ran =
      rw
        (transaction_commit (change platform m) a.graph (version_label (proposed a.graph m), report)
          outer (ap (λ p. p.0) ran))
        (rw ran)

  label_version :
      (marked : Store)
      → marked.version ≡ a.graph.version + 1
      → version_label (proposed a.graph m)
        ≡ version_label (record marked { in_transaction = false })
  unfolding version_label
  label_version marked e = ap (λ n. append_text "graph-v" (decimal n)) (sym e)

  -- An accepted change is applied: nothing on the way raises.
  pub commit_applies :
      (r : MutationResult Reason) × (a' : IntentAuthority) × (commit platform m a ≡ (ok r, a'))
      × Applies a m r a'
  unfolding result_of authority_after
  commit_applies =
      let (report, marked, ran, invalidates) =
        propagate_invalidation_exact platform m.decision m.affected_scopes (proposed a.graph m)
          proposed-WellFormed h.superseded target_proposed in
      let at_target =
        subst (λ i. Invalidates m.affected_scopes (proposed a.graph m) i marked report) target_named
          invalidates in
      (
        result_of report,
        authority_after report marked,
        commit_runs report marked (
            change_runs report marked (
              subst
                (λ i.
                  propagate_invalidation platform m.decision i m.affected_scopes
                    (proposed a.graph m)
                  ≡ (ok report, marked))
                target_named ran)),
        record {
          is_applied = refl;
          report = report;
          marked = marked;
          invalidates = at_target;
          graph = refl;
          label = label_version marked at_target.version;
          last = refl;
          told = refl;
          same_threshold = refl;
          same_policy = refl;
        },
      )
