-- ===== src/Examples/Changes.antt =====
-- Decision changes on concrete graphs.
use writ_ai.Prelude.{false, ◌≡◌, ◌≢◌, refl, ap, none, some}
use writ_ai.Exec.{ok}
use writ_ai.Dict.{lookup}
use writ_ai.Domain.{MutationResult}
use writ_ai.Domain.Value.{find}
use writ_ai.Graph.{version_label}
use writ_ai.Graph.WellFormed.{WellFormed}
use writ_ai.Authority.{IntentAuthority}
use writ_ai.Authority.Mutation.{Reason, refusal, apply_decision_change}
use writ_ai.Authority.Mutation.Acceptance.{Accepted, refusal_sound}
use writ_ai.Authority.Mutation.Commit.{Applies}
use writ_ai.Authority.Mutation.Decided.{
  accepted_applies, unaffected-apply_decision_change, apply_decision_change-WellFormed,
  applied_changes_label,
}
use writ_ai.Examples.Data.{small-WellFormed, authority, switch, password, billing_task}
use writ_ai.Examples.Signer.{signing}

switch_passes : refusal authority switch ≡ none
unfolding refusal find lookup
switch_passes = refl

switch_accepted : Accepted authority switch
unfolding lookup
switch_accepted = record {
  admissible = refusal_sound authority switch switch_passes;
  superseded = password;
  stored = refl;
  target_decision = refl;
  covered = refl;
}

pub switched :
    (r : MutationResult Reason) × (a' : IntentAuthority) × (apply_decision_change signing switch
        authority
      ≡ (ok r, a'))
    × Applies authority switch r a'
switched = accepted_applies signing switch authority small-WellFormed refl switch_accepted

unaffected-apply_decision_change_example :
    lookup "K2" (apply_decision_change signing switch authority).1.graph.artifacts
    ≡ some billing_task
unfolding lookup
unaffected-apply_decision_change_example =
    unaffected-apply_decision_change signing switch authority "K2" billing_task small-WellFormed
      refl refl refl

apply_decision_change-WellFormed_example :
    WellFormed (apply_decision_change signing switch authority).1.graph
    × ((apply_decision_change signing switch authority).1.graph.in_transaction ≡ false)
apply_decision_change-WellFormed_example =
    apply_decision_change-WellFormed signing switch authority small-WellFormed refl

applied_changes_label_example :
    (version_label (apply_decision_change signing switch authority).1.graph
      ≢ version_label authority.graph)
    × (switched.0.graph_version
        ≡ version_label (apply_decision_change signing switch authority).1.graph)
applied_changes_label_example =
    applied_changes_label signing switch authority switched.0 small-WellFormed refl
      (ap (λ p. p.0) switched.2) switched.3.is_applied
