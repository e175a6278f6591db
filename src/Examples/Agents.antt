-- ===== src/Examples/Agents.antt =====
-- The agent's loop, the supervisor and the intake gate on concrete values.
use writ_ai.Prelude.{
  String, true, false, ◌≡◌, refl, subst, ◌⊎◌, ◌↔◌, List, [], ◌∷◌, none, some, finite, pos, arith,
}
use writ_ai.Exec.{ok}
use writ_ai.Dict.{Dict, lookup}
use writ_ai.Domain.{AgentPlan, InvalidationPath, LoopState, PlanAction}
use writ_ai.Domain.Value.{
  Value, Fields, end, field, object, text, update, set_field, field_names, one,
}
use writ_ai.Prelude.Sorting.{sort_by, insert_sorted}
use writ_ai.Graph.WellFormed.{Distinct}
use writ_ai.Provenance.{select_primary_invalidation_path}
use writ_ai.Provenance.Primary.{In, NoLonger, considered, select_primary_invalidation_path-longest}
use writ_ai.Authority.Findings.{project}
use writ_ai.Authority.Evaluation.{Moment}
use writ_ai.Loop.{
  AgentLoopController, agent_loop_controller, correct_scopes, correct_scope, correct,
}
use writ_ai.Loop.Verdicts.{Acts, Raises, Stops, verify_run_decides}
use writ_ai.Loop.Replanning.{Separate, correct_scopes-agrees}
use writ_ai.Supervisor.Actions.{authorized_actions_of}
use writ_ai.Supervisor.Bounded.{Bounded, authorized_actions_of-Bounded}
use writ_ai.Gate.{DeterministicIntakeGate, PermissionChecker, evaluate, pending}
use writ_ai.Gate.Pending.{CandidateCleared, evaluate_pending_iff, evaluate_pending_sound}
use writ_ai.Examples.Data.{authority}
use writ_ai.Examples.Signer.{signing}

abbrev act : PlanAction
act = record {
  id = "A1";
  description = "";
  scopes = "login" ∷ [];
  attributes = field "method" (text "password") (field "task_id" (text "K1") end);
}

abbrev plan : AgentPlan
plan = record { id = "P1"; ticket_id = "T1"; objective = ""; actions = act ∷ [] }

abbrev controller : AgentLoopController
controller = agent_loop_controller authority (record {
  run_id = "r";
  ticket_id = "T1";
  plan = plan;
  state = LoopState.plan;
  tests_passed = false;
  graph_snapshot = none;
  grant_token = none;
  history = [];
})

abbrev now : Moment
now = record { now = 1000; fresh_id = "x" }

verify_run_decides_example :
    Acts signing now "Initial verification: " controller
    ⊎ (Stops signing now "Initial verification: " controller
        ⊎ Raises signing now "Initial verification: " controller)
verify_run_decides_example = verify_run_decides signing now "Initial verification: " controller

abbrev needs : Dict Value
needs = ("login", object (field "method" (text "passkey") end)) ∷ []

abbrev act_after : PlanAction
act_after = record act {
  attributes = field "method" (text "passkey") (field "task_id" (text "K1") end);
}

corrected : correct_scopes needs ("login" ∷ []) act ≡ ok act_after
unfolding correct_scopes correct_scope lookup correct update set_field
corrected = refl

separate : Separate needs ("login" ∷ [])
unfolding lookup
separate = (
  λ r found.
      let same : field "method" (text "passkey") end ≡ r = ground (arith, found) in
      (
        subst (λ (q : Fields). Distinct (field_names q)) same (refl, tt),
        λ y q m e. absurd (ground (arith, m)),
      ),
  tt,
)

correct_scopes-agrees_example :
    project act_after.attributes (field "method" (text "passkey") end)
    ≡ field "method" (text "passkey") end
unfolding lookup
correct_scopes-agrees_example =
    correct_scopes-agrees needs ("login" ∷ []) act act_after "login"
      (field "method" (text "passkey") end) corrected separate refl refl

abbrev paths : List InvalidationPath
paths =
    record { artifact_id = "D1"; node_ids = "D2" ∷ "D1" ∷ [] }
    ∷ record { artifact_id = "T1"; node_ids = "D2" ∷ "D1" ∷ "T1" ∷ [] }
    ∷ []

select_primary_invalidation_path-longest_example :
    ((considered none paths ≡ []) × (select_primary_invalidation_path paths none ≡ none))
    ⊎ ((p : InvalidationPath) × (select_primary_invalidation_path paths none ≡ some p)
        × In p (considered none paths)
        × NoLonger p (considered none paths))
select_primary_invalidation_path-longest_example =
    select_primary_invalidation_path-longest paths none

abbrev tasks : List (String × List String)
tasks = ("K1", "login" ∷ []) ∷ ("K2", "billing" ∷ []) ∷ []

authorized_actions_of-Bounded_example : Bounded (authorized_actions_of (act ∷ act ∷ []))
authorized_actions_of-Bounded_example = authorized_actions_of-Bounded (act ∷ act ∷ [])

abbrev gate : DeterministicIntakeGate
gate = record {
  known_scopes = "login" ∷ [];
  authority_policy = ("login", "lead" ∷ []) ∷ [];
  confidence_threshold = finite (pos 0);
}

abbrev everyone : PermissionChecker
everyone user permission = some true

evaluate_pending_iff_example :
    ((evaluate everyone gate "ann" ("login" ∷ []) (finite (pos 1))).disposition ≡ pending)
    ↔ ((p : String) × CandidateCleared everyone gate "ann" ("login" ∷ []) (finite (pos 1)) p)
evaluate_pending_iff_example =
    evaluate_pending_iff everyone gate "ann" ("login" ∷ []) (finite (pos 1))
      (λ q e. absurd (ground (arith, e)))

goes_on : (evaluate everyone gate "ann" ("login" ∷ []) (finite (pos 1))).disposition ≡ pending
unfolding evaluate one sort_by insert_sorted lookup
goes_on = refl

evaluate_pending_sound_example :
    (p : String) × ((evaluate everyone gate "ann" ("login" ∷ []) (finite (pos 1))).permission_id
      ≡ some p)
    × CandidateCleared everyone gate "ann" ("login" ∷ []) (finite (pos 1)) p
evaluate_pending_sound_example =
    evaluate_pending_sound everyone gate "ann" ("login" ∷ []) (finite (pos 1)) goes_on
