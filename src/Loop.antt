-- ===== src/Loop.antt =====
-- backend/writai/loop/workflow.py: the agent's loop. A set of scopes is gone through in the order of its
-- list, and the nodes of the optional LangGraph workflow are functions; the library runs them.
pub mod Verdicts
pub mod Replanning
use writ_ai.Prelude.{
  String, Bool, true, false, ◌&&◌, ◌==◌, List, [], ◌∷◌, ◌++◌, Option, none, some, pos, eqℤ,
  if◌then◌else◌,
}
use writ_ai.Prelude.Decimal.{append_text}
use writ_ai.Exec.{Result, ok, err, Exec, and_then, type_error, attribute_error}
use writ_ai.Dict.{Dict, lookup}
use writ_ai.Domain.{
  AgentPlan, AgentRun, AuthorizationResult, LoopState, PlanAction, SignedGrant, Verdict,
}
use writ_ai.Domain.Value.{
  Value, Items, Fields, null, boolean, number, text, array, object, nil, cons, end, field, get,
  update, eq_value,
}
use writ_ai.Authority.{Platform, IntentAuthority}
use writ_ai.Authority.Requirements.{current_requirements}
use writ_ai.Authority.Evaluation.{Moment, Reason, evaluate_plan}

-- `bool(value)`
abbrev pub truthy : Value → Bool
truthy null = false
truthy (boolean b) = b
truthy (number n) = if eqℤ n (pos 0) then false else true
truthy (text s) = if s == "" then false else true
truthy (array nil) = false
truthy (array (cons v vs)) = true
truthy (object end) = false
truthy (object (field k v r)) = true

-- `expected.get("audience") == "admin_only"`
unfoldable pub is_admin_only : Fields → Bool
is_admin_only expected = eq_value (get expected "audience") (text "admin_only")

-- The changes to an action for a scope with this requirement.
unfoldable pub correct : String → Fields → PlanAction → PlanAction
unfolding is_admin_only
correct scope expected action = record action {
  attributes = update action.attributes expected;
  description =
      if (scope == "export.authorization") && is_admin_only expected
      then "Expose the CSV export control to administrators only"
      else action.description;
}

-- The body of `for scope in action.scopes`. A requirement that is neither empty nor a dictionary is taken
-- to raise.
unfoldable pub correct_scope : Dict Value → String → PlanAction → Result PlanAction
unfolding correct
correct_scope requirements scope action = elim (lookup scope requirements) [
  | none ↦ ok action
  | some expected ↦
      if truthy expected
      then elim expected [ (object r) ↦ ok (correct scope r action) | _ ↦ err type_error ]
      else ok action
]

unfoldable pub correct_scopes : Dict Value → List String → PlanAction → Result PlanAction
correct_scopes requirements [] action = ok action
correct_scopes requirements (scope ∷ rest) action =
    and_then (correct_scope requirements scope action) (correct_scopes requirements rest)

unfoldable pub correct_actions : Dict Value → List PlanAction → Result (List PlanAction)
correct_actions requirements [] = ok []
correct_actions requirements (action ∷ rest) =
    and_then (correct_scopes requirements action.scopes action)
      λ corrected. and_then (correct_actions requirements rest) λ more. ok (corrected ∷ more)

unfoldable pub replan_for_requirements : AgentPlan → Dict Value → Result AgentPlan
unfolding correct_actions
replan_for_requirements plan requirements =
    and_then (correct_actions requirements plan.actions)
      λ actions. ok (record plan { id = "PLAN-028"; actions = actions })

-- The state for a verdict.
abbrev pub state_for : Verdict → LoopState
state_for Verdict.allow = LoopState.act
state_for Verdict.replan = LoopState.replan
state_for Verdict.block = LoopState.blocked
state_for Verdict.human_review = LoopState.human_review

-- `result.grant.token if result.grant else None`
abbrev pub token_of : Option SignedGrant → Option String
token_of none = none
token_of (some g) = some g.token

unfoldable pub apply_authorization_result : AgentRun → AuthorizationResult Reason → AgentRun
apply_authorization_result run result = record run {
  graph_snapshot = some result.graph_version;
  grant_token = token_of result.grant;
  state = state_for result.verdict;
}

-- `Verdict.value`
abbrev pub verdict_text : Verdict → String
verdict_text Verdict.allow = "ALLOW"
verdict_text Verdict.replan = "REPLAN"
verdict_text Verdict.block = "BLOCK"
verdict_text Verdict.human_review = "HUMAN_REVIEW"

pub record AgentLoopController : Type 0 where
  pub authority : IntentAuthority
  pub run : AgentRun
  pub last_authorization : Option (AuthorizationResult Reason)

-- `AgentLoopController(authority=…, run=…)`
abbrev pub agent_loop_controller : IntentAuthority → AgentRun → AgentLoopController
agent_loop_controller authority run = record {
  authority = authority;
  run = run;
  last_authorization = none;
}

-- `_apply_result`, and the line in the history.
unfoldable pub record_result :
    String → AuthorizationResult Reason → AgentLoopController → AgentLoopController
unfolding apply_authorization_result
record_result prefix result c =
    let run = apply_authorization_result c.run result in
    record c {
      last_authorization = some result;
      run = record run {
        history = run.history ++ append_text prefix (verdict_text result.verdict) ∷ [];
      };
    }

unfoldable pub mark_tests_passed : AgentLoopController → AgentLoopController
mark_tests_passed c = record c {
  run = record c.run {
    tests_passed = true;
    state = LoopState.act;
    history = c.run.history ++ "Implementation complete; tests passed." ∷ [];
  };
}

-- The state of the LangGraph workflow.
pub record WorkflowState : Type 0 where
  pub run : AgentRun
  pub authorization : Option (AuthorizationResult Reason)

pub data Node : Type 0 where
  verify_node act_node replan_node finished : Node

-- The conditional edges behind `verify`.
abbrev pub route : Verdict → Node
route Verdict.allow = act_node
route Verdict.replan = replan_node
route Verdict.block = finished
route Verdict.human_review = finished

module _ (platform : Platform) where
  -- The state is `VERIFY` while the authority evaluates the plan, and stays so when that raises.
  unfoldable pub verify_run :
      Moment → String → Exec AgentLoopController (AuthorizationResult Reason)
  unfolding record_result
  verify_run at prefix c =
      let verifying : AgentLoopController = record c {
        run = record c.run { state = LoopState.verify };
      } in
      elim (evaluate_plan platform c.authority at c.run.run_id c.run.ticket_id c.run.plan
        c.authority.last_report) [
          | err e ↦ (err e, verifying)
          | ok result ↦ (ok result, record_result prefix result verifying)
        ]

  abbrev pub start : Moment → Exec AgentLoopController (AuthorizationResult Reason)
  start at = verify_run at "Initial verification: "

  abbrev pub recheck : Moment → Exec AgentLoopController (AuthorizationResult Reason)
  recheck at = verify_run at "Reauthorization: "

  unfoldable pub replan : Moment → Exec AgentLoopController (AuthorizationResult Reason)
  unfolding verify_run replan_for_requirements
  replan at c =
      elim (and_then (current_requirements c.authority.graph)
        (replan_for_requirements c.run.plan)) [
          | err e ↦ (err e, c)
          | ok plan ↦
              verify_run at "Corrected plan verification: "
                (record c { run = record c.run { plan = plan } })
        ]

  -- One node of the workflow, and where it leads.
  unfoldable pub advance :
      IntentAuthority → Moment → Node → WorkflowState → Result (Node × WorkflowState)
  unfolding replan_for_requirements
  advance a at verify_node s =
      and_then (evaluate_plan platform a at s.run.run_id s.run.ticket_id s.run.plan a.last_report)
        λ result. ok (route result.verdict, record s { authorization = some result })
  advance a at act_node s = ok (finished, record s { run = record s.run { state = LoopState.act } })
  advance a at replan_node s =
      and_then (and_then (current_requirements a.graph) (replan_for_requirements s.run.plan))
        λ plan.
          ok
            (verify_node, record s { run = record s.run { plan = plan; state = LoopState.replan } })
  advance a at finished s = ok (finished, s)
