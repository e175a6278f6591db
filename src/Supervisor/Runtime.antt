-- ===== src/Supervisor/Runtime.antt =====
-- `FixtureSupervisorRuntime`, which makes a supervisor from tasks and changes its assignments.
use writ_ai.Prelude.{
  String, Bool, true, false, ◌&&◌, not, ◌==◌, List, [], ◌∷◌, map, Option, none, some, contains,
  if◌then◌else◌,
}
use writ_ai.Prelude.Decimal.{append_text}
use writ_ai.Exec.{Result, ok, err, and_then, validation_error}
use writ_ai.Dict.{Dict, lookup}
use writ_ai.Domain.{AgentPlan, Artifact, PlanAction}
use writ_ai.Domain.Value.{text, get}
use writ_ai.Supervisor.{
  SupervisorAdapter, SupervisorAssignment, SupervisorAssignmentState, SupervisorExecutionMode,
  SupervisorLifecycleState, SupervisorRuntimeProvider, WorkspaceSupervisor,
}
use writ_ai.Supervisor.Texts.{Unicode, dash_underscores, initial_run_id, replacement_run_id, strip}
use writ_ai.Supervisor.Actions.{
  authorized_actions_of, direct_actions_for_assignment, resolve_plan_actions_for_tasks,
}

-- `len(texts) == len(set(texts))`
abbrev pub all_different : List String → Bool
all_different [] = true
all_different (t ∷ ts) = not (contains ts t) && all_different ts

-- `validate_assignments`
unfoldable pub validate_assignments : WorkspaceSupervisor → Result WorkspaceSupervisor
validate_assignments supervisor =
    if not (all_different (map (λ (a : SupervisorAssignment). a.task_id) supervisor.assignments))
    then err validation_error
    else if not (all_different (map (λ (a : SupervisorAssignment). a.id) supervisor.assignments))
    then err validation_error
    else ok supervisor

-- `_agent_name`
unfoldable pub agent_name_of : Artifact → String
unfolding strip
agent_name_of task =
    let default = append_text task.title " Subagent" in
    elim (get task.attributes "agent_name") [
      | (text configured) ↦ if strip configured == "" then default else strip configured
      | _ ↦ default
    ]

-- The changes of a transition that are given; the others are `None`.
pub record Transition : Type 0 where
  pub state : SupervisorAssignmentState
  pub plan : Option AgentPlan
  pub plan_actions : Option (List PlanAction)
  pub decision_snapshot : Option String
  pub create_replacement_run : Bool
  pub interrupt_reason : Option String
  pub redirect_instruction : Option String
  pub provenance_path : Option (List String)
  pub interrupt_enforced : Option Bool

abbrev pub or_keep {ℓ} : {A : Type ℓ} → Option A → A → A
or_keep none old = old
or_keep (some new) old = new

abbrev pub or_keep_some {ℓ} : {A : Type ℓ} → Option A → Option A → Option A
or_keep_some none old = old
or_keep_some (some new) old = some new

-- `apply_assignment_transition`: the changes that need no plan and no new run.
unfoldable pub apply_assignment_transition :
    SupervisorAssignment → Transition → SupervisorAssignment
apply_assignment_transition a t = record a {
  state = t.state;
  decision_snapshot = or_keep t.decision_snapshot a.decision_snapshot;
  interrupt_reason = or_keep_some t.interrupt_reason a.interrupt_reason;
  redirect_instruction = or_keep_some t.redirect_instruction a.redirect_instruction;
  provenance_path = or_keep t.provenance_path a.provenance_path;
  interrupt_enforced = or_keep t.interrupt_enforced a.interrupt_enforced;
}

-- The changes for a plan: its id, and the actions that are given or that name the task.
unfoldable pub adopt_plan :
    SupervisorAssignment → Option AgentPlan → Option (List PlanAction) → SupervisorAssignment
unfolding direct_actions_for_assignment authorized_actions_of
adopt_plan a none plan_actions = a
adopt_plan a (some plan) plan_actions =
    let actions = or_keep plan_actions (direct_actions_for_assignment a plan) in
    record a {
      plan_id = plan.id;
      action_ids = map (λ (x : PlanAction). x.id) actions;
      authorized_actions = authorized_actions_of actions;
    }

module _ (unicode : Unicode) where
  -- `SupervisorRuntimeProvider(text)`, or `GENERIC` for another text.
  unfoldable pub provider_of : String → SupervisorRuntimeProvider
  provider_of t =
      if t == "codex"
      then SupervisorRuntimeProvider.codex
      else if t == "claude-code"
      then SupervisorRuntimeProvider.claude_code
      else SupervisorRuntimeProvider.generic

  -- `_runtime_provider`
  unfoldable pub runtime_provider_of : Artifact → SupervisorRuntimeProvider
  unfolding provider_of strip dash_underscores
  runtime_provider_of task = elim (get task.attributes "runtime_provider") [
    | (text raw) ↦
        let normalized = dash_underscores (unicode.casefold (strip raw)) in
        if normalized == "claude"
        then SupervisorRuntimeProvider.claude_code
        else provider_of normalized
    | _ ↦ SupervisorRuntimeProvider.generic
  ]

  -- A queued assignment for a task.
  unfoldable pub assignment_for :
      String → String → String → Dict (List PlanAction) → Artifact → SupervisorAssignment
  unfolding runtime_provider_of agent_name_of initial_run_id authorized_actions_of
  assignment_for supervisor_run_id plan_id decision_snapshot resolved task =
      let actions = or_keep (lookup task.id resolved) [] in
      record {
        id = append_text "ASSIGNMENT-" task.id;
        task_id = task.id;
        task_title = task.title;
        agent_name = agent_name_of task;
        runtime_provider = runtime_provider_of task;
        execution_mode = SupervisorExecutionMode.simulated;
        run_id = initial_run_id supervisor_run_id task.id;
        state = SupervisorAssignmentState.queued;
        scopes = task.scopes;
        action_ids = map (λ (x : PlanAction). x.id) actions;
        authorized_actions = authorized_actions_of actions;
        plan_id = plan_id;
        decision_snapshot = decision_snapshot;
        redirected_from_run_id = none;
        interrupt_reason = none;
        redirect_instruction = none;
        provenance_path = [];
        interrupt_enforced = false;
      }

  unfoldable pub create_supervisor :
      String → String → List Artifact → AgentPlan → String → Result WorkspaceSupervisor
  unfolding assignment_for validate_assignments
  create_supervisor workspace_id supervisor_run_id tasks plan decision_snapshot =
      and_then (resolve_plan_actions_for_tasks tasks plan) λ resolved.
        validate_assignments (record {
          id = append_text "SUPERVISOR-" (unicode.upper workspace_id);
          name = "writ.ai Supervisor";
          state = SupervisorLifecycleState.queued;
          adapter = SupervisorAdapter.fixture_agent_runtime;
          execution_mode = SupervisorExecutionMode.simulated;
          assignments =
              map (assignment_for supervisor_run_id plan.id decision_snapshot resolved) tasks;
          applied_interrupts = [];
        })

  -- `transition`
  unfoldable pub transition : SupervisorAssignment → Transition → SupervisorAssignment
  unfolding apply_assignment_transition adopt_plan replacement_run_id
  transition a t =
      let changed = apply_assignment_transition (adopt_plan a t.plan t.plan_actions) t in
      if t.create_replacement_run
      then record changed {
        redirected_from_run_id = some a.run_id;
        run_id = replacement_run_id unicode a.run_id;
      }
      else changed
