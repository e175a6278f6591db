-- ===== src/InterruptPort.antt =====
-- backend/writai/workspaces/interrupt_port.py: the scope-aware port between an approved decision and the
-- assignments of a stored workspace. The lock makes each call one step; the runtime adapter of
-- workspaces/supervisor.py is a record of the parts that the port uses.
pub mod Cases
pub mod Replay
pub mod Preview
pub mod Affected
pub mod Paths
pub mod Later
pub mod Stopped
use writ_ai.Prelude.{
  String, Bool, true, false, not, ◌&&◌, ◌||◌, ◌==◌, List, [], ◌∷◌, ◌++◌, map, Option, none, some,
  contains, union, subset, same_set, is_empty, filter, length, ltb, if◌then◌else◌,
}
use writ_ai.Prelude.Sorting.{sort_texts}
use writ_ai.Prelude.Decimal.{append_text}
use writ_ai.Exec.{Error, Result, ok, err, Exec, and_then, value_error}
use writ_ai.Domain.{InvalidationReport, InvalidationPath}
use writ_ai.Supervisor.{
  AppliedInterrupt, SupervisorAdapter, SupervisorAssignment, SupervisorAssignmentState,
  SupervisorExecutionMode, SupervisorLifecycleState, WorkspaceSupervisor,
}
use writ_ai.Supervisor.Texts.{Unicode}
use writ_ai.Supervisor.Runtime.{Transition, transition}
use writ_ai.Supervisor.Live.{live_transition}
use writ_ai.Interrupts.{InterruptRequest, InterruptResult, assignment_ids}
use writ_ai.Workspaces.{LiveWorkspaceRecord, Document, get_record, put_record}

-- `SupervisorRuntimeAdapter`
pub record SupervisorRuntimeAdapter : Type 0 where
  pub adapter_name : String
  pub execution_mode : SupervisorExecutionMode
  pub transition : SupervisorAssignment → Transition → SupervisorAssignment

abbrev pub hook_runtime_name : String
hook_runtime_name = "claude-code-hook-runtime"

-- `ClaudeCodeSupervisorRuntime`
abbrev pub claude_code_runtime : Unicode → SupervisorRuntimeAdapter
claude_code_runtime unicode = record {
  adapter_name = hook_runtime_name;
  execution_mode = SupervisorExecutionMode.live;
  transition = live_transition unicode;
}

-- `FixtureSupervisorRuntime`
abbrev pub fixture_runtime : Unicode → SupervisorRuntimeAdapter
fixture_runtime unicode = record {
  adapter_name = "fixture-agent-runtime";
  execution_mode = SupervisorExecutionMode.simulated;
  transition = transition unicode;
}

-- `assignment.state in _INTERRUPTIBLE_STATES`
abbrev pub is_interruptible : SupervisorAssignmentState → Bool
is_interruptible SupervisorAssignmentState.running = true
is_interruptible SupervisorAssignmentState.continuing = true
is_interruptible _ = false

abbrev pub is_interrupted : SupervisorAssignmentState → Bool
is_interrupted SupervisorAssignmentState.interrupted = true
is_interrupted _ = false

-- `_report_for`
unfoldable pub report_for : Option InvalidationReport → String → Option InvalidationReport
report_for none decision_id = none
report_for (some report) decision_id =
    if report.changed_decision_id == decision_id then some report else none

-- `_stops_work`
unfoldable pub stops_work :
    SupervisorAssignment → List String → Option InvalidationReport → List String → Bool
stops_work a affected (some report) already = contains report.invalidated_task_ids a.task_id
stops_work a affected none already =
    not (is_empty a.scopes) && subset a.scopes (union affected already)

-- The scopes of the applied interrupts of other decisions.
unfoldable pub scopes_of_others : String → List AppliedInterrupt → List String
scopes_of_others decision_id [] = []
scopes_of_others decision_id (entry ∷ rest) =
    let later = scopes_of_others decision_id rest in
    if entry.decision_id == decision_id then later else union entry.affected_scopes later

-- `_already_invalidated`
unfoldable pub already_invalidated : Option WorkspaceSupervisor → String → List String
unfolding scopes_of_others
already_invalidated none decision_id = []
already_invalidated (some s) decision_id = scopes_of_others decision_id s.applied_interrupts

-- `hit` of one assignment
unfoldable pub is_stopped :
    List String → Option InvalidationReport → List String → SupervisorAssignment → Bool
unfolding stops_work
is_stopped affected report already a =
    stops_work a affected report already && (is_interruptible a.state || is_interrupted a.state)

-- The two sorted lists of a partition.
abbrev pub split_ids : (SupervisorAssignment → Bool) → List SupervisorAssignment → InterruptResult
split_ids hit assignments = record {
  interrupted_assignment_ids = sort_texts (assignment_ids (filter hit assignments));
  preserved_assignment_ids = sort_texts (assignment_ids (filter (λ a. not (hit a)) assignments));
}

-- `_partition`
unfoldable pub partition :
    Option WorkspaceSupervisor
    → List String
    → Option InvalidationReport
    → List String
    → InterruptResult
unfolding is_stopped
partition none affected report already = record {
  interrupted_assignment_ids = [];
  preserved_assignment_ids = [];
}
partition (some s) affected report already =
    split_ids (is_stopped affected report already) s.assignments

-- The partition of a request for a record that was read.
unfoldable pub partition_for : LiveWorkspaceRecord → InterruptRequest → InterruptResult
unfolding partition report_for already_invalidated
partition_for w request =
    partition w.supervisor request.affected_scopes
      (report_for w.invalidation_report request.decision_id)
      (already_invalidated w.supervisor request.decision_id)

-- The loop of `_provenance_for`: the first of the longest paths that meet the task.
unfoldable pub longest_path : String → List InvalidationPath → List String → List String
longest_path task_id [] selected = selected
longest_path task_id (path ∷ rest) selected =
    let taken =
      if contains path.node_ids task_id && ltb (length selected) (length path.node_ids)
      then path.node_ids
      else selected in
    longest_path task_id rest taken

abbrev pub unless_empty : List String → List String → List String
unless_empty [] fallback = fallback
unless_empty (x ∷ xs) fallback = x ∷ xs

-- `_provenance_for`
unfoldable pub provenance_for :
    SupervisorAssignment → Option InvalidationReport → List String → List String
unfolding longest_path
provenance_for a none fallback = fallback
provenance_for a (some report) fallback =
    unless_empty (longest_path a.task_id report.paths []) fallback

-- The message is shortened: the code adds both sets of scopes.
abbrev pub other_scopes : String → Error
other_scopes decision_id =
    value_error
      (append_text "decision " (append_text decision_id " was already applied with other scopes"))

-- The first entry of the decision.
unfoldable pub recorded_in :
    List AppliedInterrupt → InterruptRequest → Result (Option InterruptResult)
recorded_in [] request = ok none
recorded_in (entry ∷ rest) request =
    let later = recorded_in rest request in
    if not (entry.decision_id == request.decision_id)
    then later
    else if not (same_set entry.affected_scopes request.affected_scopes)
    then err (other_scopes request.decision_id)
    else ok (
        some (record {
          interrupted_assignment_ids = entry.interrupted_assignment_ids;
          preserved_assignment_ids = entry.preserved_assignment_ids;
        }))

-- `_recorded`
unfoldable pub recorded :
    Option WorkspaceSupervisor → InterruptRequest → Result (Option InterruptResult)
unfolding recorded_in
recorded none request = ok none
recorded (some s) request = recorded_in s.applied_interrupts request

-- The transition that stops an assignment.
unfoldable pub stop :
    InterruptRequest → Option InvalidationReport → SupervisorAssignment → Transition
unfolding provenance_for
stop request report a = record {
  state = SupervisorAssignmentState.interrupted;
  plan = none;
  plan_actions = none;
  decision_snapshot = none;
  create_replacement_run = false;
  interrupt_reason = some request.interrupt_reason;
  redirect_instruction = some request.redirect_instruction;
  provenance_path = some (provenance_for a report request.provenance_path);
  interrupt_enforced = some true;
}

-- `AppliedInterrupt(…)`
abbrev pub applied : InterruptRequest → InterruptResult → AppliedInterrupt
applied request result = record {
  decision_id = request.decision_id;
  interrupted_assignment_ids = result.interrupted_assignment_ids;
  preserved_assignment_ids = result.preserved_assignment_ids;
  affected_scopes = sort_texts request.affected_scopes;
}

module _ (runtime : SupervisorRuntimeAdapter) where
  -- An assignment as `_apply` leaves it.
  unfoldable pub stop_target :
      InterruptRequest
      → InterruptResult
      → Option InvalidationReport
      → SupervisorAssignment
      → SupervisorAssignment
  unfolding stop
  stop_target request result report a =
      if contains result.interrupted_assignment_ids a.id
      then runtime.transition a (stop request report a)
      else a

  -- The end of `_apply`, for a supervisor whose assignments and record of interrupts are changed. The
  -- message is shortened: the code adds the name of the adapter.
  unfoldable pub label : InterruptResult → WorkspaceSupervisor → Result WorkspaceSupervisor
  label result s =
      if is_empty result.interrupted_assignment_ids
      then ok s
      else if not (runtime.adapter_name == hook_runtime_name)
      then err (value_error "cannot label supervisor live: unrepresentable adapter")
      else ok (record s {
        state = SupervisorLifecycleState.interrupting;
        adapter = SupervisorAdapter.claude_code_hook_runtime;
        execution_mode = runtime.execution_mode;
      })

  -- A supervisor as `_apply` changes it.
  unfoldable pub apply_to :
      InterruptRequest
      → InterruptResult
      → Option InvalidationReport
      → WorkspaceSupervisor
      → Result WorkspaceSupervisor
  unfolding stop_target label
  apply_to request result report s = label result (record s {
    assignments = map (stop_target request result report) s.assignments;
    applied_interrupts = s.applied_interrupts ++ applied request result ∷ [];
  })

  -- `_apply`
  unfoldable pub apply :
      LiveWorkspaceRecord
      → InterruptRequest
      → InterruptResult
      → Option InvalidationReport
      → Result LiveWorkspaceRecord
  unfolding apply_to
  apply w request result report = elim w.supervisor [
    | none ↦ ok w
    | some s ↦
        and_then (apply_to request result report s)
          λ changed. ok (record w { supervisor = some changed })
  ]

  -- `interrupt`
  unfoldable pub interrupt : InterruptRequest → Exec Document InterruptResult
  unfolding get_record recorded partition_for apply put_record report_for
  interrupt request document = elim (get_record request.workspace_id document) [
    | err e ↦ (err e, document)
    | ok w ↦ elim (recorded w.supervisor request) [
      | err e ↦ (err e, document)
      | (ok (some r)) ↦ (ok r, document)
      | (ok none) ↦
          let result = partition_for w request in
          elim (apply w request result (report_for w.invalidation_report request.decision_id)) [
            | err e ↦ (err e, document)
            | ok changed ↦ (ok result, put_record changed.id changed document)
          ]
    ]
  ]

-- `preview`
unfoldable pub preview : InterruptRequest → Document → Result InterruptResult
unfolding get_record recorded partition_for
preview request document = and_then (get_record request.workspace_id document) λ w.
    elim (recorded w.supervisor request) [
      | err e ↦ err e
      | (ok (some r)) ↦ ok r
      | (ok none) ↦ ok (partition_for w request)
    ]
