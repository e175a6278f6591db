-- ===== src/Interrupts.antt =====
-- backend/writai/workspaces/live_interrupt.py, with the request of supervisor_contract.py. A workspace record is kept by what the port reads of
-- it, and the repository is the list of its records; the lock makes each call one step.
pub mod Replay
pub mod Partition
use writ_ai.Prelude.{
  ℕ, suc, ◌+◌, String, Bool, true, false, not, ◌&&◌, ◌||◌, ◌==◌, List, [], ◌∷◌, ◌++◌, map, Option,
  none, some, contains, inter, is_empty, filter, length, if◌then◌else◌,
}
use writ_ai.Prelude.Sorting.{sort_texts}
use writ_ai.Prelude.Decimal.{append_text, decimal}
use writ_ai.Exec.{Error, Result, ok, err, Exec, and_then, value_error, runtime_error, key_error}
use writ_ai.Domain.Value.{Value, Items, Fields, text, array, nil, cons, end, field, get, eq_value}
use writ_ai.Supervisor.{
  SupervisorAdapter, SupervisorAssignment, SupervisorAssignmentState, SupervisorExecutionMode,
  SupervisorLifecycleState, SupervisorRuntimeProvider, WorkspaceSupervisor,
}
use writ_ai.Supervisor.Texts.{Unicode}
use writ_ai.Domain.{AgentPlan, Artifact}
use writ_ai.Supervisor.Runtime.{Transition}
use writ_ai.Supervisor.Live.{live_transition}

pub record InterruptRequest : Type 0 where
  pub workspace_id : String
  pub decision_id : String
  pub affected_scopes : List String
  pub provenance_path : List String
  pub interrupt_reason : String
  pub redirect_instruction : String

pub record InterruptResult : Type 0 where
  pub interrupted_assignment_ids : List String
  pub preserved_assignment_ids : List String

pub record WorkspaceEvent : Type 0 where
  pub sequence : ℕ
  pub event_type : String
  pub detail : String
  pub payload : Fields

pub record Workspace : Type 0 where
  pub id : String
  pub supervisor : Option WorkspaceSupervisor
  pub history : List WorkspaceEvent

abbrev pub Repository : Type 0
Repository = List Workspace

-- `LiveWorkspaceRepository.get`
unfoldable pub get_workspace : String → Repository → Result Workspace
get_workspace k [] = err (key_error k)
get_workspace k (w ∷ rest) = if w.id == k then ok w else get_workspace k rest

-- `LiveWorkspaceRepository.save` of a record that is there.
unfoldable pub save_workspace : Workspace → Repository → Repository
save_workspace w [] = []
save_workspace w (v ∷ rest) = if v.id == w.id then w ∷ rest else v ∷ save_workspace w rest

abbrev pub is_live : SupervisorExecutionMode → Bool
is_live SupervisorExecutionMode.live = true
is_live SupervisorExecutionMode.simulated = false

abbrev pub is_completed : SupervisorAssignmentState → Bool
is_completed SupervisorAssignmentState.completed = true
is_completed _ = false

abbrev pub is_running : SupervisorAssignmentState → Bool
is_running SupervisorAssignmentState.running = true
is_running _ = false

-- `active`
abbrev pub is_active : SupervisorAssignment → Bool
is_active a = is_live a.execution_mode && not (is_completed a.state)

-- `bool(assignment.scopes & request.affected_scopes)`
abbrev pub is_hit : InterruptRequest → SupervisorAssignment → Bool
is_hit request a = not (is_empty (inter a.scopes request.affected_scopes))

abbrev pub assignment_ids : List SupervisorAssignment → List String
assignment_ids xs = map (λ (a : SupervisorAssignment). a.id) xs

-- `_partition`
unfoldable pub partition : List SupervisorAssignment → InterruptRequest → InterruptResult
partition assignments request = record {
  interrupted_assignment_ids =
      sort_texts (assignment_ids (filter (is_hit request) (filter is_active assignments)));
  preserved_assignment_ids =
      sort_texts
        (assignment_ids (filter (λ a. not (is_hit request a)) (filter is_active assignments)));
}

-- A JSON list of texts.
abbrev pub items_of : List String → Items
items_of [] = nil
items_of (t ∷ ts) = cons (text t) (items_of ts)

-- The texts of a JSON list of texts.
unfoldable pub texts_of : Items → Option (List String)
texts_of nil = some []
texts_of (cons (text t) rest) = elim (texts_of rest) [ none ↦ none | some ts ↦ some (t ∷ ts) ]
texts_of (cons v rest) = none

unfoldable pub texts_in : Value → Result (List String)
unfolding texts_of
texts_in (array items) = elim (texts_of items) [
  | none ↦ err (runtime_error "the persisted interrupt record is malformed")
  | some ts ↦ ok ts
]
texts_in _ = err (runtime_error "the persisted interrupt record is malformed")

abbrev pub enforced : String
enforced = "supervisor.interrupt.enforced"

-- The supervisor of a live workspace.
unfoldable pub live_supervisor : Workspace → Result WorkspaceSupervisor
live_supervisor w = elim w.supervisor [
  | none ↦ err (runtime_error "not bound")
  | some s ↦ if is_live s.execution_mode then ok s else err (runtime_error "not bound")
]

module _ (unicode : Unicode) (stable_hash : Fields → String) where
  -- `_request_fingerprint`
  unfoldable pub request_fingerprint : InterruptRequest → String
  request_fingerprint r = stable_hash (
      field "workspace_id" (text r.workspace_id) (
        field "decision_id" (text r.decision_id) (
          field "affected_scopes" (array (items_of (sort_texts r.affected_scopes))) (
            field "provenance_path" (array (items_of r.provenance_path)) (
              field "interrupt_reason" (text r.interrupt_reason)
                (field "redirect_instruction" (text r.redirect_instruction) end))))))

  -- The body of the loop over the history, `none` where it continues.
  unfoldable pub read_event : InterruptRequest → WorkspaceEvent → Result (Option InterruptResult)
  unfolding request_fingerprint texts_in
  read_event request event =
      if not (event.event_type == enforced)
        || not (eq_value (get event.payload "decision_id") (text request.decision_id))
      then ok none
      else if not
          (eq_value (get event.payload "request_fingerprint") (text (request_fingerprint request)))
      then err (value_error "the decision ID was already used for a different interrupt")
      else and_then (texts_in (get event.payload "interrupted_assignment_ids")) λ interrupted.
        and_then (texts_in (get event.payload "preserved_assignment_ids")) λ preserved. ok (
          some (record {
            interrupted_assignment_ids = interrupted;
            preserved_assignment_ids = preserved;
          }))

  -- `_completed_interrupt`: the last event that answers, or raises.
  unfoldable pub completed_interrupt :
      InterruptRequest → List WorkspaceEvent → Result (Option InterruptResult)
  unfolding read_event
  completed_interrupt request [] = ok none
  completed_interrupt request (event ∷ later) = elim (completed_interrupt request later) [
    | (ok none) ↦ read_event request event
    | (ok (some r)) ↦ ok (some r)
    | (err e) ↦ err e
  ]

  abbrev pub interrupted_by : InterruptRequest → Transition
  interrupted_by request = record {
    state = SupervisorAssignmentState.interrupted;
    plan = none;
    plan_actions = none;
    decision_snapshot = none;
    create_replacement_run = false;
    interrupt_reason = some request.interrupt_reason;
    redirect_instruction = some request.redirect_instruction;
    provenance_path = some request.provenance_path;
    interrupt_enforced = some true;
  }

  abbrev pub continuing : Transition
  continuing = record {
    state = SupervisorAssignmentState.continuing;
    plan = none;
    plan_actions = none;
    decision_snapshot = none;
    create_replacement_run = false;
    interrupt_reason = none;
    redirect_instruction = none;
    provenance_path = none;
    interrupt_enforced = none;
  }

  -- The body of `for assignment in supervisor.assignments`.
  unfoldable pub change_assignment :
      InterruptRequest → InterruptResult → SupervisorAssignment → SupervisorAssignment
  unfolding live_transition
  change_assignment request result a =
      if contains result.interrupted_assignment_ids a.id
      then live_transition unicode a (interrupted_by request)
      else if contains result.preserved_assignment_ids a.id && is_running a.state
      then live_transition unicode a continuing
      else a

  -- The event that records the interrupt.
  unfoldable pub event_of : InterruptRequest → InterruptResult → ℕ → WorkspaceEvent
  unfolding request_fingerprint
  event_of request result sequence = record {
    sequence = sequence;
    event_type = enforced;
    detail = append_text "Decision " (
        append_text request.decision_id (
          append_text " interrupted " (
            append_text (decimal (length result.interrupted_assignment_ids)) (
              append_text " live Claude Code assignments and preserved "
                (append_text (decimal (length result.preserved_assignment_ids)) ".")))));
    payload = field "decision_id" (text request.decision_id) (
        field "request_fingerprint" (text (request_fingerprint request)) (
          field "interrupted_assignment_ids" (array (items_of result.interrupted_assignment_ids)) (
            field "preserved_assignment_ids" (array (items_of result.preserved_assignment_ids))
              end)));
  }

  unfoldable pub interrupt_workspace :
      InterruptRequest → InterruptResult → WorkspaceSupervisor → Workspace → Workspace
  unfolding change_assignment event_of
  interrupt_workspace request result s w = record w {
    supervisor = some (record s {
      assignments = map (change_assignment request result) s.assignments;
      state =
          if is_empty result.interrupted_assignment_ids
          then s.state
          else SupervisorLifecycleState.interrupting;
    });
    history = w.history ++ event_of request result (length w.history + 1) ∷ [];
  }

  -- The interrupt of a workspace that was read, unless it was answered before.
  unfoldable pub enforce : InterruptRequest → Workspace → Exec Repository InterruptResult
  unfolding interrupt_workspace partition live_supervisor
  enforce request w repository = elim (live_supervisor w) [
    | err e ↦ (err e, repository)
    | ok s ↦
        let result = partition s.assignments request in
        (ok result, save_workspace (interrupt_workspace request result s w) repository)
  ]

  unfoldable pub interrupt : InterruptRequest → Exec Repository InterruptResult
  unfolding completed_interrupt enforce get_workspace
  interrupt request repository =
      if is_empty request.affected_scopes
      then (err (value_error "an interrupt must carry at least one affected scope"), repository)
      else elim (get_workspace request.workspace_id repository) [
        | err e ↦ (err e, repository)
        | ok w ↦ elim (completed_interrupt request w.history) [
          | (err e) ↦ (err e, repository)
          | (ok (some r)) ↦ (ok r, repository)
          | (ok none) ↦ enforce request w repository
        ]
      ]

  unfoldable pub preview : InterruptRequest → Repository → Result InterruptResult
  unfolding partition live_supervisor
  preview request repository =
      and_then (get_workspace request.workspace_id repository)
        λ w. and_then (live_supervisor w) λ s. ok (partition s.assignments request)
