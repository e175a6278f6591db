-- ===== src/Enforcement/Gateway.antt =====
-- `RepositorySupervisorAssignmentGateway`: the assignments of the stored workspaces, by their locator.
-- The greatest lengths of the texts of a snapshot are not checked, and the texts come stripped.
use Prim.Native.String.{count}
use writ_ai.Prelude.{
  ℕ, ◌-◌, String, Bool, true, false, not, ◌&&◌, ◌||◌, ◌==◌, List, [], ◌∷◌, ◌++◌, Option, none, some,
  filter, ltb, map, if◌then◌else◌,
}
use writ_ai.Prelude.Sorting.{sort_by}
use writ_ai.Prelude.Decimal.{append_text}
use writ_ai.Exec.{Result, ok, err}
use writ_ai.Domain.{InvalidationReport}
use writ_ai.Supervisor.{
  SupervisorAssignment, SupervisorAssignmentState, SupervisorLifecycleState,
  SupervisorRuntimeProvider, WorkspaceSupervisor,
}
use writ_ai.Supervisor.Texts.{Unicode, strip_right, take_text}
use writ_ai.Supervisor.Actions.{normalize}
use writ_ai.Supervisor.Runtime.{Transition}
use writ_ai.Supervisor.Live.{live_transition}
use writ_ai.Supervisor.Equality.{eq_assignment}
use writ_ai.Interrupts.{is_completed, is_live}
use writ_ai.Workspaces.{LiveWorkspaceRecord, Document, get_record, list_records, mutate_record}
use writ_ai.InterruptPort.{is_interrupted}
use writ_ai.Sessions.{AssignmentLocator, SupervisorAssignmentTarget}
use writ_ai.Sessions.Registry.{key_le}

-- `_bounded`
unfoldable pub bounded : String → ℕ → String
unfolding normalize strip_right take_text
bounded value limit =
    let normalized = normalize value in
    if ltb limit (count normalized)
    then append_text (strip_right (take_text (limit - 3) normalized)) "..."
    else normalized

pub record AssignmentEnforcementSnapshot : Type 0 where
  pub locator : AssignmentLocator
  pub assignment : SupervisorAssignment
  pub current_decision_snapshot : String
  pub evidence_ref : Option String

-- `next(iter(…), None)` of the report's evidence, bounded
unfoldable pub evidence_of : Option InvalidationReport → Option String
unfolding bounded
evidence_of none = none
evidence_of (some report) = elim report.evidence_refs [
  | [] ↦ none
  | ref ∷ rest ↦ some (bounded ref 1000)
]

-- `_snapshot`
unfoldable pub snapshot_of :
    LiveWorkspaceRecord → AssignmentLocator → SupervisorAssignment → AssignmentEnforcementSnapshot
unfolding evidence_of
snapshot_of w locator a = record {
  locator = locator;
  assignment = a;
  current_decision_snapshot = w.graph_version;
  evidence_ref = evidence_of w.invalidation_report;
}

abbrev pub is_live_provider : SupervisorRuntimeProvider → Bool
is_live_provider SupervisorRuntimeProvider.codex = false
is_live_provider _ = true

-- The assignments of a record that a session can be bound to.
unfoldable pub live_targets : LiveWorkspaceRecord → List SupervisorAssignmentTarget
live_targets w = elim w.supervisor [
  | none ↦ []
  | some s ↦
      if is_live s.execution_mode
      then map (λ a. record { workspace_id = w.id; assignment = a })
          (filter
            (λ (a : SupervisorAssignment).
              is_live a.execution_mode
              && is_live_provider a.runtime_provider
              && not (is_completed a.state))
            s.assignments)
      else []
]

unfoldable pub targets_of : List LiveWorkspaceRecord → List SupervisorAssignmentTarget
unfolding live_targets
targets_of [] = []
targets_of (w ∷ ws) = live_targets w ++ targets_of ws

-- `list_live_claude_assignments`
unfoldable pub list_live_claude_assignments : Document → List SupervisorAssignmentTarget
unfolding targets_of list_records sort_by
list_live_claude_assignments document = sort_by key_le (targets_of (list_records document))

-- The assignment that a locator names, if it is live.
abbrev pub is_located : AssignmentLocator → SupervisorAssignment → Bool
is_located locator a =
    (a.id == locator.assignment_id) && (a.task_id == locator.task_id) && is_live a.execution_mode

unfoldable pub find_assignment :
    AssignmentLocator → List SupervisorAssignment → Option SupervisorAssignment
find_assignment locator [] = none
find_assignment locator (a ∷ rest) =
    let later = find_assignment locator rest in if is_located locator a then some a else later

-- `_live_assignment_index`, as the assignment under the index
unfoldable pub live_assignment :
    AssignmentLocator → Option WorkspaceSupervisor → Option SupervisorAssignment
unfolding find_assignment
live_assignment locator none = none
live_assignment locator (some s) =
    if is_live s.execution_mode then find_assignment locator s.assignments else none

-- The snapshot of the located assignment in a record, if there is one.
unfoldable pub located_in :
    AssignmentLocator → Option LiveWorkspaceRecord → Option AssignmentEnforcementSnapshot
unfolding live_assignment snapshot_of
located_in locator none = none
located_in locator (some w) = elim (live_assignment locator w.supervisor) [
  | none ↦ none
  | some a ↦ some (snapshot_of w locator a)
]

-- `get`
unfoldable pub get_assignment : AssignmentLocator → Document → Option AssignmentEnforcementSnapshot
unfolding get_record located_in
get_assignment locator document = elim (get_record locator.workspace_id document) [
  | err e ↦ none
  | ok w ↦ located_in locator (some w)
]

-- `_awaits_redirect`
abbrev pub awaits_redirect : SupervisorAssignment → String → Bool
awaits_redirect a expected_run_id = (a.run_id == expected_run_id) && is_interrupted a.state

-- `supervisor.assignments[index] = transitioned`
unfoldable pub put_assignment :
    AssignmentLocator → SupervisorAssignment → List SupervisorAssignment → List SupervisorAssignment
put_assignment locator new [] = []
put_assignment locator new (a ∷ rest) =
    let later = put_assignment locator new rest in
    if is_located locator a then new ∷ rest else a ∷ later

-- `_apply_redirect_delivery`: nothing, if the assignment or the version moved.
unfoldable pub apply_redirect_delivery :
    AssignmentLocator
    → SupervisorAssignment
    → String
    → SupervisorAssignment
    → LiveWorkspaceRecord
    → LiveWorkspaceRecord
unfolding live_assignment put_assignment eq_assignment
apply_redirect_delivery locator read version transitioned w = elim w.supervisor [
  | none ↦ w
  | some s ↦ elim (live_assignment locator (some s)) [
    | none ↦ w
    | some a ↦
        if not (eq_assignment a read) || not (w.graph_version == version) then w else record w {
          supervisor = some (record s {
            assignments = put_assignment locator transitioned s.assignments;
            state = SupervisorLifecycleState.redirecting;
          });
        }
  ]
]

abbrev pub redirected_at : String → Transition
redirected_at version = record {
  state = SupervisorAssignmentState.redirected;
  plan = none;
  plan_actions = none;
  decision_snapshot = some version;
  create_replacement_run = false;
  interrupt_reason = none;
  redirect_instruction = none;
  provenance_path = none;
  interrupt_enforced = none;
}

-- What another writer does to the store between the read and the write of an attempt.
abbrev pub Window : Type 0
Window = Document → Document

abbrev pub is_awaiting : Option AssignmentEnforcementSnapshot → String → Bool
is_awaiting none expected_run_id = false
is_awaiting (some snapshot) expected_run_id = awaits_redirect snapshot.assignment expected_run_id

-- The located assignment in the record that a mutation wrote.
abbrev pub written_at :
    AssignmentLocator
    → Result (Option LiveWorkspaceRecord) × Document
    → Result (Option AssignmentEnforcementSnapshot) × Document
unfolding located_in
written_at locator (err e, after) = (err e, after)
written_at locator (ok written, after) = (ok (located_in locator written), after)

module _ (unicode : Unicode) where
  -- The write of `_deliver_redirect_once`, on the store as it is then. A workspace that has gone raises.
  unfoldable pub write_redirect :
      AssignmentLocator
      → SupervisorAssignment
      → String
      → Document
      → Result (Option AssignmentEnforcementSnapshot) × Document
  unfolding mutate_record apply_redirect_delivery live_transition located_in
  write_redirect locator read version document =
      let transitioned = live_transition unicode read (redirected_at version) in
      written_at locator (
        mutate_record locator.workspace_id
          (λ w. ok (apply_redirect_delivery locator read version transitioned w)) document)

  -- `_deliver_redirect_once`
  unfoldable pub deliver_redirect_once :
      AssignmentLocator
      → String
      → Window
      → Document
      → Result (Option AssignmentEnforcementSnapshot) × Document
  unfolding write_redirect get_record live_assignment snapshot_of
  deliver_redirect_once locator expected_run_id window document =
      elim (get_record locator.workspace_id document) [
        | err e ↦ (ok none, document)
        | ok w ↦ elim (live_assignment locator w.supervisor) [
          | none ↦ (ok none, document)
          | some a ↦
              if awaits_redirect a expected_run_id
              then write_redirect locator a w.graph_version (window document)
              else (ok (some (snapshot_of w locator a)), document)
        ]
      ]

  -- The attempts that are left, one for each window.
  unfoldable pub attempts :
      AssignmentLocator
      → String
      → List Window
      → Option AssignmentEnforcementSnapshot
      → Document
      → Result (Option AssignmentEnforcementSnapshot) × Document
  unfolding deliver_redirect_once
  attempts locator expected_run_id [] last document = (ok last, document)
  attempts locator expected_run_id (window ∷ windows) last document =
      let (answer, after) = deliver_redirect_once locator expected_run_id window document in
      elim answer [
        | err e ↦ (err e, after)
        | ok snapshot ↦ elim (is_awaiting snapshot expected_run_id) [
          | true ↦ attempts locator expected_run_id windows snapshot after
          | false ↦ (ok snapshot, after)
        ]
      ]

  -- `mark_redirect_delivered`, with the three windows of its attempts
  unfoldable pub mark_redirect_delivered :
      AssignmentLocator
      → String
      → Window × Window × Window
      → Document
      → Result (Option AssignmentEnforcementSnapshot) × Document
  unfolding attempts
  mark_redirect_delivered locator expected_run_id (first, second, third) =
      attempts locator expected_run_id (first ∷ second ∷ third ∷ []) none
