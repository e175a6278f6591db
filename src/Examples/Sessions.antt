-- ===== src/Examples/Sessions.antt =====
-- A session of a developer that is bound to an interrupted assignment.
use writ_ai.Prelude.{false, ◌||◌, ◌≡◌, refl, ◌⊎◌, [], ◌∷◌, none, some}
use writ_ai.Exec.{ok}
use writ_ai.Supervisor.{SupervisorAssignment, SupervisorAssignmentState, WorkspaceSupervisor}
use writ_ai.Supervisor.Runtime.{transition}
use writ_ai.Sessions.{
  AssignmentLocator, AttachFileResult, ClaudeCodeSessionBinding, SupervisorAssignmentTarget,
}
use writ_ai.Sessions.Resolve.{Session, resolve_binding}
use writ_ai.Sessions.Registry.{get_session}
use writ_ai.Sessions.Binds.{Outcome, resolve_binding-Outcome}
use writ_ai.Workspaces.{LiveWorkspaceRecord}
use writ_ai.Enforcement.Gateway.{AssignmentEnforcementSnapshot, get_assignment}
use writ_ai.Enforcement.Verdicts.{ClaudeHookVerdict, HookPermissionDecision}
use writ_ai.Enforcement.{ClaudePreToolUseRequest, World, check, is_unresolved}
use writ_ai.Enforcement.Denied.{allows, Justified, check_allows-Justified}
use writ_ai.Enforcement.Views.{acknowledged_by, assignment_state, check-listed, may_go_on}
use writ_ai.Enforcement.Delivered.{quiet}
use writ_ai.Enforcement.Redirect.{GoesOn, redirect_gets_through}
use writ_ai.Examples.Live.{assignment, hash, unicode}
use writ_ai.Examples.Stores.{supervisor, workspace}

abbrev stopped : SupervisorAssignment
stopped = record (assignment "K1" ("login" ∷ [])) {
  state = SupervisorAssignmentState.interrupted;
  interrupt_reason = some "changed";
  redirect_instruction = some "stop";
}

abbrev halted : WorkspaceSupervisor
halted = record supervisor { assignments = stopped ∷ assignment "K2" ("billing" ∷ []) ∷ [] }

abbrev held : LiveWorkspaceRecord
held = record workspace { supervisor = some halted }

abbrev locator : AssignmentLocator
locator = record { workspace_id = "W"; assignment_id = "K1"; task_id = "K1" }

abbrev session : Session
session = record { session_id = "C1"; owner_id = "ann"; cwd = "/w"; branch = "fix/K1" }

abbrev target : SupervisorAssignmentTarget
target = record { workspace_id = "W"; assignment = stopped }

abbrev no_marker : AttachFileResult
no_marker = record { present = false; assignment_id = none; detail = none }

abbrev binding : ClaudeCodeSessionBinding
binding = resolve_binding session (target ∷ []) none no_marker none

resolve_binding-Outcome_example : Outcome session (target ∷ []) none no_marker none binding
resolve_binding-Outcome_example = resolve_binding-Outcome session (target ∷ []) none no_marker none

abbrev world : World
world = record {
  registry = record {
    sessions = ("C1", binding) ∷ [];
    explicit_by_cwd = [];
    acknowledged_interrupts = [];
  };
  document = held ∷ [];
}

abbrev unconfirmed : ClaudePreToolUseRequest
unconfirmed = record { session_id = "C1"; acknowledged_redirect_id = none }

abbrev confirmed : ClaudePreToolUseRequest
confirmed = record { session_id = "C1"; acknowledged_redirect_id = some "h" }

check_allows-Justified_example :
    (b : ClaudeCodeSessionBinding) × (get_session "C1" world.registry ≡ some b)
    × (b.owner_id ≡ "ann")
    × (is_unresolved b.source ≡ false)
    × ((b.assignment ≡ none)
        ⊎ ((l : AssignmentLocator) × (snapshot : AssignmentEnforcementSnapshot) × (b.assignment
              ≡ some l)
            × (get_assignment l world.document ≡ some snapshot)
            × Justified unicode hash confirmed world snapshot))
unfolding check resolve_binding transition
check_allows-Justified_example =
    check_allows-Justified unicode hash confirmed "ann" quiet world refl

redirect_gets_through_example :
    (denial : ClaudeHookVerdict) × (check unicode hash unconfirmed "ann" quiet world
      ≡ (ok denial, world.document))
    × (denial.decision ≡ HookPermissionDecision.deny)
    × GoesOn unicode hash "ann" world unconfirmed quiet (
        check unicode hash
          (record unconfirmed { acknowledged_redirect_id = denial.redirect_id })
          "ann"
          quiet
          world)
unfolding check resolve_binding
redirect_gets_through_example =
    redirect_gets_through unicode hash unconfirmed "ann" "stop" binding quiet quiet world locator
      held halted stopped none (refl, refl, refl, refl) (refl, refl, refl, refl, refl) refl refl
      refl

abbrev running : World
running = record world { document = workspace ∷ [] }

check-listed_example : allows (check unicode hash unconfirmed "ann" quiet running).0 ≡ (
    may_go_on (assignment_state running.document binding)
    || acknowledged_by unicode hash unconfirmed running binding)
unfolding resolve_binding assignment_state get_session
check-listed_example =
    check-listed unicode hash unconfirmed "ann" quiet running binding refl refl refl refl
