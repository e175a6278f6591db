-- ===== src/Enforcement.antt =====
-- backend/writai/workspaces/session_enforcement.py: the check that a hook makes before a tool runs. The
-- gateway to the stored assignments is in Gateway, the check and the other calls are here. The HTTP
-- error of a wrong owner is a permission error, and a verdict is validated in its reason only.
pub mod Gateway
pub mod Verdicts
pub mod Denied
pub mod Delivered
pub mod Redirect
pub mod Views
use writ_ai.Prelude.{
  ℕ, String, Bool, true, false, not, ◌==◌, List, [], ◌∷◌, Option, none, some, if◌then◌else◌, map,
  filter,
}
use writ_ai.Exec.{Error, Result, ok, err, Exec, permission_error, key_error}
use writ_ai.Domain.Value.{Fields}
use writ_ai.Supervisor.{SupervisorAssignment, SupervisorAssignmentState}
use writ_ai.Supervisor.Texts.{Unicode}
use writ_ai.Workspaces.{Document}
use writ_ai.InterruptPort.{is_interrupted}
use writ_ai.Sessions.{AssignmentLocator, ClaudeCodeSessionBinding, SessionBindingSource}
use writ_ai.Sessions.Markers.{Found}
use writ_ai.Sessions.Resolve.{Session}
use writ_ai.Sessions.Registry.{
  Registry, acknowledge, get_session, is_acknowledged, list_sessions, register, release,
}
use writ_ai.Enforcement.Gateway.{
  AssignmentEnforcementSnapshot, Window, get_assignment, list_live_claude_assignments,
  mark_redirect_delivered,
}
use writ_ai.Enforcement.Verdicts.{
  ClaudeHookVerdict, HookDenialMode, allow_acknowledged, allow_current, allow_preserved,
  allow_unbound, clean_optional, deny_assignment, deny_for_missing_assignment, deny_unresolved,
  interrupt_key, unregistered, validated,
}

-- The session registry and the workspace store.
pub record World : Type 0 where
  pub registry : Registry
  pub document : Document

-- `ClaudePreToolUseRequest`, less the name of the tool and the time, which the check does not read.
pub record ClaudePreToolUseRequest : Type 0 where
  pub session_id : String
  pub acknowledged_redirect_id : Option String

-- `_require_owner`
unfoldable pub require_owner : ClaudeCodeSessionBinding → String → Result ClaudeCodeSessionBinding
require_owner binding owner_id =
    if binding.owner_id == owner_id
    then ok binding
    else err (permission_error "This session belongs to another developer.")

abbrev pub is_unresolved : SessionBindingSource → Bool
is_unresolved SessionBindingSource.unresolved_attachment = true
is_unresolved _ = false

abbrev pub is_continuing : SupervisorAssignmentState → Bool
is_continuing SupervisorAssignmentState.continuing = true
is_continuing _ = false

-- `acknowledged_redirect_id == interrupt_key`
abbrev pub is_confirmed : Option String → String → Bool
is_confirmed none key = false
is_confirmed (some id) key = id == key

-- The end of the check, on the state that the assignment is in by then.
unfoldable pub settle :
    ClaudeCodeSessionBinding → AssignmentEnforcementSnapshot → Bool → Result ClaudeHookVerdict
unfolding deny_assignment
settle binding snapshot acknowledged =
    if is_continuing snapshot.assignment.state
    then ok (allow_preserved binding snapshot)
    else if not (snapshot.assignment.decision_snapshot == snapshot.current_decision_snapshot)
    then (if acknowledged
        then ok (allow_acknowledged binding snapshot)
        else validated
            (deny_assignment binding snapshot HookDenialMode.until_acknowledged none none))
    else ok (allow_current binding snapshot)

module _ (unicode : Unicode) (stable_hash : Fields → String) where
  -- The check after the confirmed delivery of a redirect.
  unfoldable pub settle_delivered :
      ClaudeCodeSessionBinding
      → AssignmentLocator
      → Bool
      → Result (Option AssignmentEnforcementSnapshot)
      → Result ClaudeHookVerdict
  unfolding settle deny_for_missing_assignment
  settle_delivered binding locator acknowledged (err e) = err e
  settle_delivered binding locator acknowledged (ok none) =
      ok (deny_for_missing_assignment binding locator)
  settle_delivered binding locator acknowledged (ok (some snapshot)) =
      settle binding snapshot acknowledged

  -- The check of an interrupted assignment, by its instruction.
  unfoldable pub check_interrupted :
      ClaudeCodeSessionBinding
      → AssignmentEnforcementSnapshot
      → Option String
      → Option String
      → Bool
      → Window × Window × Window
      → Document
      → Result ClaudeHookVerdict × Document
  unfolding deny_assignment interrupt_key mark_redirect_delivered settle_delivered
  check_interrupted binding snapshot none confirmed acknowledged windows document =
      if acknowledged then (ok (allow_acknowledged binding snapshot), document) else (
        validated (deny_assignment binding snapshot HookDenialMode.until_acknowledged none none),
        document,
      )
  check_interrupted binding snapshot (some instruction) confirmed acknowledged windows document =
      let key = interrupt_key stable_hash snapshot in
      if is_confirmed confirmed key
      then (let (delivered, after) =
            mark_redirect_delivered unicode snapshot.locator snapshot.assignment.run_id windows
              document in
          (settle_delivered binding snapshot.locator acknowledged delivered, after))
      else (
        validated (
            deny_assignment binding snapshot HookDenialMode.until_acknowledged (some instruction)
              (some key)),
        document,
      )

  -- The check of a session that is bound to an assignment.
  unfoldable pub check_assignment :
      ClaudePreToolUseRequest
      → ClaudeCodeSessionBinding
      → AssignmentLocator
      → Window × Window × Window
      → World
      → Result ClaudeHookVerdict × Document
  unfolding get_assignment deny_for_missing_assignment interrupt_key is_acknowledged
      check_interrupted clean_optional settle
  check_assignment request binding locator windows world =
      elim (get_assignment locator world.document) [
        | none ↦ (ok (deny_for_missing_assignment binding locator), world.document)
        | some snapshot ↦
            let acknowledged =
              is_acknowledged request.session_id (interrupt_key stable_hash snapshot)
                world.registry in
            if is_interrupted snapshot.assignment.state
            then check_interrupted binding snapshot
                (clean_optional snapshot.assignment.redirect_instruction)
                request.acknowledged_redirect_id acknowledged windows world.document
            else (settle binding snapshot acknowledged, world.document)
      ]

  -- The check of a session of this owner.
  unfoldable pub check_binding :
      ClaudePreToolUseRequest
      → ClaudeCodeSessionBinding
      → Window × Window × Window
      → World
      → Result ClaudeHookVerdict × Document
  unfolding deny_unresolved check_assignment
  check_binding request binding windows world =
      if is_unresolved binding.source
      then (ok (deny_unresolved binding), world.document)
      else elim binding.assignment [
        | none ↦ (ok (allow_unbound binding), world.document)
        | some locator ↦ check_assignment request binding locator windows world
      ]

  -- `check`: the verdict, and the store behind it.
  unfoldable pub check :
      ClaudePreToolUseRequest
      → String
      → Window × Window × Window
      → World
      → Result ClaudeHookVerdict × Document
  unfolding get_session require_owner check_binding
  check request owner_id windows world = elim (get_session request.session_id world.registry) [
    | none ↦ (ok unregistered, world.document)
    | some binding ↦ elim (require_owner binding owner_id) [
      | err e ↦ (err e, world.document)
      | ok owned ↦ check_binding request owned windows world
    ]
  ]

  -- The key of the assignment that a session of this owner is bound to.
  unfoldable pub key_to_acknowledge : String → String → World → Result String
  unfolding get_session require_owner get_assignment interrupt_key
  key_to_acknowledge session_id owner_id world = elim (get_session session_id world.registry) [
    | none ↦ err (key_error session_id)
    | some binding ↦ elim (require_owner binding owner_id) [
      | err e ↦ err e
      | ok owned ↦ elim owned.assignment [
        | none ↦ err (key_error session_id)
        | some locator ↦ elim (get_assignment locator world.document) [
          | none ↦ err (key_error session_id)
          | some snapshot ↦ ok (interrupt_key stable_hash snapshot)
        ]
      ]
    ]
  ]

  -- `acknowledge` of the service
  unfoldable pub acknowledge_interrupt : String → String → Exec World String
  unfolding key_to_acknowledge acknowledge
  acknowledge_interrupt session_id owner_id world =
      elim (key_to_acknowledge session_id owner_id world) [
        | err e ↦ (err e, world)
        | ok key ↦ elim (acknowledge session_id key world.registry) [
          | err e ↦ (err e, world)
          | ok registry ↦ (ok key, record world { registry = registry })
        ]
      ]

-- `start`
unfoldable pub start : Session → Found → Found → Exec World ClaudeCodeSessionBinding
unfolding register list_live_claude_assignments
start s attach_file task_file world =
    let (answer, registry) =
      register s (list_live_claude_assignments world.document) attach_file task_file
        world.registry in
    (answer, record world { registry = registry })

-- `end`
unfoldable pub end_session : String → String → Exec World Bool
unfolding get_session require_owner release
end_session session_id owner_id world =
    let (released, registry) = release session_id world.registry in
    let ended : Result Bool × World = (ok released, record world { registry = registry }) in
    elim (get_session session_id world.registry) [
      | none ↦ ended
      | some binding ↦ elim (require_owner binding owner_id) [
        | err e ↦ (err e, world)
        | ok owned ↦ ended
      ]
    ]
