-- ===== src/Enforcement/Views.antt =====
-- `SessionAssignmentState` and `registered_sessions`: the facts behind each session, which are read through the
-- gateway that the check reads through.
use writ_ai.Prelude.{
  String, Bool, true, false, not, ◌&&◌, ◌||◌, ◌==◌, ◌≡◌, refl, List, Option, none, some, arith, map,
  filter, Option-cases, inl, inr,
}
use writ_ai.Domain.Value.{Fields}
use writ_ai.Supervisor.{SupervisorAssignmentState}
use writ_ai.Supervisor.Texts.{Unicode}
use writ_ai.Workspaces.{Document}
use writ_ai.InterruptPort.{is_interrupted}
use writ_ai.Sessions.{ClaudeCodeSessionBinding}
use writ_ai.Sessions.Registry.{get_session, is_acknowledged, list_sessions}
use writ_ai.Enforcement.Gateway.{AssignmentEnforcementSnapshot, Window, get_assignment}
use writ_ai.Enforcement.Verdicts.{
  HookDenialMode, deny_assignment, deny_for_missing_assignment, interrupt_key,
}
use writ_ai.Enforcement.Denied.{allows, not-allows-validated}
use writ_ai.Enforcement.{
  ClaudePreToolUseRequest, World, check, check_assignment, check_binding, is_continuing,
  is_unresolved, require_owner, settle,
}

pub record SessionAssignmentState : Type 0 where
  pub bound : Bool
  pub assignment_missing : Bool
  pub state : Option SupervisorAssignmentState
  pub decision_snapshot : Option String
  pub current_decision_snapshot : Option String
  pub snapshot_current : Bool
  pub deny_spent : Bool

-- `SPENT_DENY_STATES`
abbrev is_spent : SupervisorAssignmentState → Bool
is_spent SupervisorAssignmentState.redirected = true
is_spent SupervisorAssignmentState.resumed = true
is_spent SupervisorAssignmentState.completed = true
is_spent _ = false

-- `SessionAssignmentState()`
abbrev unbound_state : SessionAssignmentState
unbound_state = record {
  bound = false;
  assignment_missing = false;
  state = none;
  decision_snapshot = none;
  current_decision_snapshot = none;
  snapshot_current = false;
  deny_spent = false;
}

abbrev missing_state : SessionAssignmentState
missing_state = record unbound_state { bound = true; assignment_missing = true }

-- `from_snapshot`
abbrev from_snapshot : AssignmentEnforcementSnapshot → SessionAssignmentState
from_snapshot snapshot =
    let a = snapshot.assignment in
    record {
      bound = true;
      assignment_missing = false;
      state = some a.state;
      decision_snapshot = some a.decision_snapshot;
      current_decision_snapshot = some snapshot.current_decision_snapshot;
      snapshot_current = a.decision_snapshot == snapshot.current_decision_snapshot;
      deny_spent = is_spent a.state;
    }

-- `_assignment_state`
unfoldable pub assignment_state : Document → ClaudeCodeSessionBinding → SessionAssignmentState
unfolding get_assignment
assignment_state document binding = elim binding.assignment [
  | none ↦ unbound_state
  | some locator ↦ elim (get_assignment locator document) [
    | none ↦ missing_state
    | some snapshot ↦ from_snapshot snapshot
  ]
]

pub record RegisteredSession : Type 0 where
  pub binding : ClaudeCodeSessionBinding
  pub assignment_state : SessionAssignmentState

-- `owner_id is None or binding.owner_id == owner_id`
abbrev is_listed : Option String → ClaudeCodeSessionBinding → Bool
is_listed none binding = true
is_listed (some owner_id) binding = binding.owner_id == owner_id

-- `registered_sessions`
unfoldable pub registered_sessions : Option String → World → List RegisteredSession
unfolding list_sessions assignment_state
registered_sessions owner_id world =
    map (λ b. record { binding = b; assignment_state = assignment_state world.document b })
      (filter (is_listed owner_id) (list_sessions world.registry))

-- The session is bound to an interrupted assignment.
abbrev pub is_armed : SessionAssignmentState → Bool
is_armed view = elim view.state [ none ↦ false | some s ↦ is_interrupted s ]

-- Bound to nothing, or to an assignment that was preserved or is bound to the current version.
abbrev pub may_go_on : SessionAssignmentState → Bool
may_go_on view =
    not view.bound
    || (not view.assignment_missing
        && (elim view.state [ none ↦ false | some s ↦ is_continuing s ] || view.snapshot_current))

settle_decides :
    (binding : ClaudeCodeSessionBinding) (snapshot : AssignmentEnforcementSnapshot)
    (acknowledged : Bool)
    → allows (settle binding snapshot acknowledged)
      ≡ (may_go_on (from_snapshot snapshot) || acknowledged)
unfolding settle deny_assignment
settle_decides binding snapshot acknowledged =
    let a = snapshot.assignment in
    ground (
      arith,
      not-allows-validated
          (deny_assignment binding snapshot HookDenialMode.until_acknowledged none none) refl,
    )

module _ (unicode : Unicode) (stable_hash : Fields → String) where
  -- The interrupt of the session's assignment was acknowledged.
  abbrev pub acknowledged_by : ClaudePreToolUseRequest → World → ClaudeCodeSessionBinding → Bool
  acknowledged_by request world binding = elim binding.assignment [
    | none ↦ false
    | some locator ↦ elim (get_assignment locator world.document) [
      | none ↦ false
      | some snapshot ↦
          is_acknowledged request.session_id (interrupt_key stable_hash snapshot) world.registry
    ]
  ]

  -- The check of a session of the caller whose attachment was resolved and whose assignment, if any, is
  -- not interrupted answers by the facts that are listed for the session: it allows exactly if
  -- the session is bound to nothing, or to a stored assignment that was preserved or is bound to
  -- the current version, or if the caller acknowledged.
  pub check-listed :
      (request : ClaudePreToolUseRequest) (owner_id : String) (windows : Window × Window × Window)
      (world : World) (binding : ClaudeCodeSessionBinding)
      → get_session request.session_id world.registry ≡ some binding
      → (binding.owner_id == owner_id) ≡ true
      → is_unresolved binding.source ≡ false
      → is_armed (assignment_state world.document binding) ≡ false
      → allows (check unicode stable_hash request owner_id windows world).0 ≡ (
          may_go_on (assignment_state world.document binding)
          || acknowledged_by request world binding)
  unfolding check check_binding check_assignment require_owner assignment_state
      deny_for_missing_assignment
  check-listed request owner_id windows world binding found owned resolved calm =
      elim (Option-cases binding.assignment) [
        | inl nothing ↦ ground (arith, found, owned, resolved, nothing)
        | inr (locator, bound) ↦ elim (Option-cases (get_assignment locator world.document)) [
          | inl missing ↦ ground (arith, found, owned, resolved, bound, missing)
          | inr (snapshot, stored) ↦
              let key = interrupt_key stable_hash snapshot in
              let acknowledged = is_acknowledged request.session_id key world.registry in
              let other : is_interrupted snapshot.assignment.state ≡ false =
                ground (arith, bound, stored, calm) in
              ground (
                arith,
                found,
                owned,
                resolved,
                bound,
                stored,
                other,
                settle_decides binding snapshot acknowledged,
              )
        ]
      ]
