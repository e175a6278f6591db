-- ===== src/Enforcement/Verdicts.antt =====
-- The verdicts that the check gives.
use writ_ai.Prelude.{
  ℕ, zero, suc, String, ◌==◌, List, [], ◌∷◌, Option, none, some, map, if◌then◌else◌,
}
use writ_ai.Prelude.Decimal.{append_text}
use writ_ai.Exec.{Result, ok, err, validation_error}
use writ_ai.Domain.Value.{Fields, Value, null, text, array, end, field}
use writ_ai.Supervisor.Actions.{normalize}
use writ_ai.Interrupts.{items_of}
use writ_ai.Sessions.{AssignmentLocator, ClaudeCodeSessionBinding, SessionBindingSource}
use writ_ai.Enforcement.Gateway.{AssignmentEnforcementSnapshot, bounded}

pub data HookPermissionDecision : Type 0 where
  allow deny : HookPermissionDecision

pub data HookDenialMode : Type 0 where
  once until_acknowledged until_registered : HookDenialMode

pub record ClaudeHookVerdict : Type 0 where
  pub decision : HookPermissionDecision
  pub reason : String
  pub workspace_id : Option String
  pub assignment_id : Option String
  pub task_id : Option String
  pub binding_source : Option SessionBindingSource
  pub denial_mode : Option HookDenialMode
  pub redirect_instruction : Option String
  pub provenance_path : List String
  pub evidence_ref : Option String
  pub redirect_id : Option String

-- `ClaudeHookVerdict(…)`: a reason is at least one character.
abbrev pub validated : ClaudeHookVerdict → Result ClaudeHookVerdict
validated verdict = if verdict.reason == "" then err validation_error else ok verdict

-- A verdict on a session as such.
abbrev pub on_session :
    HookPermissionDecision
    → Option HookDenialMode
    → Option SessionBindingSource
    → String
    → ClaudeHookVerdict
on_session decision mode source reason = record {
  decision = decision;
  reason = reason;
  workspace_id = none;
  assignment_id = none;
  task_id = none;
  binding_source = source;
  denial_mode = mode;
  redirect_instruction = none;
  provenance_path = [];
  evidence_ref = none;
  redirect_id = none;
}

abbrev pub unregistered : ClaudeHookVerdict
unregistered =
    on_session HookPermissionDecision.deny (some HookDenialMode.until_registered) none
      "writ.ai has no registered lifecycle record for this Claude Code session."

unfoldable pub deny_unresolved : ClaudeCodeSessionBinding → ClaudeHookVerdict
unfolding bounded
deny_unresolved binding =
    on_session HookPermissionDecision.deny (some HookDenialMode.until_registered)
      (some binding.source)
      (append_text "writ.ai cannot resolve this session's explicit attachment: "
        (bounded binding.detail 200))

abbrev pub allow_unbound : ClaudeCodeSessionBinding → ClaudeHookVerdict
allow_unbound binding =
    on_session HookPermissionDecision.allow none (some binding.source)
      "writ.ai session is registered but visibly unbound; no assignment enforcement was inferred."

-- `_deny_for_missing_assignment`
unfoldable pub deny_for_missing_assignment :
    ClaudeCodeSessionBinding → AssignmentLocator → ClaudeHookVerdict
deny_for_missing_assignment binding locator =
    record (on_session HookPermissionDecision.deny (some HookDenialMode.until_acknowledged)
      (some binding.source)
      "writ.ai session binding is stale because its assignment is no longer present.") {
        workspace_id = some locator.workspace_id;
        assignment_id = some locator.assignment_id;
        task_id = some locator.task_id;
      }

-- A verdict that allows the work on an assignment.
abbrev pub allow_on :
    ClaudeCodeSessionBinding → AssignmentEnforcementSnapshot → String → ClaudeHookVerdict
allow_on binding snapshot reason =
    record (on_session HookPermissionDecision.allow none (some binding.source) reason) {
      workspace_id = some snapshot.locator.workspace_id;
      assignment_id = some snapshot.assignment.id;
      task_id = some snapshot.assignment.task_id;
    }

-- `_allow_acknowledged`
abbrev pub allow_acknowledged :
    ClaudeCodeSessionBinding → AssignmentEnforcementSnapshot → ClaudeHookVerdict
allow_acknowledged binding snapshot =
    allow_on binding snapshot
      "A human acknowledged this persistent session interrupt; the PR verification gate remains the compliance backstop."

abbrev pub allow_preserved :
    ClaudeCodeSessionBinding → AssignmentEnforcementSnapshot → ClaudeHookVerdict
allow_preserved binding snapshot =
    allow_on binding snapshot
      "writ.ai preserved this assignment because its task scopes do not intersect the approved change."

abbrev pub allow_current :
    ClaudeCodeSessionBinding → AssignmentEnforcementSnapshot → ClaudeHookVerdict
allow_current binding snapshot =
    allow_on binding snapshot "writ.ai assignment is bound to the current decision snapshot."

-- `x or default` for a text that may be missing
abbrev pub or_default : Option String → String → String
or_default none default = default
or_default (some t) default = if t == "" then default else t

-- `items[:n]`
unfoldable pub take_first : ℕ → List String → List String
take_first zero xs = []
take_first (suc n) [] = []
take_first (suc n) (x ∷ xs) = x ∷ take_first n xs

-- A text that may be missing, bounded.
abbrev pub bounded_option : Option String → ℕ → Option String
unfolding bounded
bounded_option none limit = none
bounded_option (some t) limit = some (bounded t limit)

-- `_deny_assignment`
unfoldable pub deny_assignment :
    ClaudeCodeSessionBinding
    → AssignmentEnforcementSnapshot
    → HookDenialMode
    → Option String
    → Option String
    → ClaudeHookVerdict
unfolding bounded take_first
deny_assignment binding snapshot mode redirect_instruction redirect_id =
    let a = snapshot.assignment in
    let reason =
      or_default a.interrupt_reason
        "The assignment is not bound to the current approved decision snapshot." in
    record {
      decision = HookPermissionDecision.deny;
      reason = bounded reason 1000;
      workspace_id = some snapshot.locator.workspace_id;
      assignment_id = some a.id;
      task_id = some a.task_id;
      binding_source = some binding.source;
      denial_mode = some mode;
      redirect_instruction = bounded_option redirect_instruction 8000;
      provenance_path = map (λ item. bounded item 255) (take_first 100 a.provenance_path);
      evidence_ref = elim snapshot.evidence_ref [
        | some ref ↦ some (bounded ref 1000)
        | none ↦ some (
            append_text "writai://workspaces/"
              (append_text snapshot.locator.workspace_id (append_text "/assignments/" a.id)))
      ];
      redirect_id = redirect_id;
    }

-- `_clean_optional`
unfoldable pub clean_optional : Option String → Option String
unfolding normalize
clean_optional none = none
clean_optional (some value) = if normalize value == "" then none else some (normalize value)

-- A text or `None` as JSON.
abbrev pub value_of : Option String → Value
value_of none = null
value_of (some t) = text t

-- `_interrupt_key`
unfoldable pub interrupt_key : (Fields → String) → AssignmentEnforcementSnapshot → String
interrupt_key stable_hash snapshot =
    let a = snapshot.assignment in
    stable_hash (
      field "workspace_id" (text snapshot.locator.workspace_id) (
        field "assignment_id" (text a.id) (
          field "run_id" (text a.run_id) (
            field "current_decision_snapshot" (text snapshot.current_decision_snapshot) (
              field "interrupt_reason" (value_of a.interrupt_reason) (
                field "redirect_instruction" (value_of a.redirect_instruction)
                  (field "provenance_path" (array (items_of a.provenance_path)) end)))))))
