-- ===== src/InterruptPort/Affected.antt =====
-- Which assignments an approved change has to stop.
use writ_ai.Prelude.{
  String, Bool, not, ◌&&◌, ◌||◌, ◌==◌, ◌≡◌, refl, ap, ◌∙◌, List, [], ◌∷◌, Option, none, some,
  contains, contains-union, all, any, is_empty, fun_ext, arith, Bool-cases, inl, inr, if◌then◌else◌,
}
use writ_ai.Domain.{InvalidationReport}
use writ_ai.Supervisor.{AppliedInterrupt, SupervisorAssignment, WorkspaceSupervisor}
use writ_ai.Interrupts.{InterruptRequest}
use writ_ai.Workspaces.{LiveWorkspaceRecord}
use writ_ai.InterruptPort.{
  already_invalidated, is_interrupted, is_interruptible, is_stopped, report_for, scopes_of_others,
  stops_work,
}

-- An applied interrupt of another decision affected the scope.
abbrev pub was_affected : String → WorkspaceSupervisor → String → Bool
was_affected decision_id s x =
    any
      (λ (entry : AppliedInterrupt).
        not (entry.decision_id == decision_id) && contains entry.affected_scopes x)
      s.applied_interrupts

-- The assignment has a scope, and each of its scopes is affected now or was before.
abbrev pub is_covered : InterruptRequest → WorkspaceSupervisor → SupervisorAssignment → Bool
is_covered request s a =
    not (is_empty a.scopes)
    && all (λ x. contains request.affected_scopes x || was_affected request.decision_id s x)
        a.scopes

-- The report on this decision lists the task, or there is none and the assignment is covered.
abbrev pub is_affected :
    Option InvalidationReport → InterruptRequest → WorkspaceSupervisor → SupervisorAssignment → Bool
is_affected none request s a = is_covered request s a
is_affected (some report) request s a =
    if report.changed_decision_id == request.decision_id
    then contains report.invalidated_task_ids a.task_id
    else is_covered request s a

-- A running, continuing or stopped assignment that is affected.
abbrev pub has_to_stop :
    LiveWorkspaceRecord → WorkspaceSupervisor → InterruptRequest → SupervisorAssignment → Bool
has_to_stop w s request a =
    is_affected w.invalidation_report request s a
    && (is_interruptible a.state || is_interrupted a.state)

contains-scopes_of_others :
    (decision_id x : String) (entries : List AppliedInterrupt)
    → contains (scopes_of_others decision_id entries) x
      ≡ any
          (λ (entry : AppliedInterrupt).
            not (entry.decision_id == decision_id) && contains entry.affected_scopes x)
          entries
unfolding scopes_of_others
contains-scopes_of_others decision_id x [] = refl
contains-scopes_of_others decision_id x (entry ∷ rest) = ground (
  arith,
  contains-scopes_of_others decision_id x rest,
  contains-union entry.affected_scopes (scopes_of_others decision_id rest) x,
)

covered :
    (request : InterruptRequest) (s : WorkspaceSupervisor) (a : SupervisorAssignment)
    → stops_work a request.affected_scopes none (already_invalidated (some s) request.decision_id)
      ≡ is_covered request s a
unfolding stops_work already_invalidated
covered request s a =
    let before = scopes_of_others request.decision_id s.applied_interrupts in
    ap (λ (p : String → Bool). not (is_empty a.scopes) && all p a.scopes)
      (fun_ext (λ x.
        contains-union request.affected_scopes before x
        ∙ ap (λ b. contains request.affected_scopes x || b)
            (contains-scopes_of_others request.decision_id x s.applied_interrupts)))

affected :
    (report : Option InvalidationReport) (request : InterruptRequest) (s : WorkspaceSupervisor)
    (a : SupervisorAssignment)
    → stops_work a request.affected_scopes
        (report_for report request.decision_id)
        (already_invalidated (some s) request.decision_id)
      ≡ is_affected report request s a
unfolding report_for stops_work
affected none request s a = covered request s a
affected (some report) request s a =
    elim (Bool-cases (report.changed_decision_id == request.decision_id)) [
      | inl here ↦ ground (arith, here)
      | inr other ↦ ground (arith, other, covered request s a)
    ]

-- The code stops an assignment exactly if it has to stop.
pub is_stopped-has_to_stop :
    (w : LiveWorkspaceRecord) (s : WorkspaceSupervisor) (request : InterruptRequest)
    (a : SupervisorAssignment)
    → w.supervisor ≡ some s
    → is_stopped request.affected_scopes
        (report_for w.invalidation_report request.decision_id)
        (already_invalidated w.supervisor request.decision_id)
        a
      ≡ has_to_stop w s request a
unfolding is_stopped
is_stopped-has_to_stop w s request a there =
    ground (arith, there, affected w.invalidation_report request s a)
