-- ===== src/Examples/Ports.antt =====
-- A workspace whose work is interrupted through the port.
use writ_ai.Prelude.{Each, true, ◌==◌, ◌≡◌, refl, ◌⊎◌, [], ◌∷◌, map, none, some, if◌then◌else◌}
use writ_ai.Prelude.Sorting.{insert_sorted, sort_by}
use writ_ai.Exec.{ok, err}
use writ_ai.Supervisor.{SupervisorAssignment, SupervisorLifecycleState, WorkspaceSupervisor}
use writ_ai.Interrupts.{InterruptRequest, InterruptResult}
use writ_ai.Workspaces.{Document, LiveWorkspaceRecord, get_record, put_record}
use writ_ai.InterruptPort.{claude_code_runtime, fixture_runtime, interrupt, other_scopes, preview}
use writ_ai.InterruptPort.Replay.{interrupt_refuses_other_scopes}
use writ_ai.InterruptPort.Later.{interrupt_repeats_later, interrupts, now, writes}
use writ_ai.InterruptPort.Preview.{preview_agrees}
use writ_ai.InterruptPort.Paths.{IsOwnPath}
use writ_ai.InterruptPort.Affected.{has_to_stop}
use writ_ai.InterruptPort.Stopped.{interrupt-stops_exactly, stopped}
use writ_ai.Examples.Live.{both, request, unicode}
use writ_ai.Examples.Stores.{supervisor, workspace}

abbrev document : Document
document = workspace ∷ []

abbrev one_each : InterruptResult
one_each = record { interrupted_assignment_ids = "K1" ∷ []; preserved_assignment_ids = "K2" ∷ [] }

abbrev after : Document
after = (interrupt (claude_code_runtime unicode) request document).1

abbrev stored : LiveWorkspaceRecord
stored = elim after [ [] ↦ workspace | w ∷ ws ↦ w ]

first_answer : interrupt (claude_code_runtime unicode) request document ≡ (ok one_each, after)
unfolding interrupt sort_by insert_sorted
first_answer = refl

preview_agrees_example :
    preview request document ≡ (interrupt (claude_code_runtime unicode) request document).0
preview_agrees_example = preview_agrees (claude_code_runtime unicode) refl request document

abbrev wider : InterruptRequest
wider = record request { affected_scopes = "login" ∷ "billing" ∷ [] }

abbrev interrupted : WorkspaceSupervisor
interrupted = elim stored.supervisor [ none ↦ supervisor | some s ↦ s ]

abbrev redirected : LiveWorkspaceRecord
redirected = record stored {
  supervisor =
      some (record interrupted { assignments = []; state = SupervisorLifecycleState.resumed });
}

-- Everything was resumed, and then another decision was applied.
abbrev other_decision : InterruptRequest
other_decision = record request { decision_id = "D3" }

abbrev much_later : Document
much_later =
    (interrupt (claude_code_runtime unicode) other_decision (put_record "W" redirected after)).1

interrupt_repeats_later_example :
    interrupt (fixture_runtime unicode) request much_later ≡ (ok one_each, much_later)
unfolding interrupt sort_by insert_sorted get_record
interrupt_repeats_later_example =
    interrupt_repeats_later (claude_code_runtime unicode) (fixture_runtime unicode) request document
      after much_later one_each stored interrupted first_answer refl refl
      (interrupts (claude_code_runtime unicode) other_decision
        (writes stored redirected refl refl now))

interrupt_refuses_other_scopes_example :
    interrupt (claude_code_runtime unicode) wider after ≡ (err (other_scopes "D2"), after)
unfolding interrupt sort_by insert_sorted
interrupt_refuses_other_scopes_example =
    interrupt_refuses_other_scopes (claude_code_runtime unicode) request wider document after
      one_each stored interrupted first_answer refl refl refl refl refl

interrupt-stops_exactly_example :
    ((v : LiveWorkspaceRecord) × (t : WorkspaceSupervisor) × (get_record "W" after ≡ ok v)
      × (v.supervisor ≡ some t)
      × (t.assignments
          ≡ map
              (λ a.
                if has_to_stop workspace supervisor request a
                then stopped workspace request a
                else a)
              both))
    × Each
        (λ (a : SupervisorAssignment).
          IsOwnPath none request.decision_id a.task_id request.provenance_path
            (stopped workspace request a).provenance_path)
        both
    × ((("W" == "V") ≡ true) ⊎ (get_record "V" after ≡ get_record "V" document))
unfolding interrupt
interrupt-stops_exactly_example =
    interrupt-stops_exactly unicode request document after one_each workspace supervisor "V"
      first_answer refl refl refl refl
