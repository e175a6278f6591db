-- ===== src/Enforcement/Delivered.antt =====
-- The delivery of a redirect, from its first denial on.
use writ_ai.Prelude.{
  String, true, ◌≡◌, refl, ap, ◌∙◌, subst, inl, inr, List, [], ◌∷◌, Option, none, some, arith,
  eq_iff, eq_refl, Bool-cases,
}
use writ_ai.Exec.{Result, ok}
use writ_ai.Supervisor.{
  SupervisorAssignment, SupervisorAssignmentState, SupervisorRuntimeProvider, WorkspaceSupervisor,
  SupervisorLifecycleState,
}
use writ_ai.Supervisor.Texts.{Unicode}
use writ_ai.Supervisor.Equality.{eq_assignment_refl}
use writ_ai.Supervisor.Runtime.{transition, apply_assignment_transition, adopt_plan}
use writ_ai.Supervisor.Live.{live_transition, execution_mode_for}
use writ_ai.Interrupts.{is_live}
use writ_ai.InterruptPort.{is_interrupted}
use writ_ai.InterruptPort.Cases.{get_record-id}
use writ_ai.Sessions.{AssignmentLocator}
use writ_ai.Workspaces.{
  Document, LiveWorkspaceRecord, get_record, put_record, mutate_record, require_same_workspace,
}
use writ_ai.Enforcement.Gateway.{
  AssignmentEnforcementSnapshot, Window, apply_redirect_delivery, attempts, deliver_redirect_once,
  find_assignment, is_live_provider, is_located, live_assignment, located_in,
  mark_redirect_delivered, put_assignment, redirected_at, snapshot_of, write_redirect, written_at,
}

-- An assignment whose redirect is delivered at a version.
abbrev pub delivered : SupervisorAssignment → String → SupervisorAssignment
delivered a version = record a {
  state = SupervisorAssignmentState.redirected;
  decision_snapshot = version;
  execution_mode = execution_mode_for a.runtime_provider;
}

-- No other writer comes between.
abbrev pub quiet : Window × Window × Window
quiet = (λ d. d, λ d. d, λ d. d)

find_assignment-located :
    (locator : AssignmentLocator) (xs : List SupervisorAssignment) (a : SupervisorAssignment)
    → find_assignment locator xs ≡ some a
    → is_located locator a ≡ true
unfolding find_assignment
find_assignment-located locator [] a found = absurd (ground (arith, found))
find_assignment-located locator (x ∷ xs) a found = elim (Bool-cases (is_located locator x)) [
  | inl here ↦
      let itself : x ≡ a = ground (arith, found, here) in
      subst (λ (y : SupervisorAssignment). is_located locator y ≡ true) itself here
  | inr there ↦ find_assignment-located locator xs a (ground (arith, found, there))
]

find_assignment-put_assignment :
    (locator : AssignmentLocator) (xs : List SupervisorAssignment) (a new : SupervisorAssignment)
    → is_located locator new ≡ true
    → find_assignment locator xs ≡ some a
    → find_assignment locator (put_assignment locator new xs) ≡ some new
unfolding find_assignment put_assignment
find_assignment-put_assignment locator [] a new same found = absurd (ground (arith, found))
find_assignment-put_assignment locator (x ∷ xs) a new same found =
    elim (Bool-cases (is_located locator x)) [
      | inl here ↦ ground (arith, here, same)
      | inr there ↦ ground (
        arith,
        there,
        find_assignment-put_assignment locator xs a new same (ground (arith, found, there)),
      )
    ]

is_live-execution_mode_for :
    (p : SupervisorRuntimeProvider)
    → is_live_provider p ≡ true
    → is_live (execution_mode_for p) ≡ true
is_live-execution_mode_for SupervisorRuntimeProvider.generic h = refl
is_live-execution_mode_for SupervisorRuntimeProvider.codex h = absurd (ground (arith, h))
is_live-execution_mode_for SupervisorRuntimeProvider.claude_code h = refl

delivered-located :
    (locator : AssignmentLocator) (a : SupervisorAssignment) (version : String)
    → is_located locator a ≡ true
    → is_live_provider a.runtime_provider ≡ true
    → is_located locator (delivered a version) ≡ true
delivered-located locator a version located provider =
    ground (arith, located, is_live-execution_mode_for a.runtime_provider provider)

live_assignment-cases :
    (locator : AssignmentLocator) (supervisor : Option WorkspaceSupervisor)
    (a : SupervisorAssignment)
    → live_assignment locator supervisor ≡ some a
    → (s : WorkspaceSupervisor) × (supervisor ≡ some s)
      × (is_live s.execution_mode ≡ true)
      × (find_assignment locator s.assignments ≡ some a)
unfolding live_assignment
live_assignment-cases locator none a found = absurd (ground (arith, found))
live_assignment-cases locator (some s) a found = elim (Bool-cases (is_live s.execution_mode)) [
  | inl live ↦ (s, refl, live, ground (arith, found, live))
  | inr simulated ↦ absurd (ground (arith, found, simulated))
]

-- The record behind a delivery.
abbrev pub redirecting :
    LiveWorkspaceRecord
    → WorkspaceSupervisor
    → AssignmentLocator
    → SupervisorAssignment
    → LiveWorkspaceRecord
redirecting w s locator new = record w {
  supervisor = some (record s {
    assignments = put_assignment locator new s.assignments;
    state = SupervisorLifecycleState.redirecting;
  });
}

apply_redirect_delivery-same :
    (locator : AssignmentLocator) (a new : SupervisorAssignment) (w : LiveWorkspaceRecord)
    (s : WorkspaceSupervisor)
    → w.supervisor ≡ some s
    → live_assignment locator (some s) ≡ some a
    → apply_redirect_delivery locator a w.graph_version new w ≡ redirecting w s locator new
unfolding apply_redirect_delivery
apply_redirect_delivery-same locator a new w s there found =
    ground (arith, there, found, eq_assignment_refl a, eq_refl w.graph_version)

-- A stored assignment that is interrupted, live and not run by Codex.
abbrev pub IsInterruptedAt :
    AssignmentLocator
    → Document
    → LiveWorkspaceRecord
    → WorkspaceSupervisor
    → SupervisorAssignment
    → Type 0
IsInterruptedAt locator document w s a =
    (get_record locator.workspace_id document ≡ ok w)
    × (w.supervisor ≡ some s)
    × (live_assignment locator (some s) ≡ some a)
    × (is_interrupted a.state ≡ true)
    × (is_live_provider a.runtime_provider ≡ true)

-- The snapshot behind a delivery.
abbrev pub behind_delivery :
    AssignmentLocator
    → LiveWorkspaceRecord
    → WorkspaceSupervisor
    → SupervisorAssignment
    → AssignmentEnforcementSnapshot
behind_delivery locator w s a =
    let new = delivered a w.graph_version in snapshot_of (redirecting w s locator new) locator new

mutate_record-ok :
    (k : String) (f : LiveWorkspaceRecord → Result LiveWorkspaceRecord) (document : Document)
    (w v : LiveWorkspaceRecord)
    → get_record k document ≡ ok w
    → f w ≡ ok v
    → v.id ≡ k
    → mutate_record k f document ≡ (ok (some v), put_record k v document)
unfolding mutate_record require_same_workspace
mutate_record-ok k f document w v found made named =
    ground (arith, found, made, (eq_iff v.id k).1 named)

module _ (unicode : Unicode) where
  transition-redirected :
      (a : SupervisorAssignment) (version : String)
      → live_transition unicode a (redirected_at version) ≡ delivered a version
  unfolding live_transition transition apply_assignment_transition adopt_plan
  transition-redirected a version = refl

  write_redirect-same :
      (locator : AssignmentLocator) (a : SupervisorAssignment) (w : LiveWorkspaceRecord)
      (s : WorkspaceSupervisor) (document : Document)
      → get_record locator.workspace_id document ≡ ok w
      → w.supervisor ≡ some s
      → live_assignment locator (some s) ≡ some a
      → let v = redirecting w s locator (delivered a w.graph_version) in
        write_redirect unicode locator a w.graph_version document
        ≡ (ok (located_in locator (some v)), put_record locator.workspace_id v document)
  unfolding write_redirect
  write_redirect-same locator a w s document found there located =
      let new = delivered a w.graph_version in
      let v = redirecting w s locator new in
      let moved =
        ap (λ (x : SupervisorAssignment). apply_redirect_delivery locator a w.graph_version x w)
          (transition-redirected a w.graph_version)
        ∙ apply_redirect_delivery-same locator a new w s there located in
      ap (written_at locator) (
        mutate_record-ok locator.workspace_id
          (λ x. ok (
            apply_redirect_delivery locator a w.graph_version
              (live_transition unicode a (redirected_at w.graph_version)) x))
          document w v found (ap (λ (x : LiveWorkspaceRecord). ok x) moved)
          (get_record-id locator.workspace_id w document found))

  pub located_in-redirecting :
      (locator : AssignmentLocator) (document : Document) (w : LiveWorkspaceRecord)
      (s : WorkspaceSupervisor) (a : SupervisorAssignment)
      → IsInterruptedAt locator document w s a
      → located_in locator (some (redirecting w s locator (delivered a w.graph_version)))
        ≡ some (behind_delivery locator w s a)
  unfolding located_in live_assignment
  located_in-redirecting locator document w s a h =
      let (found, there, located, interrupted, provider) = h in
      let (t, same, live, chosen) = live_assignment-cases locator (some s) a located in
      let one : s ≡ t = ground (arith, same) in
      let live' : is_live s.execution_mode ≡ true =
        ap (λ (x : WorkspaceSupervisor). is_live x.execution_mode) one ∙ live in
      let chosen' : find_assignment locator s.assignments ≡ some a =
        ap (λ (x : WorkspaceSupervisor). find_assignment locator x.assignments) one ∙ chosen in
      let put =
        find_assignment-put_assignment locator s.assignments a (delivered a w.graph_version)
          (delivered-located locator a w.graph_version
            (find_assignment-located locator s.assignments a chosen') provider)
          chosen' in
      ground (arith, live', put)

  pub mark_redirect_delivered-quiet :
      (locator : AssignmentLocator) (document : Document) (w : LiveWorkspaceRecord)
      (s : WorkspaceSupervisor) (a : SupervisorAssignment)
      → IsInterruptedAt locator document w s a
      → mark_redirect_delivered unicode locator a.run_id quiet document ≡ (
        ok (some (behind_delivery locator w s a)),
        put_record locator.workspace_id
            (redirecting w s locator (delivered a w.graph_version))
            document,
      )
  unfolding mark_redirect_delivered attempts deliver_redirect_once
  mark_redirect_delivered-quiet locator document w s a h =
      let (found, there, located, interrupted, provider) = h in
      ground (
        arith,
        found,
        there,
        located,
        interrupted,
        eq_refl a.run_id,
        write_redirect-same locator a w s document found there located,
        located_in-redirecting locator document w s a h,
      )
