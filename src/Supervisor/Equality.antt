-- ===== src/Supervisor/Equality.antt =====
-- `==` between assignments: field by field, the scopes as sets.
use writ_ai.Prelude.{
  ℕ, String, Bool, true, false, ◌&&◌, ◌==◌, ◌≡◌, refl, List, [], ◌∷◌, Option, none, some, eqb,
  eq_refl, arith, same_set, same_set_refl,
}
use writ_ai.Supervisor.{
  SupervisorAssignment, SupervisorAssignmentState, SupervisorExecutionMode,
  SupervisorRuntimeProvider,
}

abbrev pub eq_texts : List String → List String → Bool
eq_texts [] [] = true
eq_texts (x ∷ xs) (y ∷ ys) = x == y && eq_texts xs ys
eq_texts _ _ = false

abbrev pub eq_optional : Option String → Option String → Bool
eq_optional none none = true
eq_optional (some x) (some y) = x == y
eq_optional _ _ = false

abbrev state_number : SupervisorAssignmentState → ℕ
state_number SupervisorAssignmentState.queued = 0
state_number SupervisorAssignmentState.running = 1
state_number SupervisorAssignmentState.continuing = 2
state_number SupervisorAssignmentState.interrupted = 3
state_number SupervisorAssignmentState.redirected = 4
state_number SupervisorAssignmentState.resumed = 5
state_number SupervisorAssignmentState.completed = 6

abbrev provider_number : SupervisorRuntimeProvider → ℕ
provider_number SupervisorRuntimeProvider.generic = 0
provider_number SupervisorRuntimeProvider.codex = 1
provider_number SupervisorRuntimeProvider.claude_code = 2

abbrev mode_number : SupervisorExecutionMode → ℕ
mode_number SupervisorExecutionMode.simulated = 0
mode_number SupervisorExecutionMode.live = 1

abbrev eq_bool : Bool → Bool → Bool
eq_bool true b = b
eq_bool false true = false
eq_bool false false = true

-- Who does the work.
unfoldable eq_agent : SupervisorAssignment → SupervisorAssignment → Bool
eq_agent a b =
    a.id == b.id
    && a.task_id == b.task_id
    && a.task_title == b.task_title
    && a.agent_name == b.agent_name
    && eqb (provider_number a.runtime_provider) (provider_number b.runtime_provider)
    && eqb (mode_number a.execution_mode) (mode_number b.execution_mode)
    && a.run_id == b.run_id

-- What the work is.
unfoldable eq_work : SupervisorAssignment → SupervisorAssignment → Bool
eq_work a b =
    same_set a.scopes b.scopes
    && eq_texts a.action_ids b.action_ids
    && eq_texts a.authorized_actions b.authorized_actions
    && a.plan_id == b.plan_id
    && a.decision_snapshot == b.decision_snapshot

-- What became of it.
unfoldable eq_progress : SupervisorAssignment → SupervisorAssignment → Bool
eq_progress a b =
    eqb (state_number a.state) (state_number b.state)
    && eq_optional a.redirected_from_run_id b.redirected_from_run_id
    && eq_optional a.interrupt_reason b.interrupt_reason
    && eq_optional a.redirect_instruction b.redirect_instruction
    && eq_texts a.provenance_path b.provenance_path
    && eq_bool a.interrupt_enforced b.interrupt_enforced

unfoldable pub eq_assignment : SupervisorAssignment → SupervisorAssignment → Bool
unfolding eq_agent eq_work eq_progress
eq_assignment a b = eq_agent a b && eq_work a b && eq_progress a b

eq_texts_refl : (xs : List String) → eq_texts xs xs ≡ true
eq_texts_refl [] = refl
eq_texts_refl (x ∷ xs) = ground (arith, eq_refl x, eq_texts_refl xs)

eq_optional_refl : (o : Option String) → eq_optional o o ≡ true
eq_optional_refl none = refl
eq_optional_refl (some x) = eq_refl x

eq_bool_refl : (b : Bool) → eq_bool b b ≡ true
eq_bool_refl true = refl
eq_bool_refl false = refl

eq_agent_refl : (a : SupervisorAssignment) → eq_agent a a ≡ true
unfolding eq_agent
eq_agent_refl a = ground (
  arith,
  eq_refl a.id,
  eq_refl a.task_id,
  eq_refl a.task_title,
  eq_refl a.agent_name,
  eq_refl a.run_id,
)

eq_work_refl : (a : SupervisorAssignment) → eq_work a a ≡ true
unfolding eq_work
eq_work_refl a = ground (
  arith,
  same_set_refl a.scopes,
  eq_texts_refl a.action_ids,
  eq_texts_refl a.authorized_actions,
  eq_refl a.plan_id,
  eq_refl a.decision_snapshot,
)

eq_progress_refl : (a : SupervisorAssignment) → eq_progress a a ≡ true
unfolding eq_progress
eq_progress_refl a = ground (
  arith,
  eq_optional_refl a.redirected_from_run_id,
  eq_optional_refl a.interrupt_reason,
  eq_optional_refl a.redirect_instruction,
  eq_texts_refl a.provenance_path,
  eq_bool_refl a.interrupt_enforced,
)

pub eq_assignment_refl : (a : SupervisorAssignment) → eq_assignment a a ≡ true
unfolding eq_assignment
eq_assignment_refl a = ground (arith, eq_agent_refl a, eq_work_refl a, eq_progress_refl a)
