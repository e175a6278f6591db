-- ===== src/Examples/Live.antt =====
-- A live workspace, interrupted twice.
use writ_ai.Prelude.{String, false, ◌≡◌, refl, List, [], ◌∷◌, none, some}
use writ_ai.Exec.{ok}
use writ_ai.Domain.Value.{Fields}
use writ_ai.Supervisor.{
  SupervisorAdapter, SupervisorAssignment, SupervisorAssignmentState, SupervisorExecutionMode,
  SupervisorLifecycleState, SupervisorRuntimeProvider,
}
use writ_ai.Supervisor.Texts.{Unicode}
use writ_ai.Interrupts.{InterruptRequest, Repository, interrupt, partition}
use writ_ai.Interrupts.Replay.{interrupt_replays}

abbrev pub assignment : String → List String → SupervisorAssignment
assignment task scopes = record {
  id = task;
  task_id = task;
  task_title = task;
  agent_name = "agent";
  runtime_provider = SupervisorRuntimeProvider.claude_code;
  execution_mode = SupervisorExecutionMode.live;
  run_id = "r";
  state = SupervisorAssignmentState.running;
  scopes = scopes;
  action_ids = [];
  authorized_actions = [];
  plan_id = "P1";
  decision_snapshot = "graph-v3";
  redirected_from_run_id = none;
  interrupt_reason = none;
  redirect_instruction = none;
  provenance_path = [];
  interrupt_enforced = false;
}

abbrev pub both : List SupervisorAssignment
both = assignment "K1" ("login" ∷ []) ∷ assignment "K2" ("billing" ∷ []) ∷ []

abbrev repository : Repository
repository =
    record {
      id = "W";
      supervisor = some (record {
        id = "S";
        name = "";
        state = SupervisorLifecycleState.running;
        adapter = SupervisorAdapter.claude_code_hook_runtime;
        execution_mode = SupervisorExecutionMode.live;
        assignments = both;
        applied_interrupts = [];
      });
      history = [];
    }
    ∷ []

abbrev pub request : InterruptRequest
request = record {
  workspace_id = "W";
  decision_id = "D2";
  affected_scopes = "login" ∷ [];
  provenance_path = [];
  interrupt_reason = "changed";
  redirect_instruction = "stop";
}

abbrev pub unicode : Unicode
unicode = record { casefold = λ s. s; upper = λ s. s; decimal_value = λ c. none }

abbrev pub hash : Fields → String
hash fields = "h"

abbrev after : Repository
after = (interrupt unicode hash request repository).1

first_answer : interrupt unicode hash request repository ≡ (ok (partition both request), after)
unfolding interrupt
first_answer = refl

interrupt_replays_example :
    interrupt unicode hash request after ≡ (ok (partition both request), after)
interrupt_replays_example =
    interrupt_replays unicode hash request repository after (partition both request) first_answer
