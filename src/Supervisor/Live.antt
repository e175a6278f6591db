-- ===== src/Supervisor/Live.antt =====
-- backend/writai/workspaces/runtimes/claude_code.py: `ClaudeCodeSupervisorRuntime`, which makes the
-- assignments of the fixture runtime and marks them live.
use writ_ai.Prelude.{String, List, map}
use writ_ai.Exec.{Result, ok, and_then}
use writ_ai.Domain.{AgentPlan, Artifact}
use writ_ai.Supervisor.{
  SupervisorAdapter, SupervisorAssignment, SupervisorExecutionMode, SupervisorRuntimeProvider,
  WorkspaceSupervisor,
}
use writ_ai.Supervisor.Texts.{Unicode}
use writ_ai.Supervisor.Runtime.{Transition, create_supervisor, transition}

-- `_execution_mode_for`
abbrev pub execution_mode_for : SupervisorRuntimeProvider → SupervisorExecutionMode
execution_mode_for SupervisorRuntimeProvider.codex = SupervisorExecutionMode.simulated
execution_mode_for _ = SupervisorExecutionMode.live

module _ (unicode : Unicode) where
  -- `ClaudeCodeSupervisorRuntime.transition`
  unfoldable pub live_transition : SupervisorAssignment → Transition → SupervisorAssignment
  live_transition a t =
      let moved = transition unicode a t in
      record moved { execution_mode = execution_mode_for moved.runtime_provider }

  -- `ClaudeCodeSupervisorRuntime.create_supervisor`
  unfoldable pub create_live_supervisor :
      String → String → List Artifact → AgentPlan → String → Result WorkspaceSupervisor
  create_live_supervisor workspace_id supervisor_run_id tasks plan decision_snapshot =
      and_then
        (create_supervisor unicode workspace_id supervisor_run_id tasks plan decision_snapshot)
        λ s. ok (record s {
          adapter = SupervisorAdapter.claude_code_hook_runtime;
          execution_mode = SupervisorExecutionMode.live;
          assignments =
              map
                (λ (a : SupervisorAssignment). record a {
                  execution_mode = execution_mode_for a.runtime_provider;
                })
                s.assignments;
        })
