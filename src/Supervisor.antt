-- ===== src/Supervisor.antt =====
-- backend/writai/workspaces/supervisor.py: the assignments of a workspace's agents.
pub mod Texts
pub mod Actions
pub mod Runtime
pub mod Live
pub mod Equality
pub mod Resolved
pub mod Bounded
use writ_ai.Prelude.{String, Bool, true, false, List, Option}

pub data SupervisorExecutionMode : Type 0 where
  simulated live : SupervisorExecutionMode

pub data SupervisorRuntimeProvider : Type 0 where
  generic codex claude_code : SupervisorRuntimeProvider

pub data SupervisorAssignmentState : Type 0 where
  queued running continuing interrupted redirected resumed completed : SupervisorAssignmentState

pub data SupervisorLifecycleState : Type 0 where
  queued running interrupting redirecting resumed completed : SupervisorLifecycleState

pub data SupervisorAdapter : Type 0 where
  fixture_agent_runtime claude_code_hook_runtime : SupervisorAdapter

pub record SupervisorAssignment : Type 0 where
  pub id : String
  pub task_id : String
  pub task_title : String
  pub agent_name : String
  pub runtime_provider : SupervisorRuntimeProvider
  pub execution_mode : SupervisorExecutionMode
  pub run_id : String
  pub state : SupervisorAssignmentState
  pub scopes : List String
  pub action_ids : List String
  pub authorized_actions : List String
  pub plan_id : String
  pub decision_snapshot : String
  pub redirected_from_run_id : Option String
  pub interrupt_reason : Option String
  pub redirect_instruction : Option String
  pub provenance_path : List String
  pub interrupt_enforced : Bool

pub record AppliedInterrupt : Type 0 where
  pub decision_id : String
  pub interrupted_assignment_ids : List String
  pub preserved_assignment_ids : List String
  pub affected_scopes : List String

pub record WorkspaceSupervisor : Type 0 where
  pub id : String
  pub name : String
  pub state : SupervisorLifecycleState
  pub adapter : SupervisorAdapter
  pub execution_mode : SupervisorExecutionMode
  pub assignments : List SupervisorAssignment
  pub applied_interrupts : List AppliedInterrupt
