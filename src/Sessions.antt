-- ===== src/Sessions.antt =====
-- backend/writai/workspaces/session_binding.py: which assignment a Claude Code session is bound to. The
-- types here; the marker files and the branch name, the order of the rules, and the registry below. Text
-- fields come stripped and of valid length from the request that carries them, and the time of the start
-- of a session is left out.
pub mod Markers
pub mod Resolve
pub mod Registry
pub mod Binds
use writ_ai.Prelude.{String, Bool, List, Option}
use writ_ai.Supervisor.{SupervisorAssignment}

pub data SessionBindingSource : Type 0 where
  explicit branch task_file unbound unresolved_attachment : SessionBindingSource

pub record SupervisorAssignmentTarget : Type 0 where
  pub workspace_id : String
  pub assignment : SupervisorAssignment

pub record AssignmentLocator : Type 0 where
  pub workspace_id : String
  pub assignment_id : String
  pub task_id : String

-- `AssignmentLocator.from_target`
abbrev pub from_target : SupervisorAssignmentTarget → AssignmentLocator
from_target target = record {
  workspace_id = target.workspace_id;
  assignment_id = target.assignment.id;
  task_id = target.assignment.task_id;
}

pub record ExplicitSessionAttachment : Type 0 where
  pub workspace_id : String
  pub assignment_id : String

-- `_AttachFileResult`
pub record AttachFileResult : Type 0 where
  pub present : Bool
  pub assignment_id : Option String
  pub detail : Option String

pub record ClaudeCodeSessionBinding : Type 0 where
  pub session_id : String
  pub owner_id : String
  pub cwd : String
  pub branch : String
  pub source : SessionBindingSource
  pub assignment : Option AssignmentLocator
  pub detail : String
