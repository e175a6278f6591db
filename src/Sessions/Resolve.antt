-- ===== src/Sessions/Resolve.antt =====
-- `_resolve_binding`: an explicit attachment, a task id in the branch name, `.writai/task`, unbound.
use Prim.Native.String.{count}
use writ_ai.Prelude.{
  String, ◌&&◌, ◌==◌, List, [], ◌∷◌, Option, none, some, filter, leb, if◌then◌else◌,
}
use writ_ai.Prelude.Decimal.{append_text}
use writ_ai.Supervisor.Texts.{take_text}
use writ_ai.Sessions.{
  AttachFileResult, ClaudeCodeSessionBinding, ExplicitSessionAttachment, SessionBindingSource,
  SupervisorAssignmentTarget, from_target,
}
use writ_ai.Sessions.Markers.{branch_mentions_task}

-- The session to bind.
pub record Session : Type 0 where
  pub session_id : String
  pub owner_id : String
  pub cwd : String
  pub branch : String

-- `_bound`
abbrev pub bound :
    Session → SessionBindingSource → SupervisorAssignmentTarget → String → ClaudeCodeSessionBinding
bound s source target detail = record {
  session_id = s.session_id;
  owner_id = s.owner_id;
  cwd = s.cwd;
  branch = s.branch;
  source = source;
  assignment = some (from_target target);
  detail = detail;
}

-- `_unresolved_attachment`, `_unbound`
abbrev pub without_assignment : Session → SessionBindingSource → String → ClaudeCodeSessionBinding
without_assignment s source detail = record {
  session_id = s.session_id;
  owner_id = s.owner_id;
  cwd = s.cwd;
  branch = s.branch;
  source = source;
  assignment = none;
  detail = detail;
}

abbrev pub unresolved : Session → String → ClaudeCodeSessionBinding
unresolved s = without_assignment s SessionBindingSource.unresolved_attachment

abbrev pub unbound : Session → String → ClaudeCodeSessionBinding
unbound s = without_assignment s SessionBindingSource.unbound

-- The binding for one match, for none and for several.
abbrev pub by_matches :
    List SupervisorAssignmentTarget
    → (SupervisorAssignmentTarget → ClaudeCodeSessionBinding)
    → ClaudeCodeSessionBinding
    → ClaudeCodeSessionBinding
    → ClaudeCodeSessionBinding
by_matches [] one nothing several = nothing
by_matches (t ∷ []) one nothing several = one t
by_matches (t ∷ u ∷ ts) one nothing several = several

-- The rule of `.writai/task`.
unfoldable pub resolve_by_task_file :
    Session → List SupervisorAssignmentTarget → Option String → ClaudeCodeSessionBinding
resolve_by_task_file s candidates none =
    unbound s
      "No explicit attachment, branch task ID, or .writai/task binding was found; this session is visibly unbound."
resolve_by_task_file s candidates (some task_id) =
    by_matches
      (filter (λ (t : SupervisorAssignmentTarget). t.assignment.task_id == task_id) candidates)
      (λ t. bound s SessionBindingSource.task_file t "Bound by the repository .writai/task file.")
      (unbound s ".writai/task does not name an available live assignment.")
      (unbound s ".writai/task matches assignments in multiple workspaces.")

-- `_resolve_by_branch_then_task_file`
unfoldable pub resolve_by_branch_then_task_file :
    Session → List SupervisorAssignmentTarget → Option String → ClaudeCodeSessionBinding
unfolding branch_mentions_task resolve_by_task_file
resolve_by_branch_then_task_file s candidates task_id =
    by_matches
      (filter
        (λ (t : SupervisorAssignmentTarget). branch_mentions_task s.branch t.assignment.task_id)
        candidates)
      (λ t.
        bound s SessionBindingSource.branch t "Bound by an exact task ID in the Git branch name.")
      (resolve_by_task_file s candidates task_id)
      (unbound s "The Git branch name matches more than one assignment.")

-- `_with_skipped_marker`
unfoldable pub with_skipped_marker : String → String → String
unfolding take_text
with_skipped_marker detail reason =
    let combined =
      append_text detail (append_text " (.writai/attach was ignored: " (append_text reason ")")) in
    if leb (count combined) 1000 then combined else append_text (take_text 997 combined) "..."

-- The detail of a binding behind a marker that was skipped.
unfoldable pub note_marker : AttachFileResult → ClaudeCodeSessionBinding → ClaudeCodeSessionBinding
unfolding with_skipped_marker
note_marker marker b =
    if marker.present
    then elim marker.detail [
      | none ↦ b
      | some reason ↦ record b { detail = with_skipped_marker b.detail reason }
    ]
    else b

-- `_resolve_binding`
unfoldable pub resolve_binding :
    Session
    → List SupervisorAssignmentTarget
    → Option ExplicitSessionAttachment
    → AttachFileResult
    → Option String
    → ClaudeCodeSessionBinding
unfolding resolve_by_branch_then_task_file note_marker
resolve_binding s candidates (some attachment) marker task_id =
    let missing =
      unresolved s
        "The explicit attachment does not name one available live Claude Code assignment." in
    by_matches
      (filter
        (λ (t : SupervisorAssignmentTarget).
          (t.workspace_id == attachment.workspace_id)
          && (t.assignment.id == attachment.assignment_id))
        candidates)
      (λ t. bound s SessionBindingSource.explicit t "Bound by an explicit writai attach selection.")
      missing missing
resolve_binding s candidates none marker task_id =
    let later = note_marker marker (resolve_by_branch_then_task_file s candidates task_id) in
    elim marker.assignment_id [
      | none ↦ later
      | some assignment_id ↦
          if marker.present
          then by_matches
              (filter (λ (t : SupervisorAssignmentTarget). t.assignment.id == assignment_id)
                candidates)
              (λ t.
                bound s SessionBindingSource.explicit t
                  "Bound by the repository .writai/attach file.")
              (unresolved s ".writai/attach does not name an available live assignment.")
              (unresolved s ".writai/attach matches assignments in multiple workspaces.")
          else later
    ]
