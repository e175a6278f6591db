-- ===== src/Sessions/Registry.antt =====
-- `ClaudeCodeSessionRegistry`: the sessions by id, the explicit attachments by directory, and the interrupts
-- that were acknowledged. A directory comes in its canonical form, and the two marker
-- files are what reading them found.
use writ_ai.Prelude.{
  String, Bool, true, false, not, ◌&&◌, ◌||◌, ◌==◌, List, [], ◌∷◌, Option, any, filter,
  if◌then◌else◌,
}
use writ_ai.Prelude.Sorting.{sort_by, text_le, text_lt}
use writ_ai.Prelude.Decimal.{append_text}
use writ_ai.Exec.{Result, ok, err, Exec, and_then, value_error, key_error}
use writ_ai.Dict.{Dict, lookup, insert, has_key, values}
use writ_ai.Supervisor.Texts.{strip}
use writ_ai.Supervisor.Equality.{eq_assignment}
use writ_ai.Sessions.{
  ClaudeCodeSessionBinding, ExplicitSessionAttachment, SupervisorAssignmentTarget,
}
use writ_ai.Sessions.Markers.{Found, read_attach_file, read_task_file}
use writ_ai.Sessions.Resolve.{Session, resolve_binding}

pub record Registry : Type 0 where
  pub sessions : Dict ClaudeCodeSessionBinding
  pub explicit_by_cwd : Dict ExplicitSessionAttachment
  pub acknowledged_interrupts : List (String × String)

abbrev pub empty_registry : Registry
empty_registry = record { sessions = []; explicit_by_cwd = []; acknowledged_interrupts = [] }

-- `dict.pop(key, None)`, as the dictionary it leaves.
unfoldable pub drop_key {ℓ} : {V : Type ℓ} → String → Dict V → Dict V
drop_key k [] = []
drop_key k ((j, v) ∷ d) = let rest = drop_key k d in if j == k then rest else (j, v) ∷ rest

-- `attach`
unfoldable pub attach : String → String → String → Registry → Registry
unfolding insert
attach cwd workspace_id assignment_id registry = record registry {
  explicit_by_cwd =
      insert cwd (record { workspace_id = workspace_id; assignment_id = assignment_id })
        registry.explicit_by_cwd;
}

-- `detach`
unfoldable pub detach : String → Registry → Bool × Registry
unfolding drop_key
detach cwd registry = (
  has_key registry.explicit_by_cwd cwd,
  record registry { explicit_by_cwd = drop_key cwd registry.explicit_by_cwd },
)

abbrev pub same_key : SupervisorAssignmentTarget → SupervisorAssignmentTarget → Bool
same_key t u = (t.workspace_id == u.workspace_id) && (t.assignment.id == u.assignment.id)

abbrev pub key_le : SupervisorAssignmentTarget → SupervisorAssignmentTarget → Bool
key_le t u =
    text_lt t.workspace_id u.workspace_id
    || ((t.workspace_id == u.workspace_id) && text_le t.assignment.id u.assignment.id)

-- The body of the loop of `_unique_targets`.
unfoldable pub add_target :
    SupervisorAssignmentTarget
    → List SupervisorAssignmentTarget
    → Result (List SupervisorAssignmentTarget)
add_target t [] = ok (t ∷ [])
add_target t (u ∷ us) =
    let rest = add_target t us in
    if same_key u t
    then (if eq_assignment u.assignment t.assignment
        then ok (t ∷ us)
        else err (
            value_error (
              append_text "assignment catalog returned conflicting values for "
                (append_text t.workspace_id (append_text "/" t.assignment.id)))))
    else and_then rest λ vs. ok (u ∷ vs)

unfoldable pub add_targets :
    List SupervisorAssignmentTarget
    → List SupervisorAssignmentTarget
    → Result (List SupervisorAssignmentTarget)
unfolding add_target
add_targets unique [] = ok unique
add_targets unique (t ∷ ts) = and_then (add_target t unique) λ more. add_targets more ts

-- `_unique_targets`
unfoldable pub unique_targets :
    List SupervisorAssignmentTarget → Result (List SupervisorAssignmentTarget)
unfolding add_targets sort_by
unique_targets candidates =
    and_then (add_targets [] candidates) λ unique. ok (sort_by key_le unique)

-- `register`
unfoldable pub register :
    Session
    → List SupervisorAssignmentTarget
    → Found
    → Found
    → Exec Registry ClaudeCodeSessionBinding
unfolding unique_targets resolve_binding read_attach_file read_task_file insert lookup strip
register s candidates attach_file task_file registry = elim (unique_targets candidates) [
  | err e ↦ (err e, registry)
  | ok unique ↦
      let b =
        resolve_binding (record s { branch = strip s.branch }) unique
          (lookup s.cwd registry.explicit_by_cwd) (read_attach_file attach_file)
          (read_task_file task_file) in
      (ok b, record registry { sessions = insert b.session_id b registry.sessions })
]

-- `get`
unfoldable pub get_session : String → Registry → Option ClaudeCodeSessionBinding
unfolding lookup strip
get_session session_id registry = lookup (strip session_id) registry.sessions

abbrev pub session_le : ClaudeCodeSessionBinding → ClaudeCodeSessionBinding → Bool
session_le a b = text_lt a.cwd b.cwd || ((a.cwd == b.cwd) && text_le a.session_id b.session_id)

-- `list`
unfoldable pub list_sessions : Registry → List ClaudeCodeSessionBinding
unfolding sort_by
list_sessions registry = sort_by session_le (values registry.sessions)

-- `release`
unfoldable pub release : String → Registry → Bool × Registry
unfolding drop_key strip
release session_id registry =
    let normalized = strip session_id in
    if has_key registry.sessions normalized
    then (
      true,
      record registry {
        sessions = drop_key normalized registry.sessions;
        acknowledged_interrupts =
            filter (λ key. not (key.0 == normalized)) registry.acknowledged_interrupts;
      },
    )
    else (false, registry)

-- `is_acknowledged`
unfoldable pub is_acknowledged : String → String → Registry → Bool
is_acknowledged session_id interrupt_key registry =
    any (λ key. (key.0 == session_id) && (key.1 == interrupt_key)) registry.acknowledged_interrupts

-- `acknowledge`
unfoldable pub acknowledge : String → String → Registry → Result Registry
acknowledge session_id interrupt_key registry =
    if has_key registry.sessions session_id
    then ok (record registry {
      acknowledged_interrupts = (session_id, interrupt_key) ∷ registry.acknowledged_interrupts;
    })
    else err (key_error session_id)
