-- ===== src/Supervisor/Actions.antt =====
-- Which actions of a plan belong to which task, and the texts that an agent is given for them.
use Prim.Native.String.{count}
use writ_ai.Prelude.{
  String, true, false, ◌||◌, ◌==◌, List, [], ◌∷◌, ◌++◌, map, Option, none, some, contains, inter,
  is_empty, filter, ltb, eqb, length, if◌then◌else◌,
}
use writ_ai.Prelude.Decimal.{append_text}
use writ_ai.Exec.{Result, ok, err, and_then, value_error}
use writ_ai.Dict.{Dict, lookup, insert}
use writ_ai.Domain.{AgentPlan, Artifact, PlanAction}
use writ_ai.Domain.Value.{Value, text, get}
use writ_ai.Authority.Findings.{is_valid}
use writ_ai.Supervisor.{SupervisorAssignment}
use writ_ai.Supervisor.Texts.{drop_nulls, join_words, split_words, strip_right, take_text}

-- The task that an action names: only a text can name one.
abbrev pub named_task : Value → Option String
named_task (text k) = some k
named_task _ = none

-- `resolved[k].append(action)`
abbrev pub append_to : String → PlanAction → Dict (List PlanAction) → Dict (List PlanAction)
append_to k action resolved = elim (lookup k resolved) [
  | none ↦ resolved
  | some actions ↦ insert k (actions ++ action ∷ []) resolved
]

-- `dict(tasks)`
unfoldable pub dict_of : {V : Type 0} → Dict V → List (String × V) → Dict V
dict_of d [] = d
dict_of d ((k, v) ∷ rest) = dict_of (insert k v d) rest

-- The tasks that share a scope with the action.
unfoldable pub matching : PlanAction → Dict (List String) → List String
matching action [] = []
matching action ((k, scopes) ∷ rest) =
    if is_empty (inter action.scopes scopes) then matching action rest else k ∷ matching action rest

-- The body of `for action in plan.actions`.
unfoldable pub resolve_action :
    Dict (List String) → PlanAction → Dict (List PlanAction) → Result (Dict (List PlanAction))
unfolding matching
resolve_action scopes_by_task action resolved =
    elim (named_task (get action.attributes "task_id")) [
      | some k ↦ ok (append_to k action resolved)
      | none ↦ elim (matching action scopes_by_task) [
        | [] ↦ ok resolved
        | k ∷ [] ↦ ok (append_to k action resolved)
        | k ∷ j ∷ ks ↦ err (value_error action.id)
      ]
    ]

unfoldable pub resolve_from :
    Dict (List String) → List PlanAction → Dict (List PlanAction) → Result (Dict (List PlanAction))
unfolding resolve_action
resolve_from scopes_by_task [] resolved = ok resolved
resolve_from scopes_by_task (action ∷ rest) resolved =
    and_then (resolve_action scopes_by_task action resolved) (resolve_from scopes_by_task rest)

-- `{task_id: [] for task_id, _scopes in tasks}`
unfoldable pub no_actions : List (String × List String) → Dict (List PlanAction)
unfolding dict_of
no_actions tasks = dict_of [] (map (λ t. (t.0, [])) tasks)

-- `_resolve_plan_actions`
unfoldable pub resolve_plan_actions :
    List (String × List String) → AgentPlan → Result (Dict (List PlanAction))
unfolding resolve_from no_actions dict_of
resolve_plan_actions tasks plan = resolve_from (dict_of [] tasks) plan.actions (no_actions tasks)

unfoldable pub resolve_plan_actions_for_tasks :
    List Artifact → AgentPlan → Result (Dict (List PlanAction))
unfolding resolve_plan_actions
resolve_plan_actions_for_tasks tasks plan =
    resolve_plan_actions (map (λ t. (t.id, t.scopes)) (filter (λ t. is_valid t.validity) tasks))
      plan

unfoldable pub resolve_plan_actions_for_assignments :
    List SupervisorAssignment → AgentPlan → Result (Dict (List PlanAction))
unfolding resolve_plan_actions
resolve_plan_actions_for_assignments assignments plan =
    resolve_plan_actions (map (λ a. (a.task_id, a.scopes)) assignments) plan

-- `_direct_actions_for_assignment`
unfoldable pub direct_actions_for_assignment : SupervisorAssignment → AgentPlan → List PlanAction
direct_actions_for_assignment assignment plan =
    filter
      (λ action. elim (named_task (get action.attributes "task_id")) [
        | none ↦ false
        | some k ↦ k == assignment.task_id
      ])
      plan.actions

-- `f"Plan action {action.id}: {action.description}"`
unfoldable pub action_text : PlanAction → String
action_text action =
    append_text "Plan action " (append_text action.id (append_text ": " action.description))

-- `" ".join(value.replace("\x00", "").split())`
unfoldable pub normalize : String → String
unfolding join_words split_words drop_nulls
normalize value = join_words (split_words (drop_nulls value))

-- At most 1,000 characters.
unfoldable pub shorten : String → String
unfolding strip_right take_text
shorten normalized =
    if ltb 1000 (count normalized)
    then append_text (strip_right (take_text 997 normalized)) "..."
    else normalized

-- `for value in values`, which ends at the twentieth text.
unfoldable pub bound_texts : List String → List String → List String
unfolding normalize shorten
bound_texts bounded [] = bounded
bound_texts bounded (value ∷ rest) =
    let normalized = normalize value in
    let more = bounded ++ shorten normalized ∷ [] in
    elim ((normalized == "") || contains bounded normalized) [
      | true ↦ bound_texts bounded rest
      | false ↦ elim (eqb (length more) 20) [ true ↦ more | false ↦ bound_texts more rest ]
    ]

-- `_authorized_actions`
unfoldable pub authorized_actions_of : List PlanAction → List String
unfolding bound_texts action_text
authorized_actions_of actions = bound_texts [] (map action_text actions)
