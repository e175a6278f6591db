-- ===== src/Supervisor/Resolved.antt =====
-- The theorem about `_resolve_plan_actions`.
use writ_ai.Prelude.{
  String, Bool, true, false, ◌==◌, ◌≡◌, sym, subst, ◌∙◌, List, [], ◌∷◌, ◌++◌, none, some, filter,
  arith, eq_iff, Bool-cases, Option-cases, List-cases, inl, inr, if◌then◌else◌,
}
use writ_ai.Exec.{ok}
use writ_ai.Dict.{Dict, lookup, has_key, lookup-insert}
use writ_ai.Domain.{AgentPlan, PlanAction}
use writ_ai.Domain.Value.{get}
use writ_ai.Supervisor.Actions.{append_to, dict_of, matching, named_task, resolve_action}

-- Whether a task is the only one of a list.
abbrev pub is_only : String → List String → Bool
is_only k (j ∷ []) = j == k
is_only k _ = false

-- An action belongs to the task that it names, or else to the only task that shares a scope with it.
abbrev pub belongs : Dict (List String) → String → PlanAction → Bool
belongs scopes_by_task k action = elim (named_task (get action.attributes "task_id")) [
  | some j ↦ j == k
  | none ↦ is_only k (matching action scopes_by_task)
]

lookup-append_to :
    (j k : String) (action : PlanAction) (d : Dict (List PlanAction)) (old : List PlanAction)
    → lookup k d ≡ some old
    → lookup k (append_to j action d) ≡ some (if j == k then old ++ action ∷ [] else old)
lookup-append_to j k action d old h = elim (Bool-cases (j == k)) [
  | inl same ↦
      let here : lookup j d ≡ some old =
        subst (λ z. lookup z d ≡ some old) (sym ((eq_iff j k).0 same)) h in
      ground (arith, here, same, lookup-insert j k (old ++ action ∷ []) d)
  | inr other ↦ elim (Option-cases (lookup j d)) [
    | inl missing ↦ ground (arith, missing, other, h)
    | inr (actions, found) ↦
        ground (arith, found, other, h, lookup-insert j k (actions ++ action ∷ []) d)
  ]
]

-- The action names no task, and shares scopes with several.
abbrev pub is_ambiguous : Dict (List String) → PlanAction → Bool
is_ambiguous scopes_by_task action = elim (named_task (get action.attributes "task_id")) [
  | some j ↦ false
  | none ↦ elim (matching action scopes_by_task) [ [] ↦ false | k ∷ [] ↦ false | k ∷ j ∷ ks ↦ true ]
]

module _ (scopes_by_task : Dict (List String)) (k : String) where
  pub resolve_action_ok :
      (action : PlanAction) (d : Dict (List PlanAction)) (old : List PlanAction)
      → is_ambiguous scopes_by_task action ≡ false
      → lookup k d ≡ some old
      → (d' : Dict (List PlanAction)) × (resolve_action scopes_by_task action d ≡ ok d')
        × (lookup k d' ≡ some (if belongs scopes_by_task k action then old ++ action ∷ [] else old))
  unfolding resolve_action
  resolve_action_ok action d old clear h =
      elim (Option-cases (named_task (get action.attributes "task_id"))) [
        | inr (j, named) ↦ (
          append_to j action d,
          ground (arith, named),
          lookup-append_to j k action d old h ∙ ground (arith, named),
        )
        | inl unnamed ↦ elim (List-cases (matching action scopes_by_task)) [
          | inl nothing ↦ (d, ground (arith, unnamed, nothing), ground (arith, unnamed, nothing, h))
          | inr (j, [], one) ↦ (
            append_to j action d,
            ground (arith, unnamed, one),
            lookup-append_to j k action d old h ∙ ground (arith, unnamed, one),
          )
          | inr (j, i ∷ is, many) ↦ absurd (ground (arith, clear, unnamed, many))
        ]
      ]

-- What the resolved dictionary promises.
pub record Resolves (tasks : List (String × List String)) (plan : AgentPlan)
    (d : Dict (List PlanAction)) : Type 0 where
  pub each_task :
      (k : String)
      → has_key tasks k ≡ true
      → lookup k d ≡ some (filter (belongs (dict_of [] tasks) k) plan.actions)
