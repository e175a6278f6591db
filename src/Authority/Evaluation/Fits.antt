-- ===== src/Authority/Evaluation/Fits.antt =====
-- When `evaluate_plan` finds no mismatch.
use writ_ai.Prelude.{
  all_iff, String, Bool, true, not, ◌&&◌, ◌≡◌, refl, sym, ◌∙◌, ap, ◌↔◌, subst, List, [], ◌∷◌, ◌++◌,
  none, some, contains, contains-diff, contains-inter, inter, diff, all, is_empty, Each, arith,
  Bool-cases, Option-cases, inl, inr,
}
use writ_ai.Prelude.Sorting.{sort_texts, all-sort_by, text_le}
use writ_ai.Dict.{Dict, lookup, has_key, keys, has_key_of_lookup, lookup_of_has_key}
use writ_ai.Domain.{AgentPlan, Artifact, PlanAction, is_task, plan_scopes}
use writ_ai.Domain.Value.{Value, Fields, find, eq_fields}
use writ_ai.Graph.{Store}
use writ_ai.Authority.Findings.{
  project, is_valid, missing_findings, missing_scopes, referenced_task, reference_actual,
  reference_findings, scope_findings, action_findings, actions_findings, plan_findings,
}

-- The value names a stored, valid Task.
abbrev pub NamesTask : Store → Value → Type 0
NamesTask s v =
    (t : Artifact) × (referenced_task s v ≡ some t)
    × (is_task t.kind ≡ true)
    × (is_valid t.validity ≡ true)

-- The action refers to a valid Task if to any, and what it says on each required scope is what that
-- scope's requirement says.
pub record Fits (s : Store) (requirements : Dict Fields) (action : PlanAction) : Type 0 where
  pub reference : (v : Value) → find "task_id" action.attributes ≡ some v → NamesTask s v
  pub agrees :
      (scope : String) (expected : Fields)
      → contains action.scopes scope ≡ true
      → lookup scope requirements ≡ some expected
      → eq_fields (project action.attributes expected) expected ≡ true

is_empty-append : {A : Type 0} (xs ys : List A) → is_empty (xs ++ ys) ≡ (is_empty xs && is_empty ys)
is_empty-append [] ys = refl
is_empty-append (x ∷ xs) ys = refl

missing_findings-empty :
    (plan : AgentPlan) (requirements : Dict Fields) (xs : List String)
    → is_empty (missing_findings plan requirements xs).mismatches
      ≡ all (λ x. not (has_key requirements x)) xs
unfolding missing_findings
missing_findings-empty plan requirements [] = refl
missing_findings-empty plan requirements (x ∷ xs) = elim (Bool-cases (has_key requirements x)) [
  | inl there ↦ let (v, e) = lookup_of_has_key x requirements there in ground (arith, e, there)
  | inr absent ↦ elim (Option-cases (lookup x requirements)) [
    | inl e ↦ ground (arith, e, absent, missing_findings-empty plan requirements xs)
    | inr (v, e) ↦ absurd (ground (arith, absent, has_key_of_lookup x requirements v e))
  ]
]

-- No required scope of the task is left out of the plan.
abbrev pub Covered : Dict Fields → Artifact → AgentPlan → Type 0
Covered requirements task plan =
    (scope : String)
    → has_key requirements scope ≡ true
    → contains task.scopes scope ≡ true
    → contains (plan_scopes plan) scope ≡ true

missing_iff :
    (requirements : Dict Fields) (task : Artifact) (plan : AgentPlan)
    → (is_empty
          (missing_findings plan requirements (missing_scopes requirements task plan)).mismatches
        ≡ true)
      ↔ Covered requirements task plan
unfolding missing_scopes
missing_iff requirements task plan =
    let left : List String = diff (inter (keys requirements) task.scopes) (plan_scopes plan) in
    let p : String → Bool = λ x. not (has_key requirements x) in
    let e =
      missing_findings-empty plan requirements (sort_texts left) ∙ all-sort_by text_le p left in
    let inside : (x : String)
        → contains left x ≡ (
            contains (inter (keys requirements) task.scopes) x
            && not (contains (plan_scopes plan) x)) =
      λ x. contains-diff (inter (keys requirements) task.scopes) (plan_scopes plan) x in
    (
      λ h scope required wanted. elim (Bool-cases (contains left scope)) [
        | inl m ↦ absurd (ground (arith, required, (all_iff p left).0 (sym e ∙ h) scope m))
        | inr m ↦ ground (
          arith,
          m,
          required,
          wanted,
          inside scope,
          contains-inter (keys requirements) task.scopes scope,
        )
      ],
      λ covered.
          e
          ∙ (all_iff p left).1 (λ x m. elim (Bool-cases (has_key requirements x)) [
            | inr absent ↦ ground (arith, absent)
            | inl there ↦ absurd (
                ground (
                  arith,
                  m,
                  inside x,
                  covered x there,
                  contains-inter (keys requirements) task.scopes x,
                ))
          ]),
    )

agrees_on : PlanAction → Dict Fields → String → Bool
agrees_on action requirements scope = elim (lookup scope requirements) [
  | none ↦ true
  | some expected ↦ eq_fields (project action.attributes expected) expected
]

scope_findings-empty :
    (action : PlanAction) (requirements : Dict Fields) (xs : List String)
    → is_empty (scope_findings action requirements xs).mismatches
      ≡ all (agrees_on action requirements) xs
unfolding scope_findings agrees_on
scope_findings-empty action requirements [] = refl
scope_findings-empty action requirements (x ∷ xs) = elim (Option-cases (lookup x requirements)) [
  | inl e ↦ ground (arith, e, scope_findings-empty action requirements xs)
  | inr (v, e) ↦ elim (Bool-cases (eq_fields (project action.attributes v) v)) [
    | inl same ↦ ground (arith, e, same, scope_findings-empty action requirements xs)
    | inr differs ↦ ground (arith, e, differs)
  ]
]

reference_iff :
    (s : Store) (action : PlanAction) (v : Value)
    → (is_empty (reference_findings action v (referenced_task s v)).mismatches ≡ true)
      ↔ NamesTask s v
unfolding reference_findings reference_actual
reference_iff s action v = elim (Option-cases (referenced_task s v)) [
  | inl missing ↦
      (λ h. absurd (ground (arith, h, missing)), λ n. absurd (ground (arith, n.1, missing)))
  | inr (t, found) ↦ (
    λ h. (t, found, ground (arith, h, found), ground (arith, h, found)),
    λ (t', found', kind, valid).
        let same : t' ≡ t = ground (arith, found, found') in
        let kind' : is_task t.kind ≡ true =
          ap (λ (x : Artifact). is_task x.kind) (sym same) ∙ kind in
        let valid' : is_valid t.validity ≡ true =
          ap (λ (x : Artifact). is_valid x.validity) (sym same) ∙ valid in
        ground (arith, found, kind', valid'),
  )
]

action_iff :
    (s : Store) (requirements : Dict Fields) (action : PlanAction)
    → (is_empty (action_findings s requirements action).mismatches ≡ true)
      ↔ Fits s requirements action
unfolding action_findings agrees_on
action_iff s requirements action =
    let scoped = scope_findings-empty action requirements action.scopes in
    let every = all_iff (agrees_on action requirements) action.scopes in
    let agrees : (all (agrees_on action requirements) action.scopes ≡ true)
        → (scope : String) (expected : Fields) → contains action.scopes scope ≡ true
        → lookup scope requirements ≡ some expected
        → eq_fields (project action.attributes expected) expected ≡ true =
      λ h scope expected m e. ground (arith, e, every.0 h scope m) in
    let every_scope : Fits s requirements action
        → all (agrees_on action requirements) action.scopes ≡ true =
      λ f. every.1 (λ x m. elim (Option-cases (lookup x requirements)) [
        | inl e ↦ ground (arith, e)
        | inr (v, e) ↦ ground (arith, e, f.agrees x v m e)
      ]) in
    elim (Option-cases (find "task_id" action.attributes)) [
      | inl e ↦ (
        λ h. record {
          reference = λ v found. absurd (ground (arith, e, found));
          agrees = agrees (ground (arith, e, h, scoped));
        },
        λ f. ground (arith, e, scoped, every_scope f),
      )
      | inr (v, e) ↦
          let split =
            is_empty-append (reference_findings action v (referenced_task s v)).mismatches
              (scope_findings action requirements action.scopes).mismatches in
          (
            λ h. record {
              reference = λ v' found.
                  let same : v ≡ v' = ground (arith, e, found) in
                  subst (NamesTask s) same
                    ((reference_iff s action v).0 (ground (arith, e, h, split)));
              agrees = agrees (ground (arith, e, h, split, scoped));
            },
            λ f. ground (
              arith,
              e,
              split,
              scoped,
              every_scope f,
              (reference_iff s action v).1 (f.reference v e),
            ),
          )
    ]

actions_iff :
    (s : Store) (requirements : Dict Fields) (actions : List PlanAction)
    → (is_empty (actions_findings s requirements actions).mismatches ≡ true)
      ↔ Each (Fits s requirements) actions
unfolding actions_findings
actions_iff s requirements [] = (λ h. tt, λ h. refl)
actions_iff s requirements (action ∷ rest) =
    let split =
      is_empty-append (action_findings s requirements action).mismatches
        (actions_findings s requirements rest).mismatches in
    (
      λ h. (
        (action_iff s requirements action).0 (ground (arith, h, split)),
        (actions_iff s requirements rest).0 (ground (arith, h, split)),
      ),
      λ h. ground (
        arith,
        split,
        (action_iff s requirements action).1 h.0,
        (actions_iff s requirements rest).1 h.1,
      ),
    )

pub plan_findings_iff :
    (s : Store) (requirements : Dict Fields) (task : Artifact) (plan : AgentPlan)
    → (is_empty (plan_findings s requirements task plan).mismatches ≡ true)
      ↔ (Covered requirements task plan × Each (Fits s requirements) plan.actions)
unfolding plan_findings
plan_findings_iff s requirements task plan =
    let split =
      is_empty-append
        (missing_findings plan requirements (missing_scopes requirements task plan)).mismatches
        (actions_findings s requirements plan.actions).mismatches in
    (
      λ h. (
        (missing_iff requirements task plan).0 (ground (arith, h, split)),
        (actions_iff s requirements plan.actions).0 (ground (arith, h, split)),
      ),
      λ h. ground (
        arith,
        split,
        (missing_iff requirements task plan).1 h.0,
        (actions_iff s requirements plan.actions).1 h.1,
      ),
    )
