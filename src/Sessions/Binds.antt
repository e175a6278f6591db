-- ===== src/Sessions/Binds.antt =====
-- What a session is bound to.
use writ_ai.Prelude.{
  String, Bool, true, false, ◌&&◌, ◌==◌, ◌≡◌, refl, sym, ap, ◌∙◌, subst, ◌⊎◌, inl, inr, List, [],
  ◌∷◌, Option, none, some, filter, is_empty, arith, Bool-cases, Option-cases,
}
use writ_ai.Sessions.{
  AttachFileResult, ClaudeCodeSessionBinding, ExplicitSessionAttachment, SessionBindingSource,
  SupervisorAssignmentTarget, from_target,
}
use writ_ai.Sessions.Markers.{branch_mentions_task}
use writ_ai.Sessions.Resolve.{
  Session, bound, by_matches, note_marker, resolve_binding, resolve_by_branch_then_task_file,
  resolve_by_task_file, unbound, unresolved, with_skipped_marker,
}

-- The session asks for an assignment, by an explicit attachment or by a marker that was read.
abbrev pub asks : Option ExplicitSessionAttachment → AttachFileResult → Bool
asks (some attachment) marker = true
asks none marker = elim marker.assignment_id [ none ↦ false | some id ↦ marker.present ]

-- The candidates that an attachment or a marker names.
abbrev pub is_attached :
    Option ExplicitSessionAttachment → AttachFileResult → SupervisorAssignmentTarget → Bool
is_attached (some attachment) marker t =
    (t.workspace_id == attachment.workspace_id) && (t.assignment.id == attachment.assignment_id)
is_attached none marker t = elim marker.assignment_id [
  | none ↦ false
  | some id ↦ t.assignment.id == id
]

-- The only element, if there is exactly one.
abbrev pub only : List SupervisorAssignmentTarget → Option SupervisorAssignmentTarget
only [] = none
only (t ∷ []) = some t
only (t ∷ u ∷ ts) = none

-- The candidates whose task the branch name mentions.
abbrev pub mentioned : Session → List SupervisorAssignmentTarget → List SupervisorAssignmentTarget
mentioned s candidates =
    filter (λ (t : SupervisorAssignmentTarget). branch_mentions_task s.branch t.assignment.task_id)
      candidates

-- The candidates of the task that the task file names.
abbrev pub filed : Option String → List SupervisorAssignmentTarget → List SupervisorAssignmentTarget
filed none candidates = []
filed (some id) candidates =
    filter (λ (t : SupervisorAssignmentTarget). t.assignment.task_id == id) candidates

-- Bound by this rule to the only one of these candidates.
abbrev pub BoundTo :
    SessionBindingSource → List SupervisorAssignmentTarget → ClaudeCodeSessionBinding → Type 0
BoundTo source ts b =
    (t : SupervisorAssignmentTarget) × (b.source ≡ source)
    × (ts ≡ t ∷ [])
    × (b.assignment ≡ some (from_target t))

-- A session that asked: the only candidate it asked for, or unresolved as there is none or several.
abbrev pub OfAsking : List SupervisorAssignmentTarget → ClaudeCodeSessionBinding → Type 0
OfAsking ts b =
    BoundTo SessionBindingSource.explicit ts b
    ⊎ ((b.source ≡ SessionBindingSource.unresolved_attachment)
        × (b.assignment ≡ none)
        × (only ts ≡ none))

-- A session that did not ask: the branch, then the task file if the branch mentions no candidate, or
-- unbound as the rule that decided has none or several.
abbrev pub OfRules :
    List SupervisorAssignmentTarget
    → List SupervisorAssignmentTarget
    → ClaudeCodeSessionBinding
    → Type 0
OfRules by_branch by_file b =
    BoundTo SessionBindingSource.branch by_branch b
    ⊎ (((by_branch ≡ []) × BoundTo SessionBindingSource.task_file by_file b)
        ⊎ ((b.source ≡ SessionBindingSource.unbound)
            × (b.assignment ≡ none)
            × (only by_branch ≡ none)
            × ((is_empty by_branch ≡ false) ⊎ (only by_file ≡ none))))

module _ (s : Session) (candidates : List SupervisorAssignmentTarget)
    (attachment : Option ExplicitSessionAttachment) (marker : AttachFileResult) where
  -- What a binding comes to, by whether the session asked for an assignment.
  abbrev pub Outcome : Option String → ClaudeCodeSessionBinding → Type 0
  Outcome task_id b =
      ((asks attachment marker ≡ true)
        × OfAsking (filter (is_attached attachment marker) candidates) b)
      ⊎ ((asks attachment marker ≡ false)
          × OfRules (mentioned s candidates) (filed task_id candidates) b)

by_matches-OfAsking :
    (ts : List SupervisorAssignmentTarget) (s : Session) (detail nothing several : String)
    → OfAsking ts (
        by_matches ts
          (λ t. bound s SessionBindingSource.explicit t detail)
          (unresolved s nothing)
          (unresolved s several))
by_matches-OfAsking [] s detail nothing several = inr (refl, refl, refl)
by_matches-OfAsking (t ∷ []) s detail nothing several = inl (t, refl, refl, refl)
by_matches-OfAsking (t ∷ u ∷ ts) s detail nothing several = inr (refl, refl, refl)

by_file-OfRules :
    (ts : List SupervisorAssignmentTarget) (s : Session) (detail nothing several : String)
    → OfRules [] ts (
        by_matches ts
          (λ t. bound s SessionBindingSource.task_file t detail)
          (unbound s nothing)
          (unbound s several))
by_file-OfRules [] s detail nothing several = inr (inr (refl, refl, refl, inr refl))
by_file-OfRules (t ∷ []) s detail nothing several = inr (inl (refl, (t, refl, refl, refl)))
by_file-OfRules (t ∷ u ∷ ts) s detail nothing several = inr (inr (refl, refl, refl, inr refl))

resolve_by_task_file-OfRules :
    (s : Session) (candidates : List SupervisorAssignmentTarget) (task_id : Option String)
    → OfRules [] (filed task_id candidates) (resolve_by_task_file s candidates task_id)
unfolding resolve_by_task_file
resolve_by_task_file-OfRules s candidates none = inr (inr (refl, refl, refl, inr refl))
resolve_by_task_file-OfRules s candidates (some id) =
    by_file-OfRules (filed (some id) candidates) s _ _ _

by_branch-OfRules :
    (ts files : List SupervisorAssignmentTarget) (s : Session) (detail several : String)
    (later : ClaudeCodeSessionBinding)
    → OfRules [] files later
    → OfRules ts files (
        by_matches ts (λ t. bound s SessionBindingSource.branch t detail) later (unbound s several))
by_branch-OfRules [] files s detail several later h = h
by_branch-OfRules (t ∷ []) files s detail several later h = inl (t, refl, refl, refl)
by_branch-OfRules (t ∷ u ∷ ts) files s detail several later h =
    inr (inr (refl, refl, refl, inl refl))

resolve_by_branch-OfRules :
    (s : Session) (candidates : List SupervisorAssignmentTarget) (task_id : Option String)
    → OfRules
        (mentioned s candidates)
        (filed task_id candidates)
        (resolve_by_branch_then_task_file s candidates task_id)
unfolding resolve_by_branch_then_task_file
resolve_by_branch-OfRules s candidates task_id =
    by_branch-OfRules (mentioned s candidates) (filed task_id candidates) s _ _ _
      (resolve_by_task_file-OfRules s candidates task_id)

note_marker-detail :
    (marker : AttachFileResult) (b : ClaudeCodeSessionBinding)
    → (d : String) × (note_marker marker b ≡ record b { detail = d })
unfolding note_marker
note_marker-detail marker b = elim (Bool-cases marker.present) [
  | inr away ↦ (b.detail, ground (arith, away))
  | inl there ↦ elim (Option-cases marker.detail) [
    | inl silent ↦ (b.detail, ground (arith, there, silent))
    | inr (reason, speaks) ↦ (with_skipped_marker b.detail reason, ground (arith, there, speaks))
  ]
]

-- A session asks by an explicit attachment, or else by a marker file that names an assignment. If it asks,
-- it is bound by that rule to the only candidate that it asks for, or stays unresolved, without an
-- assignment, exactly as there is none or several. If it does not, it is bound by the branch rule to
-- the only candidate that the branch name mentions; if the branch mentions none, by the task file to
-- the only candidate of its task; and else, as the rule that decided has none or several, it is
-- unbound, without an assignment.
pub resolve_binding-Outcome :
    (s : Session) (candidates : List SupervisorAssignmentTarget)
    (attachment : Option ExplicitSessionAttachment) (marker : AttachFileResult)
    (task_id : Option String)
    → Outcome s candidates attachment marker task_id
        (resolve_binding s candidates attachment marker task_id)
unfolding resolve_binding
resolve_binding-Outcome s candidates (some attachment) marker task_id =
    inl
      (refl, by_matches-OfAsking (filter (is_attached (some attachment) marker) candidates) s _ _ _)
resolve_binding-Outcome s candidates none marker task_id =
    let Come = Outcome s candidates none marker task_id in
    let rules = resolve_by_branch_then_task_file s candidates task_id in
    let later = note_marker marker rules in
    let (d, noted) = note_marker-detail marker rules in
    let unasked : asks none marker ≡ false → Come later = λ quiet. inr (
      quiet,
      subst (OfRules (mentioned s candidates) (filed task_id candidates)) (sym noted)
          (resolve_by_branch-OfRules s candidates task_id),
    ) in
    elim (Option-cases marker.assignment_id) [
      | inl nothing ↦
          let step : resolve_binding s candidates none marker task_id ≡ later =
            ground (arith, nothing) in
          subst Come (sym step) (unasked (ground (arith, nothing)))
      | inr (id, named) ↦ elim (Bool-cases marker.present) [
        | inr away ↦
            let step : resolve_binding s candidates none marker task_id ≡ later =
              ground (arith, named, away) in
            subst Come (sym step) (unasked (ground (arith, named, away)))
        | inl there ↦
            let asked : asks none marker ≡ true = ground (arith, named, there) in
            let one = λ (t : SupervisorAssignmentTarget).
              bound s SessionBindingSource.explicit t
                "Bound by the repository .writai/attach file." in
            let missing =
              unresolved s ".writai/attach does not name an available live assignment." in
            let several =
              unresolved s ".writai/attach matches assignments in multiple workspaces." in
            let picks = λ (o : Option String).
              by_matches
                (filter
                  (λ (t : SupervisorAssignmentTarget). elim o [
                    | none ↦ false
                    | some i ↦ t.assignment.id == i
                  ])
                  candidates)
                one missing several in
            let step : resolve_binding s candidates none marker task_id ≡ picks (some id) =
              ground (arith, named, there) in
            subst Come (sym (step ∙ ap picks (sym named))) (
              inl
                (asked, by_matches-OfAsking (filter (is_attached none marker) candidates) s _ _ _))
      ]
    ]
