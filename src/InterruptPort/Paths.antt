-- ===== src/InterruptPort/Paths.antt =====
-- The provenance path of a stopped assignment.
use writ_ai.Prelude.{
  String, Bool, true, false, not, ◌&&◌, ◌||◌, ◌==◌, ◌≡◌, refl, ap, ◌∙◌, ◌⊎◌, inl, inr, List, [],
  ◌∷◌, Option, none, some, all, any, contains, length, leb, ltb, arith, Bool-cases, List-cases,
  if◌then◌else◌,
}
use writ_ai.Domain.{InvalidationPath, InvalidationReport}
use writ_ai.Supervisor.{SupervisorAssignment}
use writ_ai.Provenance.Primary.{In}
use writ_ai.InterruptPort.{longest_path, provenance_for, report_for, unless_empty}

-- The path goes through the task.
abbrev pub meets : String → InvalidationPath → Bool
meets task_id path = contains path.node_ids task_id

-- No path through the task has more nodes than these.
abbrev pub is_longest : String → List String → List InvalidationPath → Bool
is_longest task_id p paths =
    all (λ (q : InvalidationPath). not (meets task_id q) || leb (length q.node_ids) (length p))
      paths

-- The longest path of the report through the task, or the shared path if there is none.
abbrev pub IsPathOf : List InvalidationPath → String → List String → List String → Type 0
IsPathOf paths task_id shared p =
    ((any (meets task_id) paths ≡ false) × (p ≡ shared))
    ⊎ ((path : InvalidationPath) × In path paths
        × (meets task_id path ≡ true)
        × (p ≡ path.node_ids)
        × (is_longest task_id p paths ≡ true))

-- The same for what a workspace holds as its report, which counts if it is on this decision.
abbrev pub IsOwnPath :
    Option InvalidationReport → String → String → List String → List String → Type 0
IsOwnPath none decision_id task_id shared p = p ≡ shared
IsOwnPath (some report) decision_id task_id shared p =
    (((report.changed_decision_id == decision_id) ≡ false) × (p ≡ shared))
    ⊎ (((report.changed_decision_id == decision_id) ≡ true)
        × IsPathOf report.paths task_id shared p)

-- What the loop selects, from what was selected before.
abbrev Selects : String → List InvalidationPath → List String → List String → Type 0
Selects task_id paths selected p =
    ((p ≡ selected) × (is_longest task_id selected paths ≡ true))
    ⊎ ((path : InvalidationPath) × In path paths
        × (meets task_id path ≡ true)
        × (p ≡ path.node_ids)
        × (is_longest task_id path.node_ids paths ≡ true)
        × (ltb (length selected) (length path.node_ids) ≡ true))

longest_path-Selects :
    (task_id : String) (paths : List InvalidationPath) (selected : List String)
    → Selects task_id paths selected (longest_path task_id paths selected)
unfolding longest_path
longest_path-Selects task_id [] selected = inl (refl, refl)
longest_path-Selects task_id (path ∷ rest) selected =
    let b = meets task_id path && ltb (length selected) (length path.node_ids) in
    elim (Bool-cases b) [
      | inl taken ↦
          let step : longest_path task_id (path ∷ rest) selected
              ≡ longest_path task_id rest path.node_ids =
            ap (λ (c : Bool). longest_path task_id rest (if c then path.node_ids else selected))
              taken in
          elim (longest_path-Selects task_id rest path.node_ids) [
            | inl (same, longest) ↦ inr (
              path,
              inl refl,
              ground (arith, taken),
              step ∙ same,
              ground (arith, longest),
              ground (arith, taken),
            )
            | inr (q, there, hits, same, longest, longer) ↦ inr (
              q,
              inr there,
              hits,
              step ∙ same,
              ground (arith, longest, longer),
              ground (arith, taken, longer),
            )
          ]
      | inr left ↦
          let step : longest_path task_id (path ∷ rest) selected
              ≡ longest_path task_id rest selected =
            ap (λ (c : Bool). longest_path task_id rest (if c then path.node_ids else selected))
              left in
          elim (longest_path-Selects task_id rest selected) [
            | inl (same, longest) ↦ inl (step ∙ same, ground (arith, left, longest))
            | inr (q, there, hits, same, longest, longer) ↦
                inr (q, inr there, hits, step ∙ same, ground (arith, left, longest, longer), longer)
          ]
    ]

meets-none :
    (task_id : String) (paths : List InvalidationPath)
    → is_longest task_id [] paths ≡ true
    → any (meets task_id) paths ≡ false
meets-none task_id [] h = refl
meets-none task_id (path ∷ rest) h = elim (List-cases path.node_ids) [
  | inl empty ↦ ground (arith, empty, h, meets-none task_id rest)
  | inr (k, ks, more) ↦ ground (arith, more, h, meets-none task_id rest)
]

unless_empty-longer : (p shared : List String) → ltb 0 (length p) ≡ true → unless_empty p shared ≡ p
unless_empty-longer [] shared h = absurd (ground (arith, h))
unless_empty-longer (k ∷ ks) shared h = refl

longest_path-IsPathOf :
    (task_id : String) (paths : List InvalidationPath) (shared : List String)
    → IsPathOf paths task_id shared (unless_empty (longest_path task_id paths []) shared)
longest_path-IsPathOf task_id paths shared = elim (longest_path-Selects task_id paths []) [
  | inl (same, longest) ↦
      inl (meets-none task_id paths longest, ap (λ (p : List String). unless_empty p shared) same)
  | inr (path, there, hits, same, longest, longer) ↦
      let kept =
        ap (λ (p : List String). unless_empty p shared) same
        ∙ unless_empty-longer path.node_ids shared longer in
      inr (
        path,
        there,
        hits,
        kept,
        ap (λ (p : List String). is_longest task_id p paths) kept ∙ longest,
      )
]

pub provenance_for-IsOwnPath :
    (report : Option InvalidationReport) (decision_id : String) (a : SupervisorAssignment)
    (shared : List String)
    → IsOwnPath report decision_id a.task_id shared
        (provenance_for a (report_for report decision_id) shared)
unfolding provenance_for report_for
provenance_for-IsOwnPath none decision_id a shared = refl
provenance_for-IsOwnPath (some report) decision_id a shared =
    elim (Bool-cases (report.changed_decision_id == decision_id)) [
      | inl this ↦ inr (this, rw this (longest_path-IsPathOf a.task_id report.paths shared))
      | inr other ↦ inl (other, rw other refl)
    ]
