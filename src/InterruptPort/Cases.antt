-- ===== src/InterruptPort/Cases.antt =====
-- What a successful interrupt of the port went through, and the stored record behind it.
use writ_ai.Prelude.{
  String, false, ◌==◌, ◌≡◌, refl, sym, ap, ◌∙◌, subst, [], ◌∷◌, ◌++◌, map, Option, none, some,
  is_empty, arith, eq_iff, eq_refl, Bool-cases, Option-cases, inl, inr, ◌⊎◌,
}
use writ_ai.Exec.{ok, Result-cases}
use writ_ai.Domain.{InvalidationReport}
use writ_ai.Supervisor.{WorkspaceSupervisor}
use writ_ai.Interrupts.{InterruptRequest, InterruptResult}
use writ_ai.Workspaces.{LiveWorkspaceRecord, Document, get_record, put_record}
use writ_ai.InterruptPort.{
  SupervisorRuntimeAdapter, applied, apply, apply_to, hook_runtime_name, interrupt, label,
  partition_for, recorded, report_for, stop_target,
}

pub get_record-id :
    (k : String) (w : LiveWorkspaceRecord) (document : Document)
    → get_record k document ≡ ok w
    → w.id ≡ k
unfolding get_record
get_record-id k w [] found = absurd (ground (arith, found))
get_record-id k w (u ∷ rest) found = elim (Bool-cases (u.id == k)) [
  | inl same ↦
      let itself : u ≡ w = ground (arith, found, same) in
      ap (λ (x : LiveWorkspaceRecord). x.id) (sym itself) ∙ (eq_iff u.id k).0 same
  | inr other ↦ get_record-id k w rest (ground (arith, found, other))
]

pub get_record-put_record :
    (w v : LiveWorkspaceRecord) (document : Document)
    → get_record w.id document ≡ ok v
    → get_record w.id (put_record w.id w document) ≡ ok w
unfolding get_record put_record
get_record-put_record w v [] found = absurd (ground (arith, found))
get_record-put_record w v (u ∷ rest) found =
    ground (arith, found, eq_refl w.id, get_record-put_record w v rest)

pub get_record-put_other :
    (k : String) (w : LiveWorkspaceRecord) (document : Document)
    → (w.id == k) ≡ false
    → get_record k (put_record w.id w document) ≡ get_record k document
unfolding get_record put_record
get_record-put_other k w [] other = refl
get_record-put_other k w (u ∷ rest) other =
    ground (arith, other, get_record-put_other k w rest other, eq_iff u.id w.id)

pub put_record_same :
    (w : LiveWorkspaceRecord) (document : Document)
    → get_record w.id document ≡ ok w
    → put_record w.id w document ≡ document
unfolding get_record put_record
put_record_same w [] found = refl
put_record_same w (u ∷ rest) found = ground (arith, found, put_record_same w rest)

pub stored_again :
    (request : InterruptRequest) (document : Document) (w changed : LiveWorkspaceRecord)
    → get_record request.workspace_id document ≡ ok w
    → changed.id ≡ w.id
    → get_record request.workspace_id (put_record changed.id changed document) ≡ ok changed
stored_again request document w changed found same =
    let named : changed.id ≡ request.workspace_id =
      same ∙ get_record-id request.workspace_id w document found in
    subst (λ (k : String). get_record k (put_record changed.id changed document) ≡ ok changed) named
      (get_record-put_record changed w document
        (subst (λ (k : String). get_record k document ≡ ok w) (sym named) found))

module _ (runtime : SupervisorRuntimeAdapter) (request : InterruptRequest) where
  -- The interrupt was recorded before, or it was worked out and stored now.
  abbrev pub Went : InterruptResult → LiveWorkspaceRecord → Document → Document → Type 0
  Went r w document after =
      ((recorded w.supervisor request ≡ ok (some r)) × (after ≡ document))
      ⊎ ((changed : LiveWorkspaceRecord) × (recorded w.supervisor request ≡ ok none)
          × (partition_for w request ≡ r)
          × (apply runtime w request r (report_for w.invalidation_report request.decision_id)
              ≡ ok changed)
          × (after ≡ put_record changed.id changed document))

  pub interrupt-cases :
      (document after : Document) (r : InterruptResult)
      → interrupt runtime request document ≡ (ok r, after)
      → (w : LiveWorkspaceRecord) × (get_record request.workspace_id document ≡ ok w)
        × Went r w document after
  unfolding interrupt
  interrupt-cases document after r ran =
      elim (Result-cases (get_record request.workspace_id document)) [
        | inr (e, missing) ↦ absurd (ground (arith, ran, missing))
        | inl (w, found) ↦ elim (Result-cases (recorded w.supervisor request)) [
          | inr (e, refused) ↦ absurd (ground (arith, ran, found, refused))
          | inl (some q, seen) ↦
              (w, found, inl (ground (arith, ran, found, seen), ground (arith, ran, found, seen)))
          | inl (none, unseen) ↦
              let report = report_for w.invalidation_report request.decision_id in
              let q = partition_for w request in
              elim (Result-cases (apply runtime w request q report)) [
                | inr (e, failed) ↦ absurd (ground (arith, ran, found, unseen, failed))
                | inl (changed, done) ↦
                    let same : q ≡ r = ground (arith, ran, found, unseen, done) in
                    let left : after ≡ put_record changed.id changed document =
                      ground (arith, ran, found, unseen, done) in
                    (
                      w,
                      found,
                      inr (
                        changed,
                        unseen,
                        same,
                        subst
                            (λ (x : InterruptResult). apply runtime w request x report ≡ ok changed)
                            same done,
                        left,
                      ),
                    )
              ]
        ]
      ]

  -- An answered interrupt that was not recorded before was worked out and stored now.
  pub interrupt-fresh :
      (document after : Document) (r : InterruptResult) (w : LiveWorkspaceRecord)
      → interrupt runtime request document ≡ (ok r, after)
      → get_record request.workspace_id document ≡ ok w
      → recorded w.supervisor request ≡ ok none
      → (changed : LiveWorkspaceRecord) × (apply runtime w request
            (partition_for w request)
            (report_for w.invalidation_report request.decision_id)
          ≡ ok changed)
        × (after ≡ put_record changed.id changed document)
  unfolding interrupt
  interrupt-fresh document after r w ran found unseen =
      let report = report_for w.invalidation_report request.decision_id in
      elim (Result-cases (apply runtime w request (partition_for w request) report)) [
        | inr (e, failed) ↦ absurd (ground (arith, ran, found, unseen, failed))
        | inl (changed, done) ↦ (changed, done, ground (arith, ran, found, unseen, done))
      ]

  -- A supervisor whose interrupt is applied.
  abbrev pub Applies :
      InterruptResult
      → Option InvalidationReport
      → WorkspaceSupervisor
      → WorkspaceSupervisor
      → Type 0
  Applies r report s t =
      (t.assignments ≡ map (stop_target runtime request r report) s.assignments)
      × (t.applied_interrupts ≡ s.applied_interrupts ++ applied request r ∷ [])

  apply_to-Applies :
      (r : InterruptResult) (report : Option InvalidationReport) (s t : WorkspaceSupervisor)
      → apply_to runtime request r report s ≡ ok t
      → Applies r report s t
  unfolding apply_to label
  apply_to-Applies r report s t done = elim (Bool-cases (is_empty r.interrupted_assignment_ids)) [
    | inl nobody ↦ (ground (arith, done, nobody), ground (arith, done, nobody))
    | inr somebody ↦ elim (Bool-cases (runtime.adapter_name == hook_runtime_name)) [
      | inl hook ↦ (ground (arith, done, somebody, hook), ground (arith, done, somebody, hook))
      | inr other ↦ absurd (ground (arith, done, somebody, other))
    ]
  ]

  pub apply-cases :
      (w changed : LiveWorkspaceRecord) (r : InterruptResult) (report : Option InvalidationReport)
      → apply runtime w request r report ≡ ok changed
      → ((w.supervisor ≡ none) × (changed ≡ w))
        ⊎ ((s t : WorkspaceSupervisor) × (w.supervisor ≡ some s)
            × (changed ≡ record w { supervisor = some t })
            × Applies r report s t)
  unfolding apply
  apply-cases w changed r report done = elim (Option-cases w.supervisor) [
    | inl nobody ↦ inl (nobody, ground (arith, done, nobody))
    | inr (s, there) ↦ elim (Result-cases (apply_to runtime request r report s)) [
      | inr (e, failed) ↦ absurd (ground (arith, done, there, failed))
      | inl (t, went) ↦
          inr (s, t, there, ground (arith, done, there, went), apply_to-Applies r report s t went)
    ]
  ]
