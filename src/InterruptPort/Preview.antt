-- ===== src/InterruptPort/Preview.antt =====
-- The preview of an interrupt.
use writ_ai.Prelude.{
  ◌≡◌, Option, none, some, arith, is_empty, eq_iff, Bool-cases, Option-cases, inl, inr,
}
use writ_ai.Exec.{ok, Result-cases}
use writ_ai.Domain.{InvalidationReport}
use writ_ai.Supervisor.{WorkspaceSupervisor}
use writ_ai.Interrupts.{InterruptRequest, InterruptResult}
use writ_ai.Workspaces.{LiveWorkspaceRecord, Document, get_record}
use writ_ai.InterruptPort.{
  SupervisorRuntimeAdapter, apply, apply_to, hook_runtime_name, interrupt, label, partition_for,
  preview, recorded, report_for,
}

module _ (runtime : SupervisorRuntimeAdapter)
    (hook : runtime.adapter_name ≡ hook_runtime_name) where
  apply_to-ok :
      (request : InterruptRequest) (r : InterruptResult) (report : Option InvalidationReport)
      (s : WorkspaceSupervisor)
      → (t : WorkspaceSupervisor) × (apply_to runtime request r report s ≡ ok t)
  unfolding apply_to label
  apply_to-ok request r report s =
      let named = (eq_iff runtime.adapter_name hook_runtime_name).1 hook in
      elim (Result-cases (apply_to runtime request r report s)) [
        | inl (t, done) ↦ (t, done)
        | inr (e, failed) ↦ absurd (elim (Bool-cases (is_empty r.interrupted_assignment_ids)) [
          | inl nobody ↦ ground (arith, failed, nobody)
          | inr somebody ↦ ground (arith, failed, somebody, named)
        ])
      ]

  apply-ok :
      (w : LiveWorkspaceRecord) (request : InterruptRequest) (r : InterruptResult)
      (report : Option InvalidationReport)
      → (changed : LiveWorkspaceRecord) × (apply runtime w request r report ≡ ok changed)
  unfolding apply
  apply-ok w request r report = elim (Option-cases w.supervisor) [
    | inl nobody ↦ (w, ground (arith, nobody))
    | inr (s, there) ↦
        let (t, done) = apply_to-ok request r report s in
        (record w { supervisor = some t }, ground (arith, there, done))
  ]

  -- With the runtime that the hooks enforce, the preview of an interrupt answers what the
  -- interrupt would answer at that moment, its errors included.
  pub preview_agrees :
      (request : InterruptRequest) (document : Document)
      → preview request document ≡ (interrupt runtime request document).0
  unfolding preview interrupt
  preview_agrees request document = elim (Result-cases (get_record request.workspace_id document)) [
    | inr (e, missing) ↦ ground (arith, missing)
    | inl (w, found) ↦ elim (Result-cases (recorded w.supervisor request)) [
      | inr (e, refused) ↦ ground (arith, found, refused)
      | inl (some r, seen) ↦ ground (arith, found, seen)
      | inl (none, unseen) ↦
          let (changed, done) =
            apply-ok w request (partition_for w request)
              (report_for w.invalidation_report request.decision_id) in
          ground (arith, found, unseen, done)
    ]
  ]
