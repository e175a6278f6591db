-- ===== src/InterruptPort/Later.antt =====
-- An interrupt that is repeated after other writers came between.
use writ_ai.Prelude.{
  String, false, ◌==◌, ◌≡◌, refl, sym, ap, ◌∙◌, subst, List, [], ◌∷◌, ◌++◌, none, some, arith,
  eq_iff, Bool-cases, Option-cases, inl, inr, ◌⊎◌,
}
use mathlib.Core.List.{append-nil}
use writ_ai.Exec.{ok, Result-cases}
use writ_ai.Supervisor.{AppliedInterrupt, WorkspaceSupervisor}
use writ_ai.Interrupts.{InterruptRequest, InterruptResult}
use writ_ai.Workspaces.{LiveWorkspaceRecord, Document, get_record, is_stored, put_record}
use writ_ai.InterruptPort.{
  SupervisorRuntimeAdapter, applied, apply, interrupt, partition_for, recorded, recorded_in,
  report_for,
}
use writ_ai.InterruptPort.Cases.{apply-cases, get_record-id, get_record-put_other, stored_again}
use writ_ai.InterruptPort.Replay.{interrupt-Settled}

-- The interrupts that a record holds as applied.
abbrev pub on_record : LiveWorkspaceRecord → List AppliedInterrupt
on_record w = elim w.supervisor [ none ↦ [] | some s ↦ s.applied_interrupts ]

-- What other writers make of the stored records: further interrupts, by any runtime and with any outcome,
-- changes of a record that keep the applied interrupts, such as a redirect or a resumed
-- assignment, and new records.
pub data Later : Document → Document → Type 0 where
  now : {document : Document} → Later document document
  interrupts :
      {before document : Document} (runtime : SupervisorRuntimeAdapter) (request : InterruptRequest)
      → Later before document
      → Later before (interrupt runtime request document).1
  writes :
      {before document : Document} (w v : LiveWorkspaceRecord)
      → get_record v.id document ≡ ok w
      → on_record v ≡ on_record w
      → Later before document
      → Later before (put_record v.id v document)
  adds :
      {before document : Document} (w : LiveWorkspaceRecord)
      → is_stored w.id document ≡ false
      → Later before document
      → Later before (document ++ w ∷ [])

recorded-on_record :
    (w : LiveWorkspaceRecord) (request : InterruptRequest)
    → recorded w.supervisor request ≡ recorded_in (on_record w) request
unfolding recorded recorded_in
recorded-on_record w request = elim (Option-cases w.supervisor) [
  | inl nobody ↦ ground (arith, nobody)
  | inr (s, there) ↦ ground (arith, there)
]

get_record-append :
    (k : String) (w v : LiveWorkspaceRecord) (document : Document)
    → get_record k document ≡ ok w
    → get_record k (document ++ v ∷ []) ≡ ok w
unfolding get_record
get_record-append k w v [] found = absurd (ground (arith, found))
get_record-append k w v (u ∷ rest) found = ground (arith, found, get_record-append k w v rest)

-- What an interrupt leaves: the document, or an entry more in one record of it.
abbrev Leaves : Document → Document → Type 0
Leaves document after =
    (after ≡ document)
    ⊎ ((w changed : LiveWorkspaceRecord) × (more : List AppliedInterrupt) × (get_record changed.id
            document
          ≡ ok w)
        × (on_record changed ≡ on_record w ++ more)
        × (after ≡ put_record changed.id changed document))

apply-Leaves :
    (runtime : SupervisorRuntimeAdapter) (request : InterruptRequest) (document : Document)
    (w changed : LiveWorkspaceRecord) (r : InterruptResult)
    → get_record request.workspace_id document ≡ ok w
    → apply runtime w request r (report_for w.invalidation_report request.decision_id) ≡ ok changed
    → Leaves document (put_record changed.id changed document)
apply-Leaves runtime request document w changed r found done =
    let report = report_for w.invalidation_report request.decision_id in
    let stored : get_record w.id document ≡ ok w =
      subst (λ (k : String). get_record k document ≡ ok w)
        (sym (get_record-id request.workspace_id w document found)) found in
    elim (apply-cases runtime request w changed r report done) [
      | inl (nobody, kept) ↦ inr (
        w,
        changed,
        [],
        subst (λ (x : LiveWorkspaceRecord). get_record x.id document ≡ ok w) (sym kept) stored,
        ap on_record kept ∙ sym (append-nil (on_record w)),
        refl,
      )
      | inr (s, t, there, kept, moved) ↦ inr (
        w,
        changed,
        applied request r ∷ [],
        subst (λ (k : String). get_record k document ≡ ok w)
            (sym (ap (λ (x : LiveWorkspaceRecord). x.id) kept)) stored,
        ap on_record kept ∙ (moved.1 ∙ ground (arith, there)),
        refl,
      )
    ]

interrupt-Leaves :
    (runtime : SupervisorRuntimeAdapter) (request : InterruptRequest) (document : Document)
    → Leaves document (interrupt runtime request document).1
unfolding interrupt
interrupt-Leaves runtime request document =
    let after = (interrupt runtime request document).1 in
    elim (Result-cases (get_record request.workspace_id document)) [
      | inr (e, missing) ↦ inl (ground (arith, missing))
      | inl (w, found) ↦ elim (Result-cases (recorded w.supervisor request)) [
        | inr (e, refused) ↦ inl (ground (arith, found, refused))
        | inl (some q, seen) ↦ inl (ground (arith, found, seen))
        | inl (none, unseen) ↦
            let report = report_for w.invalidation_report request.decision_id in
            let q = partition_for w request in
            elim (Result-cases (apply runtime w request q report)) [
              | inr (e, failed) ↦ inl (ground (arith, found, unseen, failed))
              | inl (changed, done) ↦
                  let left : put_record changed.id changed document ≡ after =
                    ground (arith, found, unseen, done) in
                  subst (Leaves document) left
                    (apply-Leaves runtime request document w changed q found done)
            ]
      ]
    ]

module _ (request : InterruptRequest) (r : InterruptResult) where
  recorded_in-kept :
      (xs ys : List AppliedInterrupt)
      → recorded_in xs request ≡ ok (some r)
      → recorded_in (xs ++ ys) request ≡ ok (some r)
  unfolding recorded_in
  recorded_in-kept [] ys seen = absurd (ground (arith, seen))
  recorded_in-kept (x ∷ xs) ys seen = ground (arith, seen, recorded_in-kept xs ys)

  -- The answer is on record.
  abbrev IsOnRecord : Document → Type 0
  IsOnRecord document =
      (w : LiveWorkspaceRecord) × (get_record request.workspace_id document ≡ ok w)
      × (recorded_in (on_record w) request ≡ ok (some r))

  put_record-IsOnRecord :
      (w v : LiveWorkspaceRecord) (more : List AppliedInterrupt) (document : Document)
      → get_record v.id document ≡ ok w
      → on_record v ≡ on_record w ++ more
      → IsOnRecord document
      → IsOnRecord (put_record v.id v document)
  put_record-IsOnRecord w v more document found extends (u, there, seen) =
      elim (Bool-cases (v.id == request.workspace_id)) [
        | inr other ↦ (u, get_record-put_other request.workspace_id v document other ∙ there, seen)
        | inl here ↦
            let named : v.id ≡ request.workspace_id = (eq_iff v.id request.workspace_id).0 here in
            let found' : get_record request.workspace_id document ≡ ok w =
              subst (λ (k : String). get_record k document ≡ ok w) named found in
            let same : u ≡ w = ground (arith, there, found') in
            (
              v,
              stored_again request document w v found'
                  (named ∙ sym (get_record-id request.workspace_id w document found')),
              ap (λ (xs : List AppliedInterrupt). recorded_in xs request) extends
                  ∙ recorded_in-kept (on_record w) more (
                      subst
                        (λ (x : LiveWorkspaceRecord).
                          recorded_in (on_record x) request ≡ ok (some r))
                        same seen),
            )
      ]

  Later-IsOnRecord :
      {before after : Document} → Later before after → IsOnRecord before → IsOnRecord after
  Later-IsOnRecord now h = h
  Later-IsOnRecord (interrupts {document = document} runtime other later) h =
      let h' = Later-IsOnRecord later h in
      elim (interrupt-Leaves runtime other document) [
        | inl same ↦ subst IsOnRecord (sym same) h'
        | inr (w, changed, more, found, extends, left) ↦
            subst IsOnRecord (sym left)
              (put_record-IsOnRecord w changed more document found extends h')
      ]
  Later-IsOnRecord (writes {document = document} w v found kept later) h =
      put_record-IsOnRecord w v [] document found (kept ∙ sym (append-nil (on_record w)))
        (Later-IsOnRecord later h)
  Later-IsOnRecord (adds w fresh later) h =
      let (u, there, seen) = Later-IsOnRecord later h in
      (u, get_record-append request.workspace_id u w _ there, seen)

-- An interrupt of a workspace with a supervisor that was answered and is sent again gets the same answer
-- and changes nothing, by whatever runtime and however late: other interrupts, of this and other
-- workspaces, may have come between, answered or not, as may new workspaces and any writes that keep
-- the record of applied interrupts, such as a redirected or resumed assignment.
pub interrupt_repeats_later :
    (runtime again : SupervisorRuntimeAdapter) (request : InterruptRequest)
    (document after later : Document) (r : InterruptResult) (w : LiveWorkspaceRecord)
    (s : WorkspaceSupervisor)
    → interrupt runtime request document ≡ (ok r, after)
    → get_record request.workspace_id after ≡ ok w
    → w.supervisor ≡ some s
    → Later after later
    → interrupt again request later ≡ (ok r, later)
unfolding interrupt
interrupt_repeats_later runtime again request document after later r w s ran found there between =
    let (v, found', settled) = interrupt-Settled runtime request document after r ran in
    let same : v ≡ w = ground (arith, found, found') in
    elim settled [
      | inl (nobody, left) ↦ absurd (ground (arith, nobody, same, there))
      | inr (t, there', seen) ↦
          let on : recorded_in (on_record v) request ≡ ok (some r) = ground (arith, there', seen) in
          let (u, stored, kept) = Later-IsOnRecord request r between (v, found', on) in
          ground (arith, stored, recorded-on_record u request ∙ kept)
    ]
