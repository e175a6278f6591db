-- ===== src/InterruptPort/Replay.antt =====
-- A repeated interrupt of the port.
use writ_ai.Prelude.{
  String, Bool, true, false, ◌==◌, ◌≡◌, refl, sym, ap, ◌∙◌, subst, List, [], ◌∷◌, ◌++◌, none, some,
  contains, fun_ext, all, contains-any, same_set, same_set_refl, subset, all_iff, arith, eq_iff,
  Bool-cases, Option-cases, inl, inr, ◌⊎◌,
}
use writ_ai.Prelude.Sorting.{all-sort_by, any-sort_by, sort_texts, text_le}
use writ_ai.Exec.{ok, err}
use writ_ai.Supervisor.{AppliedInterrupt, WorkspaceSupervisor}
use writ_ai.Interrupts.{InterruptRequest, InterruptResult}
use writ_ai.Workspaces.{LiveWorkspaceRecord, Document, get_record, put_record}
use writ_ai.InterruptPort.{
  SupervisorRuntimeAdapter, applied, interrupt, other_scopes, recorded, recorded_in,
}
use writ_ai.InterruptPort.Cases.{
  apply-cases, get_record-id, interrupt-cases, put_record_same, stored_again,
}

contains-sort_texts : (xs : List String) (k : String) → contains (sort_texts xs) k ≡ contains xs k
contains-sort_texts xs k =
    contains-any (sort_texts xs) k
    ∙ (any-sort_by text_le (λ x. x == k) xs ∙ sym (contains-any xs k))

same_set-sort_texts : (xs ys : List String) → same_set (sort_texts xs) ys ≡ same_set xs ys
same_set-sort_texts xs ys =
    let left : subset (sort_texts xs) ys ≡ subset xs ys = all-sort_by text_le (contains ys) xs in
    let right : subset ys (sort_texts xs) ≡ subset ys xs =
      ap (λ (p : String → Bool). all p ys) (fun_ext (contains-sort_texts xs)) in
    ground (arith, left, right)

subset_trans :
    (xs ys zs : List String) → subset xs ys ≡ true → subset ys zs ≡ true → subset xs zs ≡ true
subset_trans xs ys zs f g =
    (all_iff (contains zs) xs).1
      (λ x c. (all_iff (contains zs) ys).0 g x ((all_iff (contains ys) xs).0 f x c))

-- A set that equals the second of two unequal ones does not equal the first.
same_set_apart :
    (xs ys zs : List String)
    → same_set xs ys ≡ true
    → same_set ys zs ≡ false
    → same_set xs zs ≡ false
same_set_apart xs ys zs alike apart =
    ground (arith, alike, apart, subset_trans ys xs zs, subset_trans zs xs ys)

module _ (request : InterruptRequest) where
  recorded_in-append :
      (xs : List AppliedInterrupt) (e : AppliedInterrupt)
      → recorded_in xs request ≡ ok none
      → recorded_in (xs ++ e ∷ []) request ≡ recorded_in (e ∷ []) request
  unfolding recorded_in
  recorded_in-append [] e unseen = refl
  recorded_in-append (x ∷ xs) e unseen = ground (arith, unseen, recorded_in-append xs e)

  recorded_in-applied :
      (sent : InterruptRequest) (r : InterruptResult)
      → sent.decision_id ≡ request.decision_id
      → same_set sent.affected_scopes request.affected_scopes ≡ true
      → recorded_in (applied sent r ∷ []) request ≡ ok (some r)
  unfolding recorded_in
  recorded_in-applied sent r decision scopes = ground (
    arith,
    (eq_iff sent.decision_id request.decision_id).1 decision,
    same_set-sort_texts sent.affected_scopes request.affected_scopes,
    scopes,
  )

  recorded_in-other :
      (xs : List AppliedInterrupt) (other : InterruptRequest) (r : InterruptResult)
      → recorded_in xs request ≡ ok (some r)
      → other.decision_id ≡ request.decision_id
      → same_set request.affected_scopes other.affected_scopes ≡ false
      → recorded_in xs other ≡ err (other_scopes other.decision_id)
  unfolding recorded_in
  recorded_in-other [] other r seen decision scopes = absurd (ground (arith, seen))
  recorded_in-other (x ∷ xs) other r seen decision scopes =
      elim (Bool-cases (x.decision_id == request.decision_id)) [
        | inr different ↦ ground (arith, seen, different, decision, recorded_in-other xs other r)
        | inl same ↦ elim (Bool-cases (same_set x.affected_scopes request.affected_scopes)) [
          | inr unlike ↦ absurd (ground (arith, seen, same, unlike))
          | inl alike ↦
              let apart =
                same_set_apart x.affected_scopes request.affected_scopes other.affected_scopes alike
                  scopes in
              let named : (x.decision_id == other.decision_id) ≡ true =
                ap (λ (d : String). x.decision_id == d) decision ∙ same in
              ground (arith, named, apart)
        ]
      ]

  -- After an interrupt that was answered with `r`, the workspace has no supervisor, and nothing was
  -- stored, or its supervisor has the answer on record.
  abbrev pub Settled : InterruptResult → Document → Document → Type 0
  Settled r document after =
      (w : LiveWorkspaceRecord) × (get_record request.workspace_id after ≡ ok w)
      × (((w.supervisor ≡ none) × (after ≡ document))
          ⊎ ((s : WorkspaceSupervisor) × (w.supervisor ≡ some s)
              × (recorded_in s.applied_interrupts request ≡ ok (some r))))

module _ (runtime : SupervisorRuntimeAdapter) where
  pub interrupt-Settled :
      (request : InterruptRequest) (document after : Document) (r : InterruptResult)
      → interrupt runtime request document ≡ (ok r, after)
      → Settled request r document after
  unfolding recorded
  interrupt-Settled request document after r ran =
      let (w, found, went) = interrupt-cases runtime request document after r ran in
      elim went [
        | inl (seen, same) ↦ elim (Option-cases w.supervisor) [
          | inl nobody ↦ absurd (ground (arith, seen, nobody))
          | inr (s, there) ↦ (
            w,
            subst (λ (x : Document). get_record request.workspace_id x ≡ ok w) (sym same) found,
            inr (s, there, ground (arith, seen, there)),
          )
        ]
        | inr (changed, unseen, parted, done, left) ↦
            elim (apply-cases runtime request w changed r _ done) [
              | inl (nobody, kept) ↦
                  let here : get_record w.id document ≡ ok w =
                    subst (λ (k : String). get_record k document ≡ ok w)
                      (sym (get_record-id request.workspace_id w document found)) found in
                  let same : after ≡ document =
                    left
                    ∙ subst (λ (x : LiveWorkspaceRecord). put_record x.id x document ≡ document)
                        (sym kept) (put_record_same w document here) in
                  (
                    w,
                    subst (λ (x : Document). get_record request.workspace_id x ≡ ok w) (sym same)
                        found,
                    inl (nobody, same),
                  )
              | inr (s, t, there, kept, moved) ↦
                  let names = ap (λ (x : LiveWorkspaceRecord). x.id) kept in
                  let earlier : recorded_in s.applied_interrupts request ≡ ok none =
                    ground (arith, unseen, there) in
                  (
                    changed,
                    subst (λ (x : Document). get_record request.workspace_id x ≡ ok changed)
                        (sym left) (stored_again request document w changed found names),
                    inr (
                      t,
                      ap (λ (x : LiveWorkspaceRecord). x.supervisor) kept,
                      ap (λ (x : List AppliedInterrupt). recorded_in x request) moved.1
                          ∙ (recorded_in-append request s.applied_interrupts (applied request r)
                                earlier
                              ∙ recorded_in-applied request request r refl
                                  (same_set_refl request.affected_scopes)),
                    ),
                  )
            ]
      ]

  -- An interrupt that was answered and is sent again at once gets the same answer and changes nothing.
  interrupt_repeats :
      (request : InterruptRequest) (document after : Document) (r : InterruptResult)
      → interrupt runtime request document ≡ (ok r, after)
      → interrupt runtime request after ≡ (ok r, after)
  unfolding interrupt recorded
  interrupt_repeats request document after r ran =
      let (w, found, settled) = interrupt-Settled request document after r ran in
      elim settled [
        | inl (nobody, same) ↦
            subst (λ (x : Document). interrupt runtime request x ≡ (ok r, after)) (sym same) ran
        | inr (s, there, seen) ↦ ground (arith, found, there, seen)
      ]

  -- Once an interrupt has been answered for a workspace with a supervisor, one of the same decision for
  -- other scopes is refused, and changes nothing.
  pub interrupt_refuses_other_scopes :
      (request other : InterruptRequest) (document after : Document) (r : InterruptResult)
      (w : LiveWorkspaceRecord) (s : WorkspaceSupervisor)
      → interrupt runtime request document ≡ (ok r, after)
      → get_record request.workspace_id after ≡ ok w
      → w.supervisor ≡ some s
      → other.workspace_id ≡ request.workspace_id
      → other.decision_id ≡ request.decision_id
      → same_set request.affected_scopes other.affected_scopes ≡ false
      → interrupt runtime other after ≡ (err (other_scopes other.decision_id), after)
  unfolding interrupt recorded
  interrupt_refuses_other_scopes request other document after r w s ran found there workspace
        decision scopes =
      let (v, found', settled) = interrupt-Settled request document after r ran in
      let same : v ≡ w = ground (arith, found, found') in
      let here : get_record other.workspace_id after ≡ ok w =
        ap (λ (k : String). get_record k after) workspace ∙ found in
      elim settled [
        | inl (nobody, left) ↦ absurd (ground (arith, nobody, same, there))
        | inr (t, there', seen) ↦
            let one : t ≡ s = ground (arith, there, there', same) in
            let refused =
              recorded_in-other request t.applied_interrupts other r seen decision scopes in
            let refused' =
              subst
                (λ (x : WorkspaceSupervisor).
                  recorded_in x.applied_interrupts other ≡ err (other_scopes other.decision_id))
                one refused in
            ground (arith, here, there, refused')
      ]
