-- ===== src/Interrupts/Replay.antt =====
-- A repeated interrupt.
use writ_ai.Prelude.{
  ℕ, ◌+◌, String, true, false, ◌==◌, ◌≡◌, refl, sym, ap, ◌∙◌, subst, List, [], ◌∷◌, ◌++◌, none,
  some, is_empty, length, arith, eq_iff, eq_refl, Bool-cases, inl, inr,
}
use writ_ai.Exec.{ok, Result-cases}
use writ_ai.Domain.Value.{Fields, array, find, eq_value}
use writ_ai.Supervisor.{WorkspaceSupervisor}
use writ_ai.Supervisor.Texts.{Unicode}
use writ_ai.Interrupts.{
  InterruptRequest, InterruptResult, Repository, Workspace, WorkspaceEvent, completed_interrupt,
  enforce, event_of, get_workspace, interrupt, interrupt_workspace, items_of, live_supervisor,
  partition, read_event, request_fingerprint, save_workspace, texts_in, texts_of,
}

texts_of-items_of : (ts : List String) → texts_of (items_of ts) ≡ some ts
unfolding texts_of
texts_of-items_of [] = refl
texts_of-items_of (t ∷ ts) = ground (arith, texts_of-items_of ts)

texts_in-items_of : (ts : List String) → texts_in (array (items_of ts)) ≡ ok ts
unfolding texts_in
texts_in-items_of ts = ground (arith, texts_of-items_of ts)

get-save :
    (k : String) (w v : Workspace) (repository : Repository)
    → get_workspace k repository ≡ ok v
    → w.id ≡ k
    → get_workspace k (save_workspace w repository) ≡ ok w
unfolding get_workspace save_workspace
get-save k w v [] found named = absurd (ground (arith, found))
get-save k w v (u ∷ rest) found named = elim (Bool-cases (u.id == k)) [
  | inl same ↦
      let here : (u.id == w.id) ≡ true = ap (λ i. u.id == i) named ∙ same in
      let itself : (w.id == k) ≡ true = (eq_iff w.id k).1 named in ground (arith, here, itself)
  | inr other ↦
      let there : (u.id == w.id) ≡ false = ap (λ i. u.id == i) named ∙ other in
      ground (arith, there, other, get-save k w v rest (ground (arith, found, other)) named)
]

get_workspace-id :
    (k : String) (w : Workspace) (repository : Repository)
    → get_workspace k repository ≡ ok w
    → w.id ≡ k
unfolding get_workspace
get_workspace-id k w [] found = absurd (ground (arith, found))
get_workspace-id k w (u ∷ rest) found = elim (Bool-cases (u.id == k)) [
  | inl same ↦
      let itself : u ≡ w = ground (arith, found, same) in
      ap (λ (x : Workspace). x.id) (sym itself) ∙ (eq_iff u.id k).0 same
  | inr other ↦ get_workspace-id k w rest (ground (arith, found, other))
]

module _ (unicode : Unicode) (stable_hash : Fields → String) (request : InterruptRequest) where
  read_event-event_of :
      (result : InterruptResult) (n : ℕ)
      → read_event unicode stable_hash request (event_of unicode stable_hash request result n)
        ≡ ok (some result)
  unfolding read_event event_of eq_value find
  read_event-event_of result n = ground (
    arith,
    eq_refl request.decision_id,
    eq_refl (request_fingerprint unicode stable_hash request),
    texts_in-items_of result.interrupted_assignment_ids,
    texts_in-items_of result.preserved_assignment_ids,
  )

  completed_last :
      (history : List WorkspaceEvent) (event : WorkspaceEvent) (r : InterruptResult)
      → read_event unicode stable_hash request event ≡ ok (some r)
      → completed_interrupt unicode stable_hash request (history ++ event ∷ []) ≡ ok (some r)
  unfolding completed_interrupt
  completed_last [] event r h = h
  completed_last (e ∷ history) event r h = ground (arith, completed_last history event r h)

  replay_recorded :
      (repository : Repository) (w : Workspace) (s : WorkspaceSupervisor)
      → is_empty request.affected_scopes ≡ false
      → get_workspace request.workspace_id repository ≡ ok w
      → let r = partition s.assignments request in
        let after =
          save_workspace (interrupt_workspace unicode stable_hash request r s w) repository in
        interrupt unicode stable_hash request after ≡ (ok r, after)
  unfolding interrupt interrupt_workspace
  replay_recorded repository w s some_scope found =
      let r = partition s.assignments request in
      let changed = interrupt_workspace unicode stable_hash request r s w in
      let event = event_of unicode stable_hash request r (length w.history + 1) in
      let read =
        get-save request.workspace_id changed w repository found
          (get_workspace-id request.workspace_id w repository found) in
      let seen = completed_last w.history event r (read_event-event_of r (length w.history + 1)) in
      ground (arith, some_scope, read, seen)

  -- An interrupt that was answered and is sent again gets the same answer, and leaves the repository as the
  -- first one left it: no assignment is interrupted a second time.
  pub interrupt_replays :
      (repository after : Repository) (r : InterruptResult)
      → interrupt unicode stable_hash request repository ≡ (ok r, after)
      → interrupt unicode stable_hash request after ≡ (ok r, after)
  unfolding interrupt enforce
  interrupt_replays repository after r ran = elim (Bool-cases (is_empty request.affected_scopes)) [
    | inl nothing ↦ absurd (ground (arith, ran, nothing))
    | inr some_scope ↦ elim (Result-cases (get_workspace request.workspace_id repository)) [
      | inr (e, failed) ↦ absurd (ground (arith, ran, some_scope, failed))
      | inl (w, found) ↦
          elim (Result-cases (completed_interrupt unicode stable_hash request w.history)) [
            | inr (e, failed) ↦ absurd (ground (arith, ran, some_scope, found, failed))
            | inl (some q, seen) ↦
                let same : repository ≡ after = ground (arith, ran, some_scope, found, seen) in
                subst (λ (x : Repository). interrupt unicode stable_hash request x ≡ (ok r, after))
                  same ran
            | inl (none, seen) ↦ elim (Result-cases (live_supervisor w)) [
              | inr (e, failed) ↦ absurd (ground (arith, ran, some_scope, found, seen, failed))
              | inl (s, live) ↦
                  let q = partition s.assignments request in
                  let stored =
                    save_workspace (interrupt_workspace unicode stable_hash request q s w)
                      repository in
                  let answer : q ≡ r = ground (arith, ran, some_scope, found, seen, live) in
                  let place : stored ≡ after = ground (arith, ran, some_scope, found, seen, live) in
                  subst (λ (x : Repository). interrupt unicode stable_hash request x ≡ (ok r, x))
                    place
                    (subst
                      (λ (y : InterruptResult).
                        interrupt unicode stable_hash request stored ≡ (ok y, stored))
                      answer (replay_recorded repository w s some_scope found))
            ]
          ]
    ]
  ]
