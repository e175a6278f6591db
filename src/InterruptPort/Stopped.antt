-- ===== src/InterruptPort/Stopped.antt =====
-- Which assignments an interrupt of the port stops.
use writ_ai.Prelude.{
  fun_ext, String, Bool, true, false, ◌&&◌, ◌==◌, ◌≡◌, refl, sym, ap, ◌∙◌, subst, List, [], ◌∷◌,
  map, none, some, contains, contains-any, any, filter, Each, Each-mono, arith, eq_iff, eq_refl,
  Bool-cases, inl, inr, ◌⊎◌, if◌then◌else◌,
}
use writ_ai.Prelude.Sorting.{any-sort_by, sort_texts, text_le}
use writ_ai.Exec.{ok}
use writ_ai.Supervisor.{SupervisorAssignment, SupervisorAssignmentState, WorkspaceSupervisor}
use writ_ai.Supervisor.Texts.{Unicode}
use writ_ai.Supervisor.Runtime.{all_different, transition, apply_assignment_transition, adopt_plan}
use writ_ai.Supervisor.Live.{live_transition, execution_mode_for}
use writ_ai.Interrupts.{InterruptRequest, InterruptResult, assignment_ids}
use writ_ai.Workspaces.{LiveWorkspaceRecord, Document, get_record}
use writ_ai.InterruptPort.{
  claude_code_runtime, already_invalidated, interrupt, is_stopped, partition, partition_for,
  provenance_for, recorded, report_for, stop, stop_target,
}
use writ_ai.InterruptPort.Affected.{has_to_stop, is_stopped-has_to_stop}
use writ_ai.InterruptPort.Paths.{IsOwnPath, provenance_for-IsOwnPath}
use writ_ai.InterruptPort.Cases.{
  apply-cases, get_record-id, get_record-put_other, interrupt-fresh, stored_again,
}

contains-assignment_ids :
    (hit : SupervisorAssignment → Bool) (xs : List SupervisorAssignment) (k : String)
    → contains (sort_texts (assignment_ids (filter hit xs))) k ≡ any (λ a. hit a && (a.id == k)) xs
contains-assignment_ids hit xs k =
    contains-any (sort_texts (assignment_ids (filter hit xs))) k
    ∙ (any-sort_by text_le (λ x. x == k) (assignment_ids (filter hit xs)) ∙ go xs)
  where
    go :
        (ys : List SupervisorAssignment)
        → any (λ x. x == k) (assignment_ids (filter hit ys)) ≡ any (λ a. hit a && (a.id == k)) ys
    go [] = refl
    go (y ∷ ys) = ground (arith, go ys)

absent-Each :
    (k : String) (xs : List SupervisorAssignment)
    → contains (assignment_ids xs) k ≡ false
    → Each (λ (a : SupervisorAssignment). (k == a.id) ≡ false) xs
absent-Each k [] absent = tt
absent-Each k (x ∷ xs) absent = (
  ground (arith, absent, eq_iff x.id k, eq_iff k x.id),
  absent-Each k xs (ground (arith, absent)),
)

any_absent :
    (hit : SupervisorAssignment → Bool) (k : String) (xs : List SupervisorAssignment)
    → contains (assignment_ids xs) k ≡ false
    → any (λ a. hit a && (a.id == k)) xs ≡ false
any_absent hit k [] absent = refl
any_absent hit k (x ∷ xs) absent = ground (arith, absent, any_absent hit k xs)

Each-both {ℓ κ} :
    {A : Type ℓ} (P Q : A → Type κ) (xs : List A) → Each P xs → Each Q xs → Each (λ a. P a × Q a) xs
Each-both P Q [] p q = tt
Each-both P Q (x ∷ xs) p q = ((p.0, q.0), Each-both P Q xs p.1 q.1)

Each-all {ℓ κ} : {A : Type ℓ} (P : A → Type κ) → ((a : A) → P a) → (xs : List A) → Each P xs
Each-all P h [] = tt
Each-all P h (x ∷ xs) = (h x, Each-all P h xs)

-- Under different ids, an assignment is named by the hits exactly if it is one.
any-hit :
    (hit : SupervisorAssignment → Bool) (xs : List SupervisorAssignment)
    → all_different (assignment_ids xs) ≡ true
    → Each (λ (a : SupervisorAssignment). any (λ b. hit b && (b.id == a.id)) xs ≡ hit a) xs
any-hit hit [] different = tt
any-hit hit (x ∷ xs) different =
    let absent : contains (assignment_ids xs) x.id ≡ false = ground (arith, different) in
    (
      ground (arith, any_absent hit x.id xs absent, eq_refl x.id),
      Each-mono _ _ (λ a p. ground (arith, p.0, p.1)) xs
          (Each-both _ _ xs (absent-Each x.id xs absent)
            (any-hit hit xs (ground (arith, different)))),
    )

map-Each {ℓ κ} :
    {A : Type ℓ} {B : Type κ} (f g : A → B) (xs : List A)
    → Each (λ a. f a ≡ g a) xs
    → map f xs ≡ map g xs
map-Each f g [] h = refl
map-Each f g (x ∷ xs) h = ground (arith, h.0, map-Each f g xs h.1)

-- Whether a request for a record that was read stops an assignment.
abbrev stops : LiveWorkspaceRecord → InterruptRequest → SupervisorAssignment → Bool
stops w request =
    is_stopped request.affected_scopes (report_for w.invalidation_report request.decision_id)
      (already_invalidated w.supervisor request.decision_id)

-- An assignment that is stopped.
abbrev pub stopped :
    LiveWorkspaceRecord → InterruptRequest → SupervisorAssignment → SupervisorAssignment
stopped w request a = record a {
  state = SupervisorAssignmentState.interrupted;
  interrupt_reason = some request.interrupt_reason;
  redirect_instruction = some request.redirect_instruction;
  provenance_path =
      provenance_for a (report_for w.invalidation_report request.decision_id)
        request.provenance_path;
  interrupt_enforced = true;
  execution_mode = execution_mode_for a.runtime_provider;
}

module _ (unicode : Unicode) where
  transition-stop :
      (w : LiveWorkspaceRecord) (request : InterruptRequest) (a : SupervisorAssignment)
      → live_transition unicode a
          (stop request (report_for w.invalidation_report request.decision_id) a)
        ≡ stopped w request a
  unfolding live_transition transition apply_assignment_transition adopt_plan stop
  transition-stop w request a = refl

  stop_target-Each :
      (w : LiveWorkspaceRecord) (s : WorkspaceSupervisor) (request : InterruptRequest)
      → w.supervisor ≡ some s
      → all_different (assignment_ids s.assignments) ≡ true
      → Each
          (λ (a : SupervisorAssignment).
            stop_target
              (claude_code_runtime unicode)
              request
              (partition_for w request)
              (report_for w.invalidation_report request.decision_id)
              a
            ≡ (if stops w request a then stopped w request a else a))
          s.assignments
  unfolding stop_target partition_for partition
  stop_target-Each w s request there different =
      Each-mono _ _
        (λ a p. ground (
          arith,
          p,
          there,
          transition-stop w request a,
          contains-assignment_ids (stops w request) s.assignments a.id,
        ))
        s.assignments (any-hit (stops w request) s.assignments different)

  -- The first answered interrupt of a decision, by the runtime that the hooks enforce, stops exactly the
  -- assignments that it has to, and no other changes, given that the ids of the assignments differ. An
  -- assignment is stopped if it runs, continues or was stopped before, and the authority's report on this
  -- decision lists its task; before there is such a report, if it has a scope and each of its scopes is
  -- affected now or was by an applied interrupt of another decision. A stopped assignment carries the
  -- reason, the instruction and its path, which is the longest of the report's paths through its own task;
  -- if no path of a report on this decision goes through that task, it is the path of the request. All
  -- other workspaces are left as they are.
  pub interrupt-stops_exactly :
      (request : InterruptRequest) (document after : Document) (r : InterruptResult)
      (w : LiveWorkspaceRecord) (s : WorkspaceSupervisor) (k : String)
      → interrupt (claude_code_runtime unicode) request document ≡ (ok r, after)
      → get_record request.workspace_id document ≡ ok w
      → w.supervisor ≡ some s
      → recorded w.supervisor request ≡ ok none
      → all_different (assignment_ids s.assignments) ≡ true
      → ((v : LiveWorkspaceRecord) × (t : WorkspaceSupervisor) × (get_record request.workspace_id
              after
            ≡ ok v)
          × (v.supervisor ≡ some t)
          × (t.assignments
              ≡ map
                  (λ a. if has_to_stop w s request a then stopped w request a else a)
                  s.assignments))
        × Each
            (λ (a : SupervisorAssignment).
              IsOwnPath w.invalidation_report request.decision_id a.task_id request.provenance_path
                (stopped w request a).provenance_path)
            s.assignments
        × (((request.workspace_id == k) ≡ true) ⊎ (get_record k after ≡ get_record k document))
  interrupt-stops_exactly request document after r w s k ran found there unseen different =
      let runtime = claude_code_runtime unicode in
      let report = report_for w.invalidation_report request.decision_id in
      let (changed, done, left) =
        interrupt-fresh runtime request document after r w ran found unseen in
      elim (apply-cases runtime request w changed (partition_for w request) report done) [
        | inl (nobody, kept) ↦ absurd (ground (arith, nobody, there))
        | inr (u, t, there', kept, moved) ↦
            let one : u ≡ s = ground (arith, there, there') in
            let names = ap (λ (x : LiveWorkspaceRecord). x.id) kept in
            let named : changed.id ≡ request.workspace_id =
              names ∙ get_record-id request.workspace_id w document found in
            let each =
              map-Each (stop_target runtime request (partition_for w request) report)
                (λ a. if stops w request a then stopped w request a else a) s.assignments
                (stop_target-Each w s request there different) in
            (
              (
                changed,
                t,
                subst (λ (x : Document). get_record request.workspace_id x ≡ ok changed) (sym left)
                    (stored_again request document w changed found names),
                ap (λ (x : LiveWorkspaceRecord). x.supervisor) kept,
                moved.0
                    ∙ (ap
                          (λ (x : WorkspaceSupervisor).
                            map (stop_target runtime request (partition_for w request) report)
                              x.assignments)
                          one
                        ∙ (each
                            ∙ ap
                                (λ (p : SupervisorAssignment → Bool).
                                  map (λ a. if p a then stopped w request a else a) s.assignments)
                                (fun_ext (λ a. is_stopped-has_to_stop w s request a there)))),
              ),
              Each-all _
                  (λ a.
                    provenance_for-IsOwnPath w.invalidation_report request.decision_id a
                      request.provenance_path)
                  s.assignments,
              elim (Bool-cases (request.workspace_id == k)) [
                | inl here ↦ inl here
                | inr other ↦ inr (
                    ap (get_record k) left
                    ∙ get_record-put_other k changed document
                        (ap (λ (i : String). i == k) named ∙ other))
              ],
            )
      ]
