-- ===== src/Workspaces/Keyed.antt =====
-- The ids of the stored records.
use writ_ai.Prelude.{
  String, true, false, List, [], ◌∷◌, ◌++◌, none, ◌==◌, ◌≡◌, refl, sym, ◌∙◌, subst, eq_iff, arith,
  inl, inr, Bool-cases, Option-cases,
}
use writ_ai.Exec.{Result-cases}
use writ_ai.Workspaces.{
  LiveWorkspaceRecord, Document, Call, gets, creates, saves, mutates, call, run, is_stored,
  get_record, put_record, create_record, save_record, mutate_record, require_same_workspace,
}
use writ_ai.Workspaces.Refines.{view, is_stored-view}

-- No two records have one id.
abbrev pub IsKeyed : Document → Type 0
IsKeyed [] = Unit
IsKeyed (r ∷ rest) = (view rest r.id ≡ none) × IsKeyed rest

pub view-append_none :
    (k : String) (document : Document) (w : LiveWorkspaceRecord)
    → view document k ≡ none
    → (w.id == k) ≡ false
    → view (document ++ w ∷ []) k ≡ none
unfolding view
view-append_none k [] w absent other = ground (arith, other)
view-append_none k (v ∷ rest) w absent other =
    ground (arith, view-append_none k rest w, absent, other)

pub view-put_other :
    (k : String) (w : LiveWorkspaceRecord) (document : Document)
    → (w.id == k) ≡ false
    → view (put_record w.id w document) k ≡ view document k
unfolding view put_record
view-put_other k w [] other = refl
view-put_other k w (v ∷ rest) other =
    ground (arith, view-put_other k w rest other, eq_iff v.id w.id)

append-IsKeyed :
    (document : Document) (w : LiveWorkspaceRecord)
    → view document w.id ≡ none
    → IsKeyed document
    → IsKeyed (document ++ w ∷ [])
unfolding view
append-IsKeyed [] w absent keyed = (refl, tt)
append-IsKeyed (v ∷ rest) w absent keyed = elim (Bool-cases (v.id == w.id)) [
  | inl same ↦ absurd (ground (arith, absent, same))
  | inr other ↦ (
    view-append_none v.id rest w keyed.0
        (ground (arith, eq_iff v.id w.id, eq_iff w.id v.id, other)),
    append-IsKeyed rest w (ground (arith, absent, other)) keyed.1,
  )
]

put_record-IsKeyed :
    (w : LiveWorkspaceRecord) (document : Document)
    → IsKeyed document
    → IsKeyed (put_record w.id w document)
unfolding put_record
put_record-IsKeyed w [] keyed = tt
put_record-IsKeyed w (v ∷ rest) keyed = elim (Bool-cases (v.id == w.id)) [
  | inl same ↦
      rw same
        (subst (λ (k : String). view rest k ≡ none) ((eq_iff v.id w.id).0 same) keyed.0, keyed.1)
  | inr other ↦
      let apart : (w.id == v.id) ≡ false =
        ground (arith, eq_iff v.id w.id, eq_iff w.id v.id, other) in
      rw other (view-put_other v.id w rest apart ∙ keyed.0, put_record-IsKeyed w rest keyed.1)
]

call-IsKeyed : (c : Call) (document : Document) → IsKeyed document → IsKeyed (call c document).1
unfolding call create_record save_record mutate_record require_same_workspace
call-IsKeyed (gets k) document keyed = keyed
call-IsKeyed (creates w) document keyed = elim (Option-cases (view document w.id)) [
  | inl absent ↦
      let free : is_stored w.id document ≡ false =
        ground (arith, is_stored-view w.id document, absent) in
      rw free (append-IsKeyed document w absent keyed)
  | inr (r, there) ↦
      let stored : is_stored w.id document ≡ true =
        ground (arith, is_stored-view w.id document, there) in
      rw stored keyed
]
call-IsKeyed (saves w) document keyed = elim (Bool-cases (is_stored w.id document)) [
  | inl stored ↦ rw stored (put_record-IsKeyed w document keyed)
  | inr free ↦ rw free keyed
]
call-IsKeyed (mutates k apply) document keyed =
    let after = mutate_record k apply document in
    let unchanged : after.1 ≡ document → IsKeyed after.1 = λ same. subst IsKeyed (sym same) keyed in
    elim (Result-cases (get_record k document)) [
      | inr (e, missing) ↦ unchanged (ground (arith, missing))
      | inl (r, found) ↦ elim (Result-cases (apply r)) [
        | inr (e, failed) ↦ unchanged (ground (arith, found, failed))
        | inl (w, made) ↦ elim (Bool-cases (w.id == k)) [
          | inr other ↦ unchanged (ground (arith, found, made, other))
          | inl same ↦
              let put : put_record k w document ≡ after.1 = ground (arith, found, made, same) in
              subst IsKeyed put (
                subst (λ (j : String). IsKeyed (put_record j w document)) ((eq_iff w.id k).0 same)
                  (put_record-IsKeyed w document keyed))
        ]
      ]
    ]

-- However the JSON store is called, it never comes to hold two records under one id.
pub run-IsKeyed :
    (calls : List Call) (document : Document)
    → IsKeyed document
    → IsKeyed (run call calls document).1
unfolding run
run-IsKeyed [] document keyed = keyed
run-IsKeyed (c ∷ calls) document keyed =
    run-IsKeyed calls (call c document).1 (call-IsKeyed c document keyed)
