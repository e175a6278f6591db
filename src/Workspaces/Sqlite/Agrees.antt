-- ===== src/Workspaces/Sqlite/Agrees.antt =====
-- The SQLite store beside the JSON store.
use writ_ai.Prelude.{
  String, true, false, List, [], ◌∷◌, none, some, ◌==◌, ◌≡◌, refl, sym, ap, subst, eq_iff, arith,
  inl, inr, Bool-cases, Option-cases,
}
use writ_ai.Exec.{ok, err, Result, Result-cases, key_error}
use writ_ai.Workspaces.{
  LiveWorkspaceRecord, Document, Answer, Call, gets, creates, saves, mutates, answer, moved, call,
  run, is_stored, get_record, put_record, create_record, save_record, mutate_record,
  require_same_workspace,
}
use writ_ai.Workspaces.Refines.{view, is_stored-view, get_record-some, get_record-none}
use writ_ai.Workspaces.Sqlite.{
  Codec, Table, decode_record, insert_row, update_rows, update_row, get_row, mutate_row, committed,
  call_table,
}
use writ_ai.Workspaces.Sqlite.Rows.{
  any-Stores, select-none, select-some, Stores-append, Stores-update_rows, Stores,
}

module _ {Raw : Type 0} (codec : Codec Raw)
    (reads : (r : LiveWorkspaceRecord) → codec.load (codec.dump r) ≡ some r) where
  abbrev pub Agree : Answer × Table Raw → Answer × Document → Type 0
  Agree p q = (p.0 ≡ q.0) × Stores codec p.1 q.1

  get-Stores :
      {rows : Table Raw} {document : Document} (k : String)
      → Stores codec rows document
      → get_row codec k rows ≡ get_record k document
  unfolding get_row decode_record
  get-Stores {rows = rows} {document = document} k s = elim (Option-cases (view document k)) [
    | inl absent ↦ ground (arith, select-none codec k s absent, get_record-none k document absent)
    | inr (r, there) ↦
        let (row, chosen, loaded) = select-some codec k r s there in
        ground (arith, chosen, loaded, get_record-some k document r there)
  ]

  insert-Agree :
      {rows : Table Raw} {document : Document} (w : LiveWorkspaceRecord)
      → Stores codec rows document
      → Agree (committed codec rows (insert_row codec w rows)) (create_record w document)
  unfolding insert_row create_record
  insert-Agree {rows = rows} {document = document} w s = elim (Option-cases (view document w.id)) [
    | inl absent ↦
        let free : is_stored w.id document ≡ false =
          ground (arith, is_stored-view w.id document, absent) in
        rw (any-Stores codec w.id s, free) (refl, Stores-append codec reads w s absent)
    | inr (r, there) ↦
        let stored : is_stored w.id document ≡ true =
          ground (arith, is_stored-view w.id document, there) in
        rw (any-Stores codec w.id s, stored) (refl, s)
  ]

  update_row-Stores :
      {rows : Table Raw} {document : Document} (w r : LiveWorkspaceRecord)
      → Stores codec rows document
      → view document w.id ≡ some r
      → (after : Table Raw) × (update_row codec w rows ≡ ok after)
        × Stores codec after (put_record w.id w document)
  unfolding update_row
  update_row-Stores {rows = rows} w r s there =
      let (row, chosen, loaded) = select-some codec w.id r s there in
      let (one, stored) = Stores-update_rows codec reads w r row s there chosen in
      ((update_rows codec w row.revision rows).1, ground (arith, chosen, one), stored)

  update_row_absent :
      {rows : Table Raw} {document : Document} (w : LiveWorkspaceRecord)
      → Stores codec rows document
      → view document w.id ≡ none
      → update_row codec w rows ≡ err (key_error w.id)
  unfolding update_row
  update_row_absent w s absent = ground (arith, select-none codec w.id s absent)

  update-Agree :
      {rows : Table Raw} {document : Document} (w : LiveWorkspaceRecord)
      → Stores codec rows document
      → Agree (committed codec rows (update_row codec w rows)) (save_record w document)
  unfolding save_record
  update-Agree {rows = rows} {document = document} w s = elim (Option-cases (view document w.id)) [
    | inl absent ↦
        let free : is_stored w.id document ≡ false =
          ground (arith, is_stored-view w.id document, absent) in
        let missing : update_row codec w rows ≡ err (key_error w.id) =
          update_row_absent w s absent in
        rw (missing, free) (refl, s)
    | inr (r, there) ↦
        let (after, done, stored) = update_row-Stores w r s there in
        let known : is_stored w.id document ≡ true =
          ground (arith, is_stored-view w.id document, there) in
        rw (done, known) (refl, stored)
  ]

  Agree-of :
      (p p' : Answer × Table Raw) (q q' : Answer × Document)
      → p ≡ p'
      → q ≡ q'
      → Agree p' q'
      → Agree p q
  Agree-of p p' q q' left right h =
      subst (λ (x : Answer × Table Raw). Agree x q) (sym left)
        (subst (λ (x : Answer × Document). Agree p' x) (sym right) h)

  mutate-Agree :
      {rows : Table Raw} {document : Document} (k : String)
      (apply : LiveWorkspaceRecord → Result LiveWorkspaceRecord)
      → Stores codec rows document
      → Agree (mutate_row codec k apply rows) (mutate_record k apply document)
  unfolding mutate_row mutate_record require_same_workspace
  mutate-Agree {rows = rows} {document = document} k apply s =
      let alike = get-Stores k s in
      let here = mutate_row codec k apply rows in
      let there = mutate_record k apply document in
      elim (Option-cases (view document k)) [
        | inl absent ↦
            let gone = get_record-none k document absent in
            Agree-of here (err (key_error k), rows) there (err (key_error k), document)
              (ground (arith, alike, gone)) (ground (arith, gone)) (refl, s)
        | inr (r, stored) ↦
            let got = get_record-some k document r stored in
            elim (Result-cases (apply r)) [
              | inr (e, failed) ↦
                  Agree-of here (err e, rows) there (err e, document)
                    (ground (arith, alike, got, failed)) (ground (arith, got, failed)) (refl, s)
              | inl (w, made) ↦ elim (Bool-cases (w.id == k)) [
                | inr other ↦
                    Agree-of here (err (moved k w.id), rows) there (err (moved k w.id), document)
                      (ground (arith, alike, got, made, other)) (ground (arith, got, made, other))
                      (refl, s)
                | inl same ↦
                    let named : k ≡ w.id = sym ((eq_iff w.id k).0 same) in
                    let (after, done, kept) =
                      update_row-Stores w r s
                        (subst (λ (j : String). view document j ≡ some r) named stored) in
                    Agree-of here (ok (some w), after) there (ok (some w), put_record k w document)
                      (ground (arith, alike, got, made, same, done))
                      (ground (arith, got, made, same))
                      (
                        refl,
                        subst (λ (j : String). Stores codec after (put_record j w document))
                            (sym named) kept,
                      )
              ]
            ]
      ]

  call-Agree :
      {rows : Table Raw} {document : Document} (c : Call)
      → Stores codec rows document
      → Agree (call_table codec c rows) (call c document)
  unfolding call_table call
  call-Agree (gets k) s = (ap answer (get-Stores k s), s)
  call-Agree (creates w) s = insert-Agree w s
  call-Agree (saves w) s = update-Agree w s
  call-Agree (mutates k apply) s = mutate-Agree k apply s

  pub run-Stores :
      (calls : List Call) {rows : Table Raw} {document : Document}
      → Stores codec rows document
      → let (answers, after) = run (call_table codec) calls rows in
        let (expected, kept) = run call calls document in
        (answers ≡ expected) × Stores codec after kept
  unfolding run
  run-Stores [] s = (refl, s)
  run-Stores (c ∷ calls) {rows = rows} {document = document} s =
      let (same, t) = call-Agree c s in
      let (later, u) = run-Stores calls t in (ground (arith, same, later), u)
