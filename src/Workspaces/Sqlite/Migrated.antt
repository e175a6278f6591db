-- ===== src/Workspaces/Sqlite/Migrated.antt =====
-- The SQLite store that is made of a JSON document.
use writ_ai.Prelude.{
  String, false, List, [], ◌∷◌, ◌++◌, none, some, ◌==◌, ◌≡◌, refl, sym, ap, ◌∙◌, subst, eq_iff,
  fun_ext, arith, inl, inr, Bool-cases, any, leb,
}
use mathlib.Core.List.{append_assoc, append-nil}
use writ_ai.Prelude.Sorting.{sort_by}
use writ_ai.Exec.{ok}
use writ_ai.Workspaces.{LiveWorkspaceRecord, Document, Answer, Call, call, run, list_records}
use writ_ai.Workspaces.Refines.{Spec, view, is_stored-view, promised, run_refines}
use writ_ai.Workspaces.Listed.{sort_by-IsKeyed, view-sort_by}
use writ_ai.Workspaces.Keyed.{IsKeyed, view-append_none}
use writ_ai.Workspaces.Sqlite.{
  Codec, Row, Table, insert_row, insert_rows, list_rows, migrate, call_table,
}
use writ_ai.Workspaces.Sqlite.Rows.{Stores, empty, new_row, any-Stores, Stores-append}
use writ_ai.Workspaces.Sqlite.Agrees.{run-Stores}
use writ_ai.Workspaces.Sqlite.Lists.{list_rows-Stores}

-- The answers and the contents of the store.
abbrev seen : List Answer × Document → List Answer × Spec
seen p = (p.0, view p.1)

module _ {Raw : Type 0} (codec : Codec Raw)
    (reads : (r : LiveWorkspaceRecord) → codec.load (codec.dump r) ≡ some r) where
  -- The records to insert are under other ids than the stored ones.
  abbrev AreNew : List LiveWorkspaceRecord → Document → Type 0
  AreNew [] document = Unit
  AreNew (w ∷ rest) document = (view document w.id ≡ none) × AreNew rest document

  AreNew-append :
      (ws : List LiveWorkspaceRecord) (document : Document) (w : LiveWorkspaceRecord)
      → AreNew ws document
      → view ws w.id ≡ none
      → AreNew ws (document ++ w ∷ [])
  unfolding view
  AreNew-append [] document w fresh absent = tt
  AreNew-append (v ∷ ws) document w fresh absent = elim (Bool-cases (v.id == w.id)) [
    | inl same ↦ absurd (ground (arith, absent, same))
    | inr other ↦ (
      view-append_none v.id document w fresh.0
          (ground (arith, other, eq_iff v.id w.id, eq_iff w.id v.id)),
      AreNew-append ws document w fresh.1 (ground (arith, absent, other)),
    )
  ]

  insert_rows-Stores :
      (ws : List LiveWorkspaceRecord) (rows : Table Raw) (document : Document)
      → Stores codec rows document
      → IsKeyed ws
      → AreNew ws document
      → (after : Table Raw) × (insert_rows codec ws rows ≡ ok after)
        × Stores codec after (document ++ ws)
  unfolding insert_rows insert_row
  insert_rows-Stores [] rows document s keyed fresh =
      (rows, refl, subst (Stores codec rows) (sym (append-nil document)) s)
  insert_rows-Stores (w ∷ ws) rows document s keyed fresh =
      let row = new_row codec reads w in
      let free : any (λ (x : Row Raw). x.workspace_id == w.id) rows ≡ false =
        any-Stores codec w.id s ∙ ground (arith, is_stored-view w.id document, fresh.0) in
      let (after, done, stored) =
        insert_rows-Stores ws (rows ++ row ∷ []) (document ++ w ∷ [])
          (Stores-append codec reads w s fresh.0) keyed.1
          (AreNew-append ws document w fresh.1 keyed.0) in
      (
        after,
        ground (arith, free, done),
        subst (Stores codec after) (append_assoc document (w ∷ []) ws) stored,
      )

  none-AreNew : (ws : List LiveWorkspaceRecord) → AreNew ws []
  unfolding view
  none-AreNew [] = tt
  none-AreNew (w ∷ ws) = (refl, none-AreNew ws)

  -- The SQLite store that is made of a JSON document without two records of one id is made without an
  -- error, and answers every sequence of gets, creations, savings and mutations as the JSON store
  -- answers it, given that the library reads back the records that it writes. The list that follows
  -- succeeds and holds exactly the records of the JSON store, each once, in an order that is left open.
  pub migrate_agrees :
      (document : Document) (calls : List Call)
      → IsKeyed document
      → let after = run call calls document in
        (table : Table Raw) × (rs : List LiveWorkspaceRecord) × (migrate codec document ≡ ok table)
        × ((run (call_table codec) calls table).0 ≡ after.0)
        × (list_rows codec (run (call_table codec) calls table).1 ≡ ok rs)
        × IsKeyed rs
        × ((k : String) → view rs k ≡ view after.1 k)
  unfolding migrate list_records
  migrate_agrees document calls keyed =
      let later_first =
        λ (r : LiveWorkspaceRecord) (s : LiveWorkspaceRecord). leb s.updated_at r.updated_at in
      let sorted = sort_by later_first document in
      let (table, made, stored) =
        insert_rows-Stores sorted [] [] empty (sort_by-IsKeyed later_first document keyed)
          (none-AreNew sorted) in
      let same : view sorted ≡ view document =
        fun_ext (λ k. view-sort_by later_first k document keyed) in
      let alike : seen (run call calls sorted) ≡ seen (run call calls document) =
        run_refines calls sorted
        ∙ ap (λ (m : Spec). run promised calls m) same
        ∙ sym (run_refines calls document) in
      let (answered, kept) = run-Stores codec reads calls stored in
      let (rs, listed, once, contents) = list_rows-Stores codec kept in
      (
        table,
        rs,
        made,
        answered ∙ ap (λ (p : List Answer × Spec). p.0) alike,
        listed,
        once,
        λ k. contents k ∙ ap (λ (p : List Answer × Spec). p.1 k) alike,
      )
