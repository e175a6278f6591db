-- ===== src/Workspaces/Sqlite/Lists.antt =====
-- The list of the SQLite store.
use writ_ai.Prelude.{
  String, Bool, false, List, [], ◌∷◌, none, some, ◌==◌, ◌≡◌, refl, ◌∙◌, eq_iff, arith, inl, inr,
  Bool-cases,
}
use writ_ai.Prelude.Sorting.{insert_sorted, sort_by}
use writ_ai.Exec.{ok}
use writ_ai.Workspaces.{LiveWorkspaceRecord, Document}
use writ_ai.Workspaces.Refines.{view}
use writ_ai.Workspaces.Keyed.{IsKeyed}
use writ_ai.Workspaces.Sqlite.{Codec, Row, Table, decode_record, decode_rows, later_row, list_rows}
use writ_ai.Workspaces.Sqlite.Rows.{Stores, empty, more}

module _ {Raw : Type 0} (codec : Codec Raw) where
  Stores-IsKeyed :
      {rows : Table Raw} {document : Document} → Stores codec rows document → IsKeyed document
  Stores-IsKeyed empty = tt
  Stores-IsKeyed (more named read fresh s) = (fresh, Stores-IsKeyed s)

  decode_rows-Stores :
      {rows : Table Raw} {document : Document}
      → Stores codec rows document
      → decode_rows codec rows ≡ ok document
  unfolding decode_rows decode_record
  decode_rows-Stores empty = refl
  decode_rows-Stores (more named read fresh s) = ground (arith, read, decode_rows-Stores s)

  -- The same rows in another order.
  abbrev Reordered : Table Raw → Document → Type 0
  Reordered rows document =
      (document' : Document) × Stores codec rows document'
      × ((k : String) → view document' k ≡ view document k)

  module _ (le : Row Raw → Row Raw → Bool) where
    insert_sorted-Stores :
        {rows : Table Raw} {document : Document} (row : Row Raw) (r : LiveWorkspaceRecord)
        → row.workspace_id ≡ r.id
        → codec.load row.record_json ≡ some r
        → view document r.id ≡ none
        → Stores codec rows document
        → Reordered (insert_sorted le row rows) (r ∷ document)
    unfolding insert_sorted view
    insert_sorted-Stores row r named read fresh empty =
        (r ∷ [], more named read fresh empty, λ k. refl)
    insert_sorted-Stores row r named read fresh
          (more {row = row'} {r = v} {rows = rows} {document = rest} named' read' fresh' s) =
        elim (Bool-cases (le row row')) [
          | inl first ↦
              rw first (r ∷ v ∷ rest, more named read fresh (more named' read' fresh' s), λ k. refl)
          | inr later ↦
              let other : (v.id == r.id) ≡ false = ground (arith, fresh) in
              let (document', stored, same) =
                insert_sorted-Stores row r named read (ground (arith, fresh, other)) s in
              rw later (
                v ∷ document',
                more named' read'
                    (same v.id ∙ ground (arith, other, eq_iff v.id r.id, eq_iff r.id v.id, fresh'))
                    stored,
                λ k. ground (arith, same k, other, eq_iff v.id k, eq_iff r.id k, eq_iff v.id r.id),
              )
        ]

    sort_by-Stores :
        {rows : Table Raw} {document : Document}
        → Stores codec rows document
        → Reordered (sort_by le rows) document
    unfolding sort_by view
    sort_by-Stores empty = ([], empty, λ k. refl)
    sort_by-Stores (more {row = row} {r = r} {document = rest} named read fresh s) =
        let (sorted, stored, same) = sort_by-Stores s in
        let (document', stored', same') =
          insert_sorted-Stores row r named read (same r.id ∙ fresh) stored in
        (document', stored', λ k. same' k ∙ ground (arith, same k))

  pub list_rows-Stores :
      {rows : Table Raw} {document : Document}
      → Stores codec rows document
      → (rs : List LiveWorkspaceRecord) × (list_rows codec rows ≡ ok rs)
        × IsKeyed rs
        × ((k : String) → view rs k ≡ view document k)
  unfolding list_rows
  list_rows-Stores s =
      let (rs, stored, same) = sort_by-Stores later_row s in
      (rs, decode_rows-Stores stored, Stores-IsKeyed stored, same)
