-- ===== src/Workspaces/Sqlite/Rows.antt =====
-- The rows of the SQLite store beside the records of the JSON store.
use writ_ai.Prelude.{
  ℕ, ◌+◌, String, false, [], ◌∷◌, ◌++◌, none, some, ◌==◌, ◌≡◌, refl, sym, ap, ◌∙◌, subst, eq_iff,
  arith, inl, inr, Bool-cases, any,
}
use writ_ai.Workspaces.{LiveWorkspaceRecord, Document, is_stored, put_record}
use writ_ai.Workspaces.Refines.{view}
use writ_ai.Workspaces.Keyed.{view-append_none, view-put_other}
use writ_ai.Workspaces.Sqlite.{Codec, Row, Table, select, update_rows}

module _ {Raw : Type 0} (codec : Codec Raw) where
  -- Row Raw by row, a table holds the records of a document, each under its own id and only once.
  pub data Stores : Table Raw → Document → Type 0 where
    empty : Stores [] []
    more :
        {row : Row Raw} {r : LiveWorkspaceRecord} {rows : Table Raw} {document : Document}
        → row.workspace_id ≡ r.id
        → codec.load row.record_json ≡ some r
        → view document r.id ≡ none
        → Stores rows document
        → Stores (row ∷ rows) (r ∷ document)

  pub any-Stores :
      {rows : Table Raw} {document : Document} (k : String)
      → Stores rows document
      → any (λ (row : Row Raw). row.workspace_id == k) rows ≡ is_stored k document
  any-Stores k empty = refl
  any-Stores k (more named read fresh s) = ground (arith, named, any-Stores k s)

  pub select-none :
      {rows : Table Raw} {document : Document} (k : String)
      → Stores rows document
      → view document k ≡ none
      → select k rows ≡ none
  unfolding select view
  select-none k empty absent = refl
  select-none k (more named read fresh s) absent = ground (arith, named, select-none k s)

  pub select-some :
      {rows : Table Raw} {document : Document} (k : String) (r : LiveWorkspaceRecord)
      → Stores rows document
      → view document k ≡ some r
      → (row : Row Raw) × (select k rows ≡ some row) × (codec.load row.record_json ≡ some r)
  unfolding select view
  select-some k r empty there = absurd (ground (arith, there))
  select-some k r (more {row = row} {r = v} named read fresh s) there =
      elim (Bool-cases (v.id == k)) [
        | inl same ↦ (row, ground (arith, named, same), ground (arith, read, there, same))
        | inr other ↦
            let (found_row, chosen, loaded) = select-some k r s (ground (arith, there, other)) in
            (found_row, ground (arith, named, other, chosen), loaded)
      ]

  pub view-id :
      (k : String) (document : Document) (r : LiveWorkspaceRecord)
      → view document k ≡ some r
      → r.id ≡ k
  unfolding view
  view-id k [] r there = absurd (ground (arith, there))
  view-id k (v ∷ rest) r there = ground (arith, view-id k rest r, eq_iff v.id k)

  module _ (reads : (r : LiveWorkspaceRecord) → codec.load (codec.dump r) ≡ some r) where
    abbrev pub new_row : LiveWorkspaceRecord → Row Raw
    new_row w = record {
      workspace_id = w.id;
      updated_at = codec.isoformat w.updated_at;
      revision = 1;
      record_json = codec.dump w;
    }

    pub Stores-append :
        {rows : Table Raw} {document : Document} (w : LiveWorkspaceRecord)
        → Stores rows document
        → view document w.id ≡ none
        → Stores (rows ++ new_row w ∷ []) (document ++ w ∷ [])
    unfolding view
    Stores-append w empty absent = more refl (reads w) refl empty
    Stores-append w (more {r = v} {document = document} named read fresh s) absent =
        elim (Bool-cases (v.id == w.id)) [
          | inl same ↦ absurd (ground (arith, absent, same))
          | inr other ↦
              more named read
                (view-append_none v.id document w fresh
                  (ground (arith, eq_iff v.id w.id, eq_iff w.id v.id, other)))
                (Stores-append w s (ground (arith, absent, other)))
        ]

    pub update_rows_absent :
        {rows : Table Raw} {document : Document} (w : LiveWorkspaceRecord) (n : ℕ)
        → Stores rows document
        → view document w.id ≡ none
        → update_rows codec w n rows ≡ (0, rows)
    unfolding update_rows view
    update_rows_absent w n empty absent = refl
    update_rows_absent w n (more named read fresh s) absent =
        ground (arith, named, absent, update_rows_absent w n s)

    pub Stores-update_rows :
        {rows : Table Raw} {document : Document} (w r : LiveWorkspaceRecord) (row : Row Raw)
        → Stores rows document
        → view document w.id ≡ some r
        → select w.id rows ≡ some row
        → let (count, changed) = update_rows codec w row.revision rows in
          (count ≡ 1) × Stores changed (put_record w.id w document)
    unfolding update_rows select put_record view
    Stores-update_rows w r row empty there chosen = absurd (ground (arith, there))
    Stores-update_rows w r row
          (more {row = first} {r = v} {rows = rows} {document = document} named read fresh s) there
          chosen =
        elim (Bool-cases (v.id == w.id)) [
          | inl same ↦
              let named_w : v.id ≡ w.id = (eq_iff v.id w.id).0 same in
              let alone : view document w.id ≡ none =
                subst (λ (k : String). view document k ≡ none) named_w fresh in
              let it : first ≡ row = ground (arith, chosen, named, same) in
              let revisions : first.revision ≡ row.revision = ap (λ (x : Row Raw). x.revision) it in
              let changed =
                (record first {
                  record_json = codec.dump w;
                  updated_at = codec.isoformat w.updated_at;
                  revision = first.revision + 1;
                })
                ∷ rows in
              let step : update_rows codec w row.revision (first ∷ rows) ≡ (1, changed) =
                ground (arith, named, same, revisions, update_rows_absent w row.revision s alone) in
              let put : put_record w.id w (v ∷ document) ≡ w ∷ document = ground (arith, same) in
              subst
                (λ (p : ℕ × Table Raw). (p.0 ≡ 1) × Stores p.1 (put_record w.id w (v ∷ document)))
                (sym step)
                (refl, subst (Stores changed) (sym put) (more (named ∙ named_w) (reads w) alone s))
          | inr other ↦
              let later = update_rows codec w row.revision rows in
              let (one, stored) =
                Stores-update_rows w r row s (ground (arith, there, other))
                  (ground (arith, chosen, named, other)) in
              let step : update_rows codec w row.revision (first ∷ rows)
                  ≡ (later.0, first ∷ later.1) =
                ground (arith, named, other) in
              let put : put_record w.id w (v ∷ document) ≡ v ∷ put_record w.id w document =
                ground (arith, other) in
              let apart : (w.id == v.id) ≡ false =
                ground (arith, eq_iff v.id w.id, eq_iff w.id v.id, other) in
              subst
                (λ (p : ℕ × Table Raw). (p.0 ≡ 1) × Stores p.1 (put_record w.id w (v ∷ document)))
                (sym step)
                (
                  one,
                  subst (Stores (first ∷ later.1)) (sym put)
                      (more named read (view-put_other v.id w document apart ∙ fresh) stored),
                )
        ]
