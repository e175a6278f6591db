-- ===== src/Workspaces/Sqlite.antt =====
-- `SqliteLiveWorkspaceRepository` of backend/writai/workspaces/repository.py. The table is the list of
-- its rows in the order of their rowid, a transaction that raises is rolled back, and
-- the reading and the writing of a record's JSON and of an instant are parameters.
pub mod Rows
pub mod Agrees
pub mod Lists
pub mod Migrated
use writ_ai.Prelude.{
  ℕ, ◌+◌, String, Bool, List, [], ◌∷◌, ◌++◌, Option, none, some, ◌==◌, ◌&&◌, eqb, any, map,
  filter_map, if◌then◌else◌,
}
use writ_ai.Prelude.Sorting.{sort_by, text_le}
use writ_ai.Prelude.Decimal.{append_text}
use writ_ai.Exec.{Error, Result, ok, err, Exec, and_then, key_error, runtime_error}
use writ_ai.Workspaces.{
  LiveWorkspaceRecord, Document, Answer, Call, gets, creates, saves, mutates, answer, conflict,
  list_records, require_same_workspace,
}

pub record Row (Raw : Type 0) : Type 0 where
  pub workspace_id : String
  pub updated_at : String
  pub revision : ℕ
  pub record_json : Raw

abbrev pub Table : Type 0 → Type 0
Table Raw = List (Row Raw)

abbrev pub unreadable : String → Error
unreadable k = runtime_error (append_text "Live Workspace store holds an unreadable record: " k)

-- `SELECT … WHERE workspace_id = ?`, and `fetchone`
unfoldable pub select : {Raw : Type 0} → String → Table Raw → Option (Row Raw)
select k [] = none
select k (row ∷ rest) = if row.workspace_id == k then some row else select k rest

-- What the libraries give that write a record as JSON and read it back, and write an instant. The texts
-- of records are a type of their own.
pub record Codec (Raw : Type 0) : Type 0 where
  pub dump : LiveWorkspaceRecord → Raw
  pub load : Raw → Option LiveWorkspaceRecord
  pub isoformat : ℕ → String

-- `ORDER BY updated_at DESC`, before the rowid
abbrev pub later_row : {Raw : Type 0} → Row Raw → Row Raw → Bool
later_row x y = text_le y.updated_at x.updated_at

module _ {Raw : Type 0} (codec : Codec Raw) where
  -- `_decode`
  unfoldable pub decode_record : Raw → String → Result LiveWorkspaceRecord
  decode_record raw k = elim (codec.load raw) [ none ↦ err (unreadable k) | some r ↦ ok r ]

  -- `_insert`: the id is the primary key.
  unfoldable pub insert_row : LiveWorkspaceRecord → Table Raw → Result (Table Raw)
  insert_row w rows =
      if any (λ (row : Row Raw). row.workspace_id == w.id) rows
      then err (conflict w.id)
      else ok (
          rows
          ++ record {
            workspace_id = w.id;
            updated_at = codec.isoformat w.updated_at;
            revision = 1;
            record_json = codec.dump w;
          }
            ∷ [])

  -- `UPDATE … WHERE workspace_id = ? AND revision = ?`: the number of changed rows, and the rows.
  unfoldable pub update_rows : LiveWorkspaceRecord → ℕ → Table Raw → ℕ × Table Raw
  update_rows w revision [] = (0, [])
  update_rows w revision (row ∷ rest) =
      let (count, changed) = update_rows w revision rest in
      if row.workspace_id == w.id && eqb row.revision revision
      then (
        count + 1,
        record row {
          record_json = codec.dump w;
          updated_at = codec.isoformat w.updated_at;
          revision = row.revision + 1;
        }
            ∷ changed,
      )
      else (count, row ∷ changed)

  -- `_update`
  unfoldable pub update_row : LiveWorkspaceRecord → Table Raw → Result (Table Raw)
  unfolding select update_rows
  update_row w rows = elim (select w.id rows) [
    | none ↦ err (key_error w.id)
    | some row ↦
        let (count, changed) = update_rows w row.revision rows in
        if eqb count 1 then ok changed else err (key_error w.id)
  ]

  -- `get`
  unfoldable pub get_row : String → Table Raw → Result LiveWorkspaceRecord
  unfolding select decode_record
  get_row k rows = elim (select k rows) [
    | none ↦ err (key_error k)
    | some row ↦ decode_record row.record_json k
  ]

  -- `_write_transaction` of a call that answers with nothing.
  abbrev pub committed : Table Raw → Result (Table Raw) → Answer × Table Raw
  committed rows (ok after) = (ok none, after)
  committed rows (err e) = (err e, rows)

  -- The end of a mutation, in its transaction.
  abbrev pub committed_with :
      LiveWorkspaceRecord → Table Raw → Result (Table Raw) → Answer × Table Raw
  committed_with w rows (ok after) = (ok (some w), after)
  committed_with w rows (err e) = (err e, rows)

  -- `mutate`
  unfoldable pub mutate_row :
      String
      → (LiveWorkspaceRecord → Result LiveWorkspaceRecord)
      → Exec (Table Raw) (Option LiveWorkspaceRecord)
  unfolding get_row require_same_workspace update_row
  mutate_row k apply rows = elim (get_row k rows) [
    | err e ↦ (err e, rows)
    | ok r ↦ elim (apply r) [
      | err e ↦ (err e, rows)
      | ok w ↦ elim (require_same_workspace k w) [
        | err e ↦ (err e, rows)
        | ok v ↦ committed_with v rows (update_row v rows)
      ]
    ]
  ]

  unfoldable pub decode_rows : Table Raw → Result (List LiveWorkspaceRecord)
  unfolding decode_record
  decode_rows [] = ok []
  decode_rows (row ∷ rest) =
      and_then (decode_record row.record_json row.workspace_id)
        λ r. and_then (decode_rows rest) λ rs. ok (r ∷ rs)

  -- `list`: by the text of the instant, downwards, then by rowid.
  unfoldable pub list_rows : Table Raw → Result (List LiveWorkspaceRecord)
  unfolding decode_rows
  list_rows rows = decode_rows (sort_by later_row rows)

  unfoldable pub call_table : Call → Exec (Table Raw) (Option LiveWorkspaceRecord)
  unfolding get_row insert_row update_row mutate_row
  call_table (gets k) rows = (answer (get_row k rows), rows)
  call_table (creates w) rows = committed rows (insert_row w rows)
  call_table (saves w) rows = committed rows (update_row w rows)
  call_table (mutates k apply) rows = mutate_row k apply rows

  -- The inserts of `_migrate`.
  unfoldable pub insert_rows : List LiveWorkspaceRecord → Table Raw → Result (Table Raw)
  unfolding insert_row
  insert_rows [] rows = ok rows
  insert_rows (w ∷ rest) rows = and_then (insert_row w rows) (insert_rows rest)

  -- The table that the constructor makes of a legacy document.
  unfoldable pub migrate : Document → Result (Table Raw)
  unfolding insert_rows list_records
  migrate document = insert_rows (list_records document) []
