-- ===== src/Workspaces.antt =====
-- backend/writai/workspaces/repository.py: the stored Live Workspace records. A record of
-- workspaces/models.py is kept by what the interrupt port and the session gate read of it; the JSON
-- document is the list of its records, and a call that raises writes nothing.
pub mod Refines
pub mod Keyed
pub mod Listed
pub mod Sqlite
use writ_ai.Prelude.{
  ℕ, String, Bool, List, [], ◌∷◌, ◌++◌, Option, none, some, ◌==◌, leb, any, if◌then◌else◌,
}
use writ_ai.Prelude.Sorting.{sort_by}
use writ_ai.Prelude.Decimal.{append_text}
use writ_ai.Exec.{Error, Result, ok, err, Exec, value_error, key_error}
use writ_ai.Domain.{InvalidationReport}
use writ_ai.Supervisor.{WorkspaceSupervisor}

pub record LiveWorkspaceRecord : Type 0 where
  pub id : String
  pub graph_version : String
  pub invalidation_report : Option InvalidationReport
  pub supervisor : Option WorkspaceSupervisor
  pub updated_at : ℕ

abbrev pub Document : Type 0
Document = List LiveWorkspaceRecord

-- A call that answers with a record, or with nothing.
abbrev pub Answer : Type 0
Answer = Result (Option LiveWorkspaceRecord)

abbrev pub is_stored : String → Document → Bool
is_stored k = any (λ (r : LiveWorkspaceRecord). r.id == k)

abbrev pub conflict : String → Error
conflict k = value_error (append_text "Live Workspace already exists: " k)

abbrev pub moved : String → String → Error
moved k j = value_error (
    append_text "A workspace mutation may not change the workspace id: "
      (append_text k (append_text " -> " j)))

-- `get`
unfoldable pub get_record : String → Document → Result LiveWorkspaceRecord
get_record k [] = err (key_error k)
get_record k (r ∷ rest) = if r.id == k then ok r else get_record k rest

-- `document.workspaces[index] = record`, at the first record under the id.
unfoldable pub put_record : String → LiveWorkspaceRecord → Document → Document
put_record k w [] = []
put_record k w (r ∷ rest) =
    let after = put_record k w rest in if r.id == k then w ∷ rest else r ∷ after

-- `create`
unfoldable pub create_record : LiveWorkspaceRecord → Exec Document (Option LiveWorkspaceRecord)
create_record w document =
    if is_stored w.id document
    then (err (conflict w.id), document)
    else (ok none, document ++ w ∷ [])

-- `save`
unfoldable pub save_record : LiveWorkspaceRecord → Exec Document (Option LiveWorkspaceRecord)
unfolding put_record
save_record w document =
    if is_stored w.id document
    then (ok none, put_record w.id w document)
    else (err (key_error w.id), document)

-- `_require_same_workspace`
unfoldable pub require_same_workspace : String → LiveWorkspaceRecord → Result LiveWorkspaceRecord
require_same_workspace k w = if w.id == k then ok w else err (moved k w.id)

-- `mutate`
unfoldable pub mutate_record :
    String
    → (LiveWorkspaceRecord → Result LiveWorkspaceRecord)
    → Exec Document (Option LiveWorkspaceRecord)
unfolding get_record require_same_workspace put_record
mutate_record k apply document = elim (get_record k document) [
  | err e ↦ (err e, document)
  | ok r ↦ elim (apply r) [
    | err e ↦ (err e, document)
    | ok w ↦ elim (require_same_workspace k w) [
      | err e ↦ (err e, document)
      | ok v ↦ (ok (some v), put_record k v document)
    ]
  ]
]

-- `list`: the latest first.
unfoldable pub list_records : Document → List LiveWorkspaceRecord
unfolding sort_by
list_records =
    sort_by (λ (r : LiveWorkspaceRecord) (s : LiveWorkspaceRecord). leb s.updated_at r.updated_at)

-- The calls that read or change one record; `list` beside them reads all.
pub data Call : Type 0 where
  gets : String → Call
  creates saves : LiveWorkspaceRecord → Call
  mutates : String → (LiveWorkspaceRecord → Result LiveWorkspaceRecord) → Call

-- The record of an answer.
abbrev pub answer : Result LiveWorkspaceRecord → Answer
answer (ok r) = ok (some r)
answer (err e) = err e

unfoldable pub call : Call → Exec Document (Option LiveWorkspaceRecord)
unfolding get_record create_record save_record mutate_record
call (gets k) document = (answer (get_record k document), document)
call (creates w) document = create_record w document
call (saves w) document = save_record w document
call (mutates k apply) document = mutate_record k apply document

-- The answers to a sequence of calls of a store, and the store behind it.
unfoldable pub run {ℓ} : {S : Type ℓ} → (Call → S → Answer × S) → List Call → S → List Answer × S
run perform [] s = ([], s)
run perform (c ∷ cs) s =
    let (a, t) = perform c s in let (answers, u) = run perform cs t in (a ∷ answers, u)
