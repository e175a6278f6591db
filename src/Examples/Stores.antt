-- ===== src/Examples/Stores.antt =====
-- Two workspaces in the stores.
use writ_ai.Prelude.{String, ◌≡◌, refl, List, [], ◌∷◌, none, some}
use writ_ai.Exec.{Result, ok, err, key_error}
use writ_ai.Supervisor.{
  SupervisorAdapter, SupervisorExecutionMode, SupervisorLifecycleState, WorkspaceSupervisor,
}
use writ_ai.Workspaces.{
  Answer, Call, Document, LiveWorkspaceRecord, call, conflict, creates, gets, list_records, moved,
  mutates, run, saves,
}
use writ_ai.Workspaces.Refines.{promised, view}
use writ_ai.Workspaces.Keyed.{IsKeyed}
use writ_ai.Workspaces.Listed.{IsListing, store_refines}
use writ_ai.Workspaces.Sqlite.{Codec, Table, call_table, list_rows, migrate}
use writ_ai.Workspaces.Sqlite.Migrated.{migrate_agrees}
use writ_ai.Examples.Live.{both}

abbrev pub supervisor : WorkspaceSupervisor
supervisor = record {
  id = "S";
  name = "";
  state = SupervisorLifecycleState.running;
  adapter = SupervisorAdapter.fixture_agent_runtime;
  execution_mode = SupervisorExecutionMode.live;
  assignments = both;
  applied_interrupts = [];
}

abbrev pub workspace : LiveWorkspaceRecord
workspace = record {
  id = "W";
  graph_version = "graph-v4";
  invalidation_report = none;
  supervisor = some supervisor;
  updated_at = 1;
}

abbrev newer : LiveWorkspaceRecord
newer = record workspace { id = "V"; updated_at = 2 }

abbrev rename : LiveWorkspaceRecord → Result LiveWorkspaceRecord
rename r = ok (record r { id = "U" })

abbrev touch : LiveWorkspaceRecord → Result LiveWorkspaceRecord
touch r = ok (record r { updated_at = 3 })

abbrev calls : List Call
calls =
    creates workspace
    ∷ creates workspace
    ∷ saves newer
    ∷ mutates "W" rename
    ∷ mutates "W" touch
    ∷ gets "V"
    ∷ []

abbrev answers : List Answer
answers =
    ok none
    ∷ err (conflict "W")
    ∷ err (key_error "V")
    ∷ err (moved "W" "U")
    ∷ ok (some (record workspace { updated_at = 3 }))
    ∷ err (key_error "V")
    ∷ []

abbrev touched_only : Document
touched_only = record workspace { updated_at = 3 } ∷ []

store_refines_example :
    ((answers, view touched_only) ≡ run promised calls (view []))
    × IsListing (list_records touched_only) (run promised calls (view [])).1
unfolding run call
store_refines_example = store_refines calls [] tt

abbrev codec : Codec LiveWorkspaceRecord
codec = record { dump = λ r. r; load = λ r. some r; isoformat = λ n. "" }

abbrev document : Document
document = workspace ∷ newer ∷ []

migrate_agrees_example :
    (table : Table LiveWorkspaceRecord) × (rs : List LiveWorkspaceRecord) × (migrate codec document
      ≡ ok table)
    × ((run (call_table codec) calls table).0 ≡ (run call calls document).0)
    × (list_rows codec (run (call_table codec) calls table).1 ≡ ok rs)
    × IsKeyed rs
    × ((k : String) → view rs k ≡ view (run call calls document).1 k)
unfolding view
migrate_agrees_example = migrate_agrees codec (λ r. refl) document calls (refl, (refl, tt))
