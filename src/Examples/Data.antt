-- ===== src/Examples/Data.antt =====
-- Concrete artifacts: a decision that governs a ticket and two tasks, and a decision that supersedes it.
use writ_ai.Prelude.{String, List, [], ◌∷◌, none, some, finite, pos, false, refl}
use writ_ai.Domain.{
  ApprovalStatus, Artifact, ArtifactKind, DecisionMutation, Edge, EdgeKind, ValidityStatus,
}
use writ_ai.Domain.Value.{Fields, end, field, object, text}
use writ_ai.Graph.{Store}
use writ_ai.Graph.WellFormed.{WellFormed}
use writ_ai.Authority.{IntentAuthority}

abbrev pub artifact : String → ArtifactKind → List String → Fields → Artifact
artifact id kind scopes attributes = record {
  id = id;
  kind = kind;
  title = id;
  text = "";
  scopes = scopes;
  validity = ValidityStatus.valid;
  invalidated_scopes = [];
  approval_status = some ApprovalStatus.approved;
  authority_role = some "lead";
  confidence = finite (pos 9);
  effective_at = some 5;
  source_ref = none;
  attributes = attributes;
}

abbrev pub requires : String → Fields
requires how =
    field "requirements" (object (field "login" (object (field "method" (text how) end)) end)) end

abbrev pub password : Artifact
password = artifact "D1" ArtifactKind.decision ("login" ∷ []) (requires "password")

abbrev pub passkey : Artifact
passkey = artifact "D2" ArtifactKind.decision ("login" ∷ []) (requires "passkey")

abbrev pub ticket : Artifact
ticket = artifact "T1" ArtifactKind.ticket ("login" ∷ []) end

abbrev pub login_task : Artifact
login_task = artifact "K1" ArtifactKind.task ("login" ∷ "audit" ∷ []) end

abbrev pub billing_task : Artifact
billing_task = artifact "K2" ArtifactKind.task ("billing" ∷ []) end

abbrev pub edge : String → EdgeKind → String → Edge
edge source_id kind target_id = record {
  source_id = source_id;
  target_id = target_id;
  kind = kind;
  scopes = [];
  evidence_ref = none;
}

abbrev pub store : Store
store = record {
  version = 3;
  artifacts = ("D1", password) ∷ ("T1", ticket) ∷ ("K1", login_task) ∷ ("K2", billing_task) ∷ [];
  edges =
      edge "D1" EdgeKind.creates "T1"
      ∷ edge "T1" EdgeKind.decomposes_to "K1"
      ∷ edge "T1" EdgeKind.decomposes_to "K2"
      ∷ [];
  in_transaction = false;
}

pub small-WellFormed : WellFormed store
small-WellFormed = record {
  keyed = (refl, (refl, (refl, (refl, tt))));
  distinct = (refl, (refl, (refl, (refl, tt))));
  joined = ((refl, refl), ((refl, refl), ((refl, refl), tt)));
}

abbrev pub authority : IntentAuthority
authority = record {
  graph = store;
  authority_threshold = finite (pos 7);
  authority_policy = ("login", "lead" ∷ []) ∷ [];
  last_report = none;
}

abbrev pub switch : DecisionMutation
switch = record { decision = passkey; supersedes_id = "D1"; affected_scopes = "login" ∷ [] }
