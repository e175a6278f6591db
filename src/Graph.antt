-- ===== src/Graph.antt =====
-- backend/writai/graph/memory.py: the in-memory graph store. Every stored and returned object is a
-- deep copy, so the values below are never shared.
pub mod WellFormed
pub mod Transaction
pub mod Subgraph
use Prim.Native.String.{compare, then as and_else}
use text.Mathlib.Text.{is_le}
use writ_ai.Prelude.{
  ℕ, zero, suc, ◌+◌, String, Bool, true, false, not, ◌&&◌, ◌||◌, ◌==◌, ◌≡◌, List, [], ◌∷◌, ◌++◌,
  map, Option, none, some, contains, filter, length, if◌then◌else◌,
}
use writ_ai.Prelude.Sorting.{sort_by, text_le}
use writ_ai.Prelude.Decimal.{decimal, append_text, decimal-injective, append_text-cancel}
use writ_ai.Exec.{
  Error, Result, ok, err, Exec, pure, raise, and_then, artifact_exists, unknown_artifact,
  missing_endpoint, out_of_fuel,
}
use writ_ai.Dict.{Dict, lookup, insert, has_key, values}
use writ_ai.Domain.{Artifact, Edge, EdgeKind}

pub record Store : Type 0 where
  pub version : ℕ
  pub artifacts : Dict Artifact
  pub edges : List Edge
  pub in_transaction : Bool

-- `MemoryGraphStore()`
abbrev pub empty_store : Store
empty_store = record { version = 0; artifacts = []; edges = []; in_transaction = false }

-- `{item.id: deepcopy(item) for item in artifacts}`
unfoldable pub index_by_id : Dict Artifact → List Artifact → Dict Artifact
index_by_id d [] = d
index_by_id d (a ∷ rest) = index_by_id (insert a.id a d) rest

unfoldable pub reset : ℕ → List Artifact → List Edge → Exec Store Unit
unfolding index_by_id
reset version artifacts edges s =
    (ok tt, record s { version = version; artifacts = index_by_id [] artifacts; edges = edges })

-- `f"graph-v{version}"`
unfoldable pub version_label : Store → String
version_label s = append_text "graph-v" (decimal s.version)

-- Labels of different versions differ.
pub version_label-injective :
    (s t : Store) → version_label s ≡ version_label t → s.version ≡ t.version
unfolding version_label
version_label-injective s t h =
    decimal-injective s.version t.version
      (append_text-cancel "graph-v" (decimal s.version) (decimal t.version) h)

unfoldable pub increment_version : Exec Store String
unfolding version_label
increment_version s = let t = record s { version = s.version + 1 } in (ok (version_label t), t)

settle : {A : Type 0} → Store → Result A → Store → Result A × Store
settle s (ok a) t = (ok a, record t { in_transaction = false })
settle s (err e) t = (
  err e,
  record t {
    version = s.version;
    artifacts = s.artifacts;
    edges = s.edges;
    in_transaction = false;
  },
)

-- The outermost block restores version, artifacts and edges when its body raises, and clears the
-- flag either way; an inner block is the body alone.
unfoldable pub transaction : {A : Type 0} → Exec Store A → Exec Store A
unfolding settle
transaction body s =
    if s.in_transaction
    then body s
    else (let (r, t) = body (record s { in_transaction = true }) in settle s r t)

unfoldable pub add_artifact : Artifact → Exec Store Unit
add_artifact a s =
    if has_key s.artifacts a.id
    then (err (artifact_exists a.id), s)
    else (ok tt, record s { artifacts = insert a.id a s.artifacts })

unfoldable pub update_artifact : Artifact → Exec Store Unit
update_artifact a s =
    if not (has_key s.artifacts a.id)
    then (err (unknown_artifact a.id), s)
    else (ok tt, record s { artifacts = insert a.id a s.artifacts })

unfoldable pub get_artifact : String → Store → Result Artifact
get_artifact k s = elim (lookup k s.artifacts) [ none ↦ err (unknown_artifact k) | some a ↦ ok a ]

pub get_artifact_of_lookup :
    (k : String) (s : Store) (a : Artifact)
    → lookup k s.artifacts ≡ some a
    → get_artifact k s ≡ ok a
unfolding get_artifact
get_artifact_of_lookup k s a h = rw (h, get_artifact)

abbrev pub id_order : Artifact → Artifact → Bool
id_order a b = text_le a.id b.id

unfoldable pub list_artifacts : Store → List Artifact
list_artifacts s = sort_by id_order (values s.artifacts)

unfoldable pub add_edge : Edge → Exec Store Unit
add_edge e s =
    if not (has_key s.artifacts e.source_id) || not (has_key s.artifacts e.target_id)
    then (err (missing_endpoint e.source_id e.target_id), s)
    else (ok tt, record s { edges = s.edges ++ e ∷ [] })

abbrev pub list_edges : Store → List Edge
list_edges s = s.edges

-- `EdgeKind.value`
unfoldable pub kind_value : EdgeKind → String
kind_value EdgeKind.supersedes = "SUPERSEDES"
kind_value EdgeKind.amends = "AMENDS"
kind_value EdgeKind.contradicts = "CONTRADICTS"
kind_value EdgeKind.basis_for = "BASIS_FOR"
kind_value EdgeKind.creates = "CREATES"
kind_value EdgeKind.decomposes_to = "DECOMPOSES_TO"
kind_value EdgeKind.currently_drives = "CURRENTLY_DRIVES"
kind_value EdgeKind.implements = "IMPLEMENTS"
kind_value EdgeKind.supported_by = "SUPPORTED_BY"

-- A set of edge kinds, or no filter: `kinds is None or edge.kind in kinds`.
abbrev pub Kinds : Type 0
Kinds = EdgeKind → Bool

-- `(edge.target_id, edge.kind)`
target_order : Edge → Edge → Bool
target_order a b =
    is_le
      (and_else (compare a.target_id b.target_id) (compare (kind_value a.kind) (kind_value b.kind)))

unfoldable pub outgoing_edges : String → Option Kinds → Store → List Edge
unfolding target_order
outgoing_edges k kinds s = sort_by target_order (
    filter (λ e. e.source_id == k && elim kinds [ none ↦ true | some allowed ↦ allowed e.kind ])
      s.edges)

-- The variables of `downstream_subgraph`.
pub record Walk : Type 0 where
  pub artifacts : Dict Artifact
  pub edges : List Edge
  pub queue : List String
  pub visited : List String

-- `if child.id not in visited: visited.add(child.id); queue.append(child.id)`, after the edge and the
-- child are recorded.
unfoldable pub record_child : Edge → Artifact → Walk → Walk
record_child e child w =
    let seen : Walk = record w {
      artifacts = insert child.id child w.artifacts;
      edges = w.edges ++ e ∷ [];
    } in
    if contains w.visited child.id
    then seen
    else record seen { queue = w.queue ++ child.id ∷ []; visited = child.id ∷ w.visited }

-- `(edge.source_id, edge.kind, edge.target_id)`
source_order : Edge → Edge → Bool
source_order a b = is_le (
    and_else (compare a.source_id b.source_id) (
      and_else (compare (kind_value a.kind) (kind_value b.kind)) (compare a.target_id b.target_id)))

abbrev pub first_walk : Artifact → Walk
first_walk root = record {
  artifacts = insert root.id root [];
  edges = [];
  queue = root.id ∷ [];
  visited = root.id ∷ [];
}

module _ (s : Store) (kinds : Kinds) where
  -- The body of the inner loop.
  unfoldable pub follow : String → Edge → Walk → Result Walk
  unfolding record_child
  follow source e w =
      if not (e.source_id == source) || not (kinds e.kind)
      then ok w
      else and_then (get_artifact e.target_id s) (λ child. ok (record_child e child w))

  -- `for edge in self._edges`
  unfoldable pub follow_all : String → List Edge → Walk → Result Walk
  follow_all source [] w = ok w
  follow_all source (e ∷ rest) w = and_then (follow source e w) (follow_all source rest)

  -- `while queue`
  unfoldable pub walk : ℕ → Walk → Result Walk
  walk zero w = elim w.queue [ [] ↦ ok w | _ ∷ _ ↦ err out_of_fuel ]
  walk (suc fuel) w = elim w.queue [
    | [] ↦ ok w
    | source ∷ rest ↦ and_then (follow_all source s.edges (record w { queue = rest })) (walk fuel)
  ]

  -- No id is queued twice, so the number of artifacts is fuel enough.
  unfoldable pub downstream_subgraph : String → Result (List Artifact × List Edge)
  unfolding source_order
  downstream_subgraph root_id = and_then (get_artifact root_id s) λ root.
      and_then (walk (length s.artifacts) (first_walk root))
        λ w. ok (sort_by id_order (values w.artifacts), sort_by source_order w.edges)
