-- ===== src/Examples/Graphs.antt =====
-- The graph store on concrete graphs.
use writ_ai.Prelude.{◌∷◌, [], List, refl, ◌≡◌, arith}
use writ_ai.Exec.{ok}
use writ_ai.Domain.{Artifact, Edge, EdgeKind}
use writ_ai.Graph.{
  reset, add_artifact, update_artifact, add_edge, increment_version, transaction,
  downstream_subgraph, first_walk, walk, Walk,
}
use writ_ai.Graph.WellFormed.{
  WellFormed, operations-WellFormed, transaction-WellFormed, add_artifact-WellFormed,
}
use writ_ai.Graph.Subgraph.Ended.{walk_ends}
use writ_ai.Dict.{lookup}
use writ_ai.Graph.Subgraph.Reached.{Subgraph, downstream_subgraph_exact}
use writ_ai.Provenance.{authority_downstream_edge_kinds}
use writ_ai.Examples.Data.{store, small-WellFormed, login_task, passkey, password, edge}

downstream_subgraph_exact_example :
    (xs : List Artifact) × (es : List Edge) × (downstream_subgraph store
        authority_downstream_edge_kinds "D1"
      ≡ ok (xs, es))
    × Subgraph store authority_downstream_edge_kinds "D1" xs es
downstream_subgraph_exact_example =
    downstream_subgraph_exact store authority_downstream_edge_kinds "D1" small-WellFormed refl

operations-WellFormed_example :
    WellFormed (add_artifact passkey store).1
    × WellFormed (update_artifact passkey store).1
    × WellFormed (add_edge (edge "D1" EdgeKind.creates "K9") store).1
    × WellFormed (increment_version store).1
    × WellFormed
        (reset 7
          (password ∷ login_task ∷ password ∷ [])
          (edge "D1" EdgeKind.creates "K1" ∷ [])
          store).1
operations-WellFormed_example =
    operations-WellFormed passkey (edge "D1" EdgeKind.creates "K9") 7
      (password ∷ login_task ∷ password ∷ []) (edge "D1" EdgeKind.creates "K1" ∷ []) store store
      small-WellFormed refl

transaction-WellFormed_example : WellFormed (transaction (add_artifact passkey) store).1
transaction-WellFormed_example =
    transaction-WellFormed (add_artifact passkey) (add_artifact-WellFormed passkey) store
      small-WellFormed

walk_ends_example :
    (t : Walk) × (walk store authority_downstream_edge_kinds 9 (first_walk password) ≡ ok t)
    × (walk store authority_downstream_edge_kinds 4 (first_walk password) ≡ ok t)
    × (t.queue ≡ [])
unfolding lookup
walk_ends_example =
    walk_ends store authority_downstream_edge_kinds password 9 small-WellFormed refl (omega arith)
