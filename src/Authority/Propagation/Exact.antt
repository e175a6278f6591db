-- ===== src/Authority/Propagation/Exact.antt =====
-- The affected ids of `_propagate_invalidation`, and the walk over affected artifacts.
use writ_ai.Prelude.{
  String, Bool, true, ◌&&◌, ◌==◌, ◌≡◌, refl, sym, ap, subst, ◌∙◌, ◌↔◌, List, [], ◌∷◌, map, contains,
  contains-filter, filter, subset, all, any, all-filter, any-filter, arith, eq_iff, inl, inr,
  Bool-cases,
}
use writ_ai.Prelude.Sorting.{any-sort_by, all-sort_by}
use writ_ai.Domain.{Artifact, Edge}
use writ_ai.Graph.{Store}
use writ_ai.Graph.Subgraph.{is_allowed, successors}
use writ_ai.Graph.Subgraph.Reached.{ids, Subgraph}
use writ_ai.Provenance.{authority_downstream_edge_kinds, authority_edge_order}
use writ_ai.Authority.Propagation.{outgoing}
use writ_ai.Authority.Propagation.Marks.{affects}
use writ_ai.Authority.Propagation.Loop.{leads_to}
use writ_ai.Worklist.{Reach, here, step}

contains-targets :
    (es : List Edge) (v : String)
    → contains (map (λ e. e.target_id) es) v ≡ any (λ e. e.target_id == v) es
contains-targets [] v = refl
contains-targets (e ∷ es) v = ground (arith, contains-targets es v)

all→any :
    (p : String → Bool) (q : Edge → Bool) (v : String) (es : List Edge)
    → all (λ e. p e.target_id) es ≡ true
    → any (λ e. q e && (e.target_id == v)) es ≡ true
    → p v ≡ true
all→any p q v [] h m = absurd (ground arith)
all→any p q v (e ∷ es) h m = elim (Bool-cases (q e && (e.target_id == v))) [
  | inl found ↦ subst (λ i. p i ≡ true) ((eq_iff e.target_id v).0 (ground arith)) (ground arith)
  | inr later ↦ all→any p q v es (ground arith) (ground arith)
]

all-targets :
    (p : String → Bool) (es : List Edge)
    → all (λ e. p e.target_id) es ≡ true
    → all p (map (λ e. e.target_id) es) ≡ true
all-targets p [] h = refl
all-targets p (e ∷ es) h = ground (arith, all-targets p es)

-- The affected artifacts that the edges of provenance lead to.
abbrev pub affected_successors : List String → Store → String → List String
affected_successors affected g u =
    filter (affects affected g) (successors g authority_downstream_edge_kinds u)

module _ (affected : List String) (changed root : String) (g g1 : Store)
    (same_edges : g1.edges ≡ g.edges) (xs : List Artifact) (es : List Edge)
    (sub : Subgraph g1 authority_downstream_edge_kinds root xs es) where
  any-outgoing :
      (u v : String)
      → any (λ e. e.target_id == v) (outgoing es u)
        ≡ any (λ e. (e.source_id == u) && (e.target_id == v)) es
  unfolding outgoing
  any-outgoing u v =
      any-sort_by authority_edge_order (λ e. e.target_id == v) (filter (λ e. e.source_id == u) es)
      ∙ any-filter (λ e. e.target_id == v) (λ e. e.source_id == u) es

  -- Out of a collected id the loop follows what the store's edges say.
  leads_to-eq :
      (u v : String)
      → contains (ids xs) u ≡ true
      → contains (leads_to affected changed root g es u) v
        ≡ contains (affected_successors affected g u) v
  leads_to-eq u v m =
      contains-filter (affects affected g) (map (λ e. e.target_id) (outgoing es u)) v
      ∙ (ap (λ b. b && affects affected g v)
            (contains-targets (outgoing es u) v
              ∙ (any-outgoing u v
                  ∙ (sub.edges_of u (λ e. e.target_id == v) m
                      ∙ (ap
                            (λ xs.
                              any
                                (λ e.
                                  is_allowed authority_downstream_edge_kinds u e
                                  && (e.target_id == v))
                                xs)
                            same_edges
                          ∙ (sym (
                                any-filter (λ e. e.target_id == v)
                                  (is_allowed authority_downstream_edge_kinds u) g.edges)
                              ∙ sym (
                                  contains-targets
                                    (filter (is_allowed authority_downstream_edge_kinds u) g.edges)
                                    v))))))
          ∙ sym (
              contains-filter (affects affected g) (successors g authority_downstream_edge_kinds u)
                v))

  leads_to-collected :
      (u v : String)
      → contains (leads_to affected changed root g es u) v ≡ true
      → contains (ids xs) v ≡ true
  leads_to-collected u v h =
      all→any (contains (ids xs)) (λ e. e.source_id == u) v es sub.closed
        (sym (any-outgoing u v)
          ∙ (sym (contains-targets (outgoing es u) v)
              ∙ ground (
                arith,
                h,
                contains-filter (affects affected g) (map (λ e. e.target_id) (outgoing es u)) v,
              )))

  root_collected : contains (ids xs) root ≡ true
  root_collected = (sub.reached root).1 here

  to_store :
      (k : String)
      → Reach (leads_to affected changed root g es) root k
      → Reach (affected_successors affected g) root k × (contains (ids xs) k ≡ true)
  to_store k here = (here, root_collected)
  to_store k (step {u} r l) =
      let (r', m) = to_store u r in
      (step r' (sym (leads_to-eq u k m) ∙ l), leads_to-collected u k l)

  from_store :
      (k : String)
      → Reach (affected_successors affected g) root k
      → Reach (leads_to affected changed root g es) root k × (contains (ids xs) k ≡ true)
  from_store k here = (here, root_collected)
  from_store k (step {u} r l) =
      let (r', m) = from_store u r in
      let l' = leads_to-eq u k m ∙ l in (step r' l', leads_to-collected u k l')

  pub Reach-iff :
      (k : String)
      → Reach (leads_to affected changed root g es) root k
        ↔ Reach (affected_successors affected g) root k
  Reach-iff k = (λ r. (to_store k r).0, λ r. (from_store k r).0)

  pub leads_to-subset :
      (u : String) → subset (leads_to affected changed root g es u) (ids xs) ≡ true
  unfolding outgoing
  leads_to-subset u =
      all-filter (contains (ids xs)) (affects affected g) (map (λ e. e.target_id) (outgoing es u)) (
        all-targets (contains (ids xs)) (outgoing es u) (
          all-sort_by authority_edge_order (λ e. contains (ids xs) e.target_id)
            (filter (λ e. e.source_id == u) es)
          ∙ all-filter (λ e. contains (ids xs) e.target_id) (λ e. e.source_id == u) es sub.closed))
