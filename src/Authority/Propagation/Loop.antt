-- ===== src/Authority/Propagation/Loop.antt =====
-- The loop of `_propagate_invalidation`, beside the breadth-first loop of Worklist.
use writ_ai.Prelude.{
  ℕ, zero, suc, String, Bool, true, false, ◌==◌, ◌≡◌, refl, sym, subst, ap, ◌∙◌, List, [], ◌∷◌,
  some, map, Each, all, all-filter, filter, arith, List-cases, inl, inr, if◌then◌else◌,
}
use writ_ai.Prelude.Sorting.{all-sort_by}
use writ_ai.Exec.{ok, ◌>>=◌}
use writ_ai.Dict.{has_key, lookup_of_has_key}
use writ_ai.Domain.{Edge}
use writ_ai.Graph.{Store}
use writ_ai.Graph.WellFormed.{id-lookup}
use writ_ai.Provenance.{authority_edge_order}
use writ_ai.Authority.Propagation.{
  Trace, visit_edge, visit_edges, outgoing, propagate, note_evidence,
}
use writ_ai.Authority.Propagation.Synced.{Sync, Known, shadow}
use writ_ai.Authority.Propagation.Steps.{Stepped, is_hit_id, Sync-evidence, visit_child_lem}
use writ_ai.Worklist.{Search, offer, scan, expand, loop}

scan-if :
    (b : Bool) (s : Search) (v : String) (vs : List String)
    → scan (if b then offer s v else s) vs ≡ scan s (if b then v ∷ vs else vs)
unfolding scan
scan-if true s v vs = refl
scan-if false s v vs = refl

-- One round, where the visits of the popped id return.
propagate_step :
    (affected : List String) (edges : List Edge) (fuel : ℕ) (g g1 : Store) (t t1 : Trace)
    → (k : String) (path : List String) (rest : List (String × List String))
    → t.queue ≡ (k, path) ∷ rest
    → visit_edges affected path (outgoing edges k) (record t { queue = rest }) g ≡ (ok t1, g1)
    → propagate (suc fuel) affected edges t g ≡ propagate fuel affected edges t1 g1
unfolding propagate
propagate_step affected edges fuel g g1 t t1 k path rest e ran = rw (e, propagate) (rw (ran, ◌>>=◌))

all-outgoing :
    (p : String → Bool) (edges : List Edge) (k : String)
    → all (λ e. p e.target_id) edges ≡ true
    → all (λ e. p e.target_id) (outgoing edges k) ≡ true
unfolding outgoing
all-outgoing p edges k h =
    all-sort_by authority_edge_order (λ e. p e.target_id) (filter (λ e. e.source_id == k) edges)
    ∙ all-filter (λ e. p e.target_id) (λ e. e.source_id == k) edges h

module _ (affected : List String) (changed root : String) (before : Store) where
  -- The affected ids among the targets.
  abbrev pub hit_targets : List Edge → List String
  hit_targets es = filter (is_hit_id affected changed root before) (map (λ e. e.target_id) es)

  abbrev pub leads_to : List Edge → String → List String
  leads_to edges k = hit_targets (outgoing edges k)

  visit_edge_lem :
      (g : Store) (t : Trace) (e : Edge) (path : List String)
      → Sync affected changed root before g t
      → has_key t.artifacts e.target_id ≡ true
      → Each (Known affected changed root before) path
      → (t' : Trace) × (g' : Store) × (visit_edge affected path e t g ≡ (ok t', g'))
        × Stepped affected changed root before t
            (if is_hit_id affected changed root before e.target_id
              then offer (shadow t) e.target_id
              else shadow t)
            t'
            g'
  unfolding visit_edge note_evidence
  visit_edge_lem g t e path s present nodes =
      let (c, here) = lookup_of_has_key e.target_id t.artifacts present in
      let named = id-lookup g e.target_id c s.well_formed (s.copies e.target_id c here) in
      let t1 = note_evidence e c t in
      let (t', g', ran, stepped) =
        visit_child_lem affected changed root before g t1 e path c
          (Sync-evidence affected changed root before g t e c s) (simp named here) (sym named)
          nodes in
      (
        t',
        g',
        rw (here, visit_edge) ran,
        record {
          agrees = stepped.agrees;
          walked =
              subst
                (λ i. shadow t' ≡ (
                  if is_hit_id affected changed root before i
                  then offer (shadow t) i
                  else shadow t))
                named stepped.walked;
          same_local = stepped.same_local;
        },
      )

  visit_edges_lem :
      (local : String → Bool) (g : Store) (t : Trace) (es : List Edge) (path : List String)
      → Sync affected changed root before g t
      → ((k : String) → has_key t.artifacts k ≡ local k)
      → all (λ e. local e.target_id) es ≡ true
      → Each (Known affected changed root before) path
      → (t' : Trace) × (g' : Store) × (visit_edges affected path es t g ≡ (ok t', g'))
        × Stepped affected changed root before t (scan (shadow t) (hit_targets es)) t' g'
  unfolding visit_edges scan
  visit_edges_lem local g t [] path s l a nodes =
      (t, g, refl, record { agrees = s; walked = refl; same_local = λ k. refl })
  visit_edges_lem local g t (e ∷ es) path s l a nodes =
      let (t1, g1, ran, one) = visit_edge_lem g t e path s (l e.target_id ∙ ground arith) nodes in
      let (t', g', ran', more) =
        visit_edges_lem local g1 t1 es path one.agrees (λ k. one.same_local k ∙ l k) (ground arith)
          nodes in
      (
        t',
        g',
        rw (ran, ◌>>=◌) ran',
        record {
          agrees = more.agrees;
          walked =
              more.walked
              ∙ ap (λ u. scan u (hit_targets es)) one.walked
              ∙ scan-if (is_hit_id affected changed root before e.target_id) (shadow t) e.target_id
                  (hit_targets es);
          same_local = λ k. more.same_local k ∙ one.same_local k;
        },
      )

  Sync-popped :
      (g : Store) (t : Trace) (rest : List (String × List String))
      → Sync affected changed root before g t
      → Each (λ (q : String × List String). Each (Known affected changed root before) q.1) rest
      → Sync affected changed root before g (record t { queue = rest })
  Sync-popped g t rest s nodes = record {
    well_formed = s.well_formed;
    version = s.version;
    edges = s.edges;
    flag = s.flag;
    same_keys = s.same_keys;
    others = s.others;
    hits = s.hits;
    misses = s.misses;
    tracked = s.tracked;
    root_listed = s.root_listed;
    copies = s.copies;
    path_nodes = s.path_nodes;
    queue_nodes = nodes;
  }

  -- A run of the shared loop on the shadow is a run of this one that raises nothing.
  pub propagate_lem :
      (local : String → Bool) (edges : List Edge) (fuel : ℕ) (g : Store) (t : Trace) (u : Search)
      → Sync affected changed root before g t
      → ((k : String) → has_key t.artifacts k ≡ local k)
      → all (λ e. local e.target_id) edges ≡ true
      → loop (leads_to edges) fuel (shadow t) ≡ some u
      → (t' : Trace) × (g' : Store) × (propagate fuel affected edges t g ≡ (ok t', g'))
        × Sync affected changed root before g' t'
        × (shadow t' ≡ u)
  unfolding propagate loop expand
  propagate_lem local edges zero g t u s l a h = elim (List-cases t.queue) [
    | inl empty ↦ (t, g, ground arith, s, ground arith)
    | inr ((k, path), rest, e) ↦ absurd (ground arith)
  ]
  propagate_lem local edges (suc fuel) g t u s l a h = elim (List-cases t.queue) [
    | inl empty ↦ (t, g, ground arith, s, ground arith)
    | inr ((k, path), rest, e) ↦
        let nodes =
          subst (Each (λ (q : String × List String). Each (Known affected changed root before) q.1))
            e s.queue_nodes in
        let popped : Trace = record t { queue = rest } in
        let (t1, g1, ran, one) =
          visit_edges_lem local g popped (outgoing edges k) path (Sync-popped g t rest s nodes.1) l
            (all-outgoing (λ v. local v) edges k a) nodes.0 in
        let (t', g', ran', s', walked) =
          propagate_lem local edges fuel g1 t1 u one.agrees (λ j. one.same_local j ∙ l j) a
            (rw one.walked (rw (e, loop) at h)) in
        (t', g', propagate_step affected edges fuel g g1 t t1 k path rest e ran ∙ ran', s', walked)
  ]
