-- ===== src/Authority/Propagation/Invalidation.antt =====
-- The theorem about `_propagate_invalidation`.
use writ_ai.Prelude.{
  String, true, false, ◌||◌, ◌==◌, ◌≡◌, sym, ap, subst, ◌∙◌, ◌↔◌, List, [], some, contains, inter,
  Each, arith, eq_iff, inl, inr, Bool-cases, length, length-map, Each-mono,
}
use writ_ai.Exec.{ok}
use writ_ai.Dict.{lookup, has_key, has_key_of_lookup}
use writ_ai.Domain.{Artifact, Edge, InvalidationPath, InvalidationReport}
use writ_ai.Graph.{Store, get_artifact_of_lookup, downstream_subgraph}
use writ_ai.Graph.WellFormed.{WellFormed}
use writ_ai.Graph.Subgraph.Reached.{ids, Subgraph, downstream_subgraph_exact}
use writ_ai.Provenance.{authority_downstream_edge_kinds}
use writ_ai.Authority.{Platform}
use writ_ai.Authority.Propagation.{
  Trace, mark, mark_artifact, first_trace, propagate, build_report, propagate_invalidation,
}
use writ_ai.Authority.Propagation.Marks.{hit, affects}
use writ_ai.Authority.Propagation.Synced.{Sync}
use writ_ai.Authority.Propagation.Loop.{leads_to, propagate_lem}
use writ_ai.Authority.Propagation.Report.{Reports, build_report_returns}
use writ_ai.Authority.Propagation.Outcome.{Started, Started-hit, Started-miss, has_key-index_by_id}
use writ_ai.Authority.Propagation.Exact.{affected_successors, Reach-iff, leads_to-subset}
use writ_ai.Worklist.{Search, start, loop, Reach, here}
use writ_ai.Worklist.Ends.{work-start, loop_returns}
use writ_ai.Worklist.Exact.{visited-loop}

-- From `g` to `g'` exactly the listed artifacts were marked, all of them affected; the preserved ones
-- carry no affected scope; and the listed ids are those that a walk from the superseded artifact meets
-- when it follows provenance edges to affected artifacts only.
pub record Invalidates (affected : List String) (g : Store) (root : String) (g' : Store)
    (r : InvalidationReport) : Type 0 where
  pub well_formed : WellFormed g'
  pub version : g'.version ≡ g.version
  pub edges : g'.edges ≡ g.edges
  pub flag : g'.in_transaction ≡ g.in_transaction
  pub same_keys : (k : String) → has_key g'.artifacts k ≡ has_key g.artifacts k
  pub unlisted :
      (k : String)
      → contains r.affected_artifact_ids k ≡ false
      → lookup k g'.artifacts ≡ lookup k g.artifacts
  pub listed :
      (k : String)
      → contains r.affected_artifact_ids k ≡ true
      → (a : Artifact) × (lookup k g.artifacts ≡ some a)
        × (hit a affected ≡ true)
        × (lookup k g'.artifacts ≡ some (mark a affected))
  pub preserved :
      (k : String)
      → contains r.preserved_artifact_ids k ≡ true
      → (a : Artifact) × (lookup k g.artifacts ≡ some a) × (hit a affected ≡ false)
  pub exact :
      (k : String)
      → (contains r.affected_artifact_ids k ≡ true)
        ↔ (Reach (affected_successors affected g) root k × (affects affected g k ≡ true))

module _ (platform : Platform) (changed : Artifact) (affected : List String) (g : Store)
    (w : WellFormed g) (a0 : Artifact) (stored : lookup a0.id g.artifacts ≡ some a0) where
  listed_keys :
      (g' : Store) (t : Trace)
      → Sync affected changed.id a0.id g g' t
      → (k : String) → contains t.affected k ≡ true
      → has_key g'.artifacts k ≡ true
  listed_keys g' t s k m =
      let (a, was, is_hit, now) = s.hits k m in
      has_key_of_lookup k g'.artifacts (mark a affected) now

  preserved_keys :
      (g' : Store) (t : Trace)
      → Sync affected changed.id a0.id g g' t
      → (k : String) → contains t.preserved k ≡ true
      → has_key g'.artifacts k ≡ true
  preserved_keys g' t s k m =
      let (a, was, miss) = s.misses k m in s.same_keys k ∙ has_key_of_lookup k g.artifacts a was

  known_nodes :
      (g' : Store) (t : Trace)
      → Sync affected changed.id a0.id g g' t
      → Each
          (λ (p : InvalidationPath).
            Each (λ k. (k == changed.id || has_key g'.artifacts k) ≡ true) p.node_ids)
          t.paths
  known_nodes g' t s =
      Each-mono _ _
        (λ p h. Each-mono _ _ (λ k known. ground (arith, known, s.same_keys k)) p.node_ids h)
        t.paths s.path_nodes

  -- The end of the loop, read off its invariant.
  invalidates :
      (g' : Store) (t : Trace) (r : InvalidationReport)
      → Sync affected changed.id a0.id g g' t
      → Reports platform changed a0.id affected t r
      → ((k : String)
          → (contains t.visited k ≡ true) ↔ Reach (affected_successors affected g) a0.id k)
      → Invalidates affected g a0.id g' r
  invalidates g' t r s reports visits = record {
    well_formed = s.well_formed;
    version = s.version;
    edges = s.edges;
    flag = s.flag;
    same_keys = s.same_keys;
    unlisted = λ k m. s.others k (rw reports.affected_ids at m);
    listed = λ k m. s.hits k (rw reports.affected_ids at m);
    preserved = λ k m. s.misses k (rw reports.preserved_ids at m);
    exact = λ k. (
      λ m.
          let m' : contains t.affected k ≡ true = rw reports.affected_ids at m in
          let (a, was, is_hit, now) = s.hits k m' in
          ((visits k).0 (ground (arith, s.tracked k, m')), rw (was, affects) is_hit),
      λ (r, aff). rw reports.affected_ids (elim (Bool-cases (a0.id == k)) [
        | inl same ↦
            let e = (eq_iff a0.id k).0 same in
            subst (λ i. contains t.affected i ≡ true) e
              (s.root_listed (subst (λ i. affects affected g i ≡ true) (sym e) aff))
        | inr other ↦ ground (arith, s.tracked k, (visits k).1 r, other)
      ]),
    );
  }

  runs :
      (marked : Artifact) (common : List String) (g1 g' : Store) (xs : List Artifact)
      (es : List Edge)
      → (t : Trace) (r : InvalidationReport)
      → mark_artifact a0 affected g ≡ (ok (marked, common), g1)
      → downstream_subgraph g1 authority_downstream_edge_kinds marked.id ≡ ok (xs, es)
      → propagate (length xs) affected es (first_trace changed marked common xs) g1 ≡ (ok t, g')
      → build_report platform changed a0.id affected t g' ≡ ok r
      → propagate_invalidation platform changed a0.id affected g ≡ (ok r, g')
  unfolding propagate_invalidation
  runs marked common g1 g' xs es t r marks walks loops built =
      rw (get_artifact_of_lookup a0.id g a0 stored) (rw marks (rw walks (rw loops (rw built))))

  finish :
      (marked : Artifact) (common : List String) (g1 : Store)
      → Started changed affected g w a0 stored marked common g1
      → (r : InvalidationReport) × (g' : Store) × (propagate_invalidation platform changed a0.id
            affected g
          ≡ (ok r, g'))
        × Invalidates affected g a0.id g' r
  unfolding first_trace start
  finish marked common g1 s =
      let none_found = s.sync [] tt in
      let present : has_key g1.artifacts marked.id ≡ true =
        rw s.same_id (none_found.same_keys a0.id ∙ has_key_of_lookup a0.id g.artifacts a0 stored) in
      let (xs, es, got, sub) =
        downstream_subgraph_exact g1 authority_downstream_edge_kinds marked.id
          none_found.well_formed present in
      let sub' = subst (λ i. Subgraph g1 authority_downstream_edge_kinds i xs es) s.same_id sub in
      let t0 = first_trace changed marked common xs in
      let sync0 = s.sync xs sub.stored in
      let (u, ends) =
        loop_returns (ids xs) (leads_to affected changed.id a0.id g es)
          (leads_to-subset affected changed.id a0.id g g1 none_found.edges xs es sub') (length xs)
          (start a0.id)
          (omega (
            arith,
            work-start (ids xs) a0.id ((sub'.reached a0.id).1 here),
            length-map (λ (a : Artifact). a.id) xs,
          )) in
      let (t, g', ran, synced, walked) =
        propagate_lem affected changed.id a0.id g (contains (ids xs)) es (length xs) g1 t0 u sync0
          (has_key-index_by_id [] xs) sub.closed
          (subst
            (λ i. loop (leads_to affected changed.id a0.id g es) (length xs) (start i) ≡ some u)
            (sym s.same_id) ends) in
      let (r, built, reports) =
        build_report_returns platform changed a0.id affected t g' (listed_keys g' t synced)
          (preserved_keys g' t synced) (known_nodes g' t synced) in
      (
        r,
        g',
        runs marked common g1 g' xs es t r s.ran got ran built,
        invalidates g' t r synced reports (λ k.
            let seen =
              visited-loop (leads_to affected changed.id a0.id g es) a0.id (length xs) u ends k in
            let same = Reach-iff affected changed.id a0.id g g1 none_found.edges xs es sub' k in
            (
              λ v. same.0 (seen.0 (sym (ap (λ (x : Search). contains x.visited k) walked) ∙ v)),
              λ q. ap (λ (x : Search). contains x.visited k) walked ∙ seen.1 (same.1 q),
            )),
      )

  pub propagate_invalidation_exact :
      (r : InvalidationReport) × (g' : Store) × (propagate_invalidation platform changed a0.id
          affected g
        ≡ (ok r, g'))
      × Invalidates affected g a0.id g' r
  propagate_invalidation_exact = elim (Bool-cases (hit a0 affected)) [
    | inl is_hit ↦
        finish (mark a0 affected) (inter a0.scopes affected) _
          (Started-hit changed affected g w a0 stored is_hit)
    | inr miss ↦ finish a0 [] g (Started-miss changed affected g w a0 stored miss)
  ]
