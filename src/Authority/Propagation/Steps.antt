-- ===== src/Authority/Propagation/Steps.antt =====
-- One edge of the loop of `_propagate_invalidation`.
use writ_ai.Prelude.{
  String, Bool, true, false, ◌==◌, ◌≡◌, refl, ◌∙◌, subst, inl, inr, List, [], ◌∷◌, ◌++◌, some,
  contains, Each, is_empty, inter, arith, eq_iff, eq_refl, Bool-cases, if◌then◌else◌,
}
use writ_ai.Exec.{ok}
use writ_ai.Dict.{lookup, insert, has_key, lookup-insert, has_key-insert, has_key_of_lookup}
use writ_ai.Domain.{Artifact, Edge, InvalidationPath}
use writ_ai.Graph.{Store}
use writ_ai.Graph.WellFormed.{WellFormed, store-WellFormed}
use writ_ai.Authority.Propagation.{Trace, mark, add_once, note_affected, note_evidence, visit_child}
use writ_ai.Authority.Propagation.Marks.{hit, affects, id-mark, mark_artifact-hit}
use writ_ai.Worklist.{Search, offer}
use writ_ai.Authority.Propagation.Synced.{
  contains-add_once, shadow, Known, Sync, origin, Each-append, Sync-miss, hit_trace, hit_store,
  shadow-hit_trace,
}

module _ (affected : List String) (changed root : String) (before : Store) where
  Sync-hit :
      (g : Store) (t : Trace) (c : Artifact) (next_path : List String)
      → Sync affected changed root before g t
      → lookup c.id g.artifacts ≡ some c
      → hit c affected ≡ true
      → Each (Known affected changed root before) next_path
      → Sync affected changed root before
          (hit_store c.id (mark c affected) g)
          (hit_trace c.id (mark c affected) next_path t)
  Sync-hit g t c next_path s h is_hit nodes =
      let k = c.id in
      let c' = mark c affected in
      let (a, stored, as_was, marks) = origin affected changed root before g t k c s h in
      record {
        well_formed =
            subst (λ i. WellFormed (hit_store i c' g)) (id-mark c affected)
              (store-WellFormed g c' s.well_formed);
        version = s.version;
        edges = s.edges;
        flag = s.flag;
        same_keys = λ j.
            has_key-insert k j c' g.artifacts
            ∙ ground (arith, s.same_keys j, eq_iff k j, has_key_of_lookup k g.artifacts c);
        others = λ j m.
            lookup-insert k j c' g.artifacts
            ∙ ground (arith, contains-add_once k j t.affected, s.others j);
        hits = λ j m. elim (Bool-cases (k == j)) [
          | inl same ↦
              subst
                (λ i.
                  (b : Artifact) × (lookup i before.artifacts ≡ some b)
                  × (hit b affected ≡ true)
                  × (lookup i (insert k c' g.artifacts) ≡ some (mark b affected)))
                ((eq_iff k j).0 same)
                (
                  a,
                  stored,
                  as_was ∙ is_hit,
                  lookup-insert k k c' g.artifacts ∙ ground (arith, eq_refl k, marks),
                )
          | inr other ↦
              let (b, was, hit_b, now) =
                s.hits j (ground (arith, contains-add_once k j t.affected)) in
              (b, was, hit_b, lookup-insert k j c' g.artifacts ∙ ground (arith, now))
        ];
        misses = s.misses;
        tracked = λ j. ground (
          arith,
          s.tracked j,
          s.tracked k,
          contains-add_once k j t.affected,
          eq_iff k j,
          eq_iff root j,
          eq_iff root k,
        );
        root_listed = λ h. contains-add_once k root t.affected ∙ ground (arith, s.root_listed h);
        copies = λ j d p.
            lookup-insert k j c' g.artifacts
            ∙ ground (arith, lookup-insert k j c' t.artifacts, s.copies j d);
        path_nodes = elim (Bool-cases (contains t.affected k)) [
          | inl old ↦ rw old s.path_nodes
          | inr new ↦ rw new (
              Each-append affected changed root before
                (λ (p : InvalidationPath). Each (Known affected changed root before) p.node_ids)
                t.paths (record { artifact_id = k; node_ids = next_path }) s.path_nodes nodes)
        ];
        queue_nodes = elim (Bool-cases (contains t.visited k)) [
          | inl old ↦ rw old s.queue_nodes
          | inr new ↦ rw new (
              Each-append affected changed root before
                (λ (q : String × List String). Each (Known affected changed root before) q.1)
                t.queue (k, next_path) s.queue_nodes nodes)
        ];
      }

  pub Sync-evidence :
      (g : Store) (t : Trace) (e : Edge) (c : Artifact)
      → Sync affected changed root before g t
      → Sync affected changed root before g (note_evidence e c t)
  unfolding note_evidence
  Sync-evidence g t e c s = record {
    well_formed = s.well_formed;
    version = s.version;
    edges = s.edges;
    flag = s.flag;
    same_keys = s.same_keys;
    others = s.others;
    hits = s.hits;
    misses = s.misses;
    tracked = s.tracked;
    root_listed = s.root_listed;
    copies = s.copies;
    path_nodes = s.path_nodes;
    queue_nodes = s.queue_nodes;
  }

  -- Whether the id stands for an artifact that the change affects.
  abbrev pub is_hit_id : String → Bool
  is_hit_id k = affects affected before k

  -- What one call leaves: a returned trace over a graph that still agrees with it.
  pub record Stepped (t : Trace) (u : Search) (t' : Trace) (g' : Store) : Type 0 where
    pub agrees : Sync affected changed root before g' t'
    pub walked : shadow t' ≡ u
    pub same_local : (k : String) → has_key t'.artifacts k ≡ has_key t.artifacts k

  visit_child-hit :
      (g : Store) (t : Trace) (e : Edge) (path : List String) (c : Artifact)
      → e.target_id ≡ c.id
      → hit c affected ≡ true
      → lookup c.id g.artifacts ≡ some c
      → visit_child affected path e c t g ≡ (
        ok (hit_trace c.id (mark c affected) (path ++ c.id ∷ []) t),
        hit_store c.id (mark c affected) g,
      )
  unfolding visit_child note_affected
  visit_child-hit g t e path c named is_hit in_graph =
      let some_common : is_empty (inter c.scopes affected) ≡ false = ground arith in
      rw (some_common, mark_artifact-hit c affected g is_hit in_graph, named)
        (simp (id-mark c affected))

  pub visit_child_lem :
      (g : Store) (t : Trace) (e : Edge) (path : List String) (c : Artifact)
      → Sync affected changed root before g t
      → lookup c.id t.artifacts ≡ some c
      → e.target_id ≡ c.id
      → Each (Known affected changed root before) path
      → (t' : Trace) × (g' : Store) × (visit_child affected path e c t g ≡ (ok t', g'))
        × Stepped t (if is_hit_id c.id then offer (shadow t) c.id else shadow t) t' g'
  unfolding visit_child note_affected
  visit_child_lem g t e path c s h named nodes =
      let in_graph = s.copies c.id c h in
      let (a, stored, as_was, marks) = origin affected changed root before g t c.id c s in_graph in
      let leads : is_hit_id c.id ≡ hit c affected = rw (stored, affects) as_was in
      elim (Bool-cases (hit c affected)) [
        | inr miss ↦ (
          record t { preserved = add_once c.id t.preserved },
          g,
          ground arith,
          record {
            agrees = Sync-miss affected changed root before g t c.id c s in_graph miss;
            walked = ground arith;
            same_local = λ k. refl;
          },
        )
        | inl is_hit ↦
            let next_path = path ++ c.id ∷ [] in
            let c' = mark c affected in
            (
              hit_trace c.id c' next_path t,
              hit_store c.id c' g,
              visit_child-hit g t e path c named is_hit in_graph,
              record {
                agrees = Sync-hit g t c next_path s in_graph is_hit (
                    Each-append affected changed root before (Known affected changed root before)
                      path c.id nodes
                      (ground (arith, s.same_keys c.id, has_key_of_lookup c.id g.artifacts c)));
                walked = shadow-hit_trace c.id c' next_path t ∙ ground arith;
                same_local = λ k.
                    has_key-insert c.id k c' t.artifacts
                    ∙ ground (arith, eq_iff c.id k, has_key_of_lookup c.id t.artifacts c);
              },
            )
      ]
