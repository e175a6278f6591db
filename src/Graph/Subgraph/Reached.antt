-- ===== src/Graph/Subgraph/Reached.antt =====
-- What `downstream_subgraph` returns on a well-formed store.
use writ_ai.Prelude.{
  contains-any, ◌≤◌, String, Bool, true, ◌≡◌, refl, sym, subst, ap, ◌∙◌, ◌↔◌, ◌&&◌, Bool-ext,
  all_mono, ◌==◌, List, [], ◌∷◌, map, contains, any, all, subset, Each, length, arith, some,
}
use writ_ai.Prelude.Sorting.{sort_by, any-sort_by, all-sort_by, Each-sort_by}
use writ_ai.Exec.{ok}
use writ_ai.Dict.{
  Dict, EachEntry, lookup, has_key, keys, values, insert, any-values, length-keys,
  lookup_of_has_key, Each-values,
}
use writ_ai.Domain.{Artifact, Edge}
use writ_ai.Graph.{
  id_order, source_order, Store, Kinds, Walk, get_artifact, walk, first_walk, downstream_subgraph,
}
use writ_ai.Graph.WellFormed.{WellFormed, Joined, id-lookup}
use writ_ai.Graph.Subgraph.{is_allowed, targets, successors, Tracks, Gathers, walk_lem}
use writ_ai.Worklist.{Search, start, Reach}
use writ_ai.Worklist.Ends.{work, work-start, loop_returns}
use writ_ai.Worklist.Exact.{visited-loop, queue-loop}

-- The allowed edges out of an id lead to stored artifacts.
targets-subset :
    (kinds : Kinds) (u : String) (d : Dict Artifact) (es : List Edge)
    → Each (Joined d) es
    → subset (targets kinds u es) (keys d) ≡ true
targets-subset kinds u d [] j = refl
targets-subset kinds u d (e ∷ es) j = ground (arith, j.0.1, targets-subset kinds u d es j.1)

abbrev pub ids : List Artifact → List String
ids xs = map (λ a. a.id) xs

contains-ids : (xs : List Artifact) (k : String) → contains (ids xs) k ≡ any (λ a. a.id == k) xs
contains-ids [] k = refl
contains-ids (a ∷ xs) k = ground (arith, contains-ids xs k)

-- The collected ids are the visited ones.
ids-Tracks :
    (s : Store) (w : WellFormed s) (t : Walk)
    → Tracks s t
    → (k : String) → contains (ids (sort_by id_order (values t.artifacts))) k ≡ contains t.visited k
ids-Tracks s w t tracked k =
    contains-ids (sort_by id_order (values t.artifacts)) k
    ∙ (any-sort_by id_order (λ a. a.id == k) (values t.artifacts)
        ∙ (any-values (λ a. a.id == k) (λ j. j == k) t.artifacts (named t.artifacts tracked.copies)
            ∙ (sym (contains-any (keys t.artifacts) k) ∙ tracked.visits k)))
  where
    named :
        (d : Dict Artifact)
        → EachEntry (λ j a. lookup j s.artifacts ≡ some a) d
        → EachEntry (λ j a. (a.id == k) ≡ (j == k)) d
    named [] h = tt
    named ((j, a) ∷ d) h = (ap (λ x. x == k) (id-lookup s j a w h.0), named d h.1)

module _ (s : Store) (w : WellFormed s) (kinds : Kinds) (root : Artifact)
    (stored : lookup root.id s.artifacts ≡ some root)
    (present : has_key s.artifacts root.id ≡ true) where
  enough : work (keys s.artifacts) (start root.id) ≤ length s.artifacts
  enough = omega (arith, work-start (keys s.artifacts) root.id present, length-keys s.artifacts)

  Tracks-first : Tracks s (first_walk root)
  unfolding insert
  Tracks-first = record { visits = λ k. refl; copies = (stored, tt) }

  Gathers-first : Gathers s kinds (first_walk root)
  Gathers-first = record {
    targets_visited = refl;
    sound = λ u p h. ground arith;
    complete = λ u p done idle h. ground arith;
  }

  pub walk_returns :
      (t : Walk) × (walk s kinds (length s.artifacts) (first_walk root) ≡ ok t)
      × Tracks s t
      × Gathers s kinds t
      × (t.queue ≡ [])
      × ((k : String) → (contains t.visited k ≡ true) ↔ Reach (successors s kinds) root.id k)
  unfolding start
  walk_returns =
      let (t, ends) =
        loop_returns (keys s.artifacts) (successors s kinds)
          (λ u. targets-subset kinds u s.artifacts s.edges w.joined) (length s.artifacts)
          (start root.id) enough in
      let (t', returned, same, tracked, gathered) =
        walk_lem s w kinds (length s.artifacts) (first_walk root) t Tracks-first Gathers-first
          ends in
      (
        t',
        returned,
        tracked,
        gathered,
        ap (λ (x : Search). x.queue) same
            ∙ queue-loop (successors s kinds) (length s.artifacts) (start root.id) t ends,
        λ k.
            rw (ap (λ (x : Search). contains x.visited k) same)
              (visited-loop (successors s kinds) root.id (length s.artifacts) t ends k),
      )

-- What `downstream_subgraph` promises of its two lists, for a root of the store.
pub record Subgraph (s : Store) (kinds : Kinds) (root_id : String) (xs : List Artifact)
    (es : List Edge) : Type 0 where
  pub reached : (k : String) → (contains (ids xs) k ≡ true) ↔ Reach (successors s kinds) root_id k
  pub stored : Each (λ a. lookup a.id s.artifacts ≡ some a) xs
  pub closed : all (λ e. contains (ids xs) e.target_id) es ≡ true
  pub edges_of :
      (u : String) (p : Edge → Bool)
      → contains (ids xs) u ≡ true
      → any (λ e. (e.source_id == u) && p e) es ≡ any (λ e. is_allowed kinds u e && p e) s.edges

-- On a well-formed store and for a stored root, `downstream_subgraph` ends within its fuel and raises
-- nothing. The ids of its artifacts are exactly those that a walk over edges of the given kinds meets
-- from the root, the root included, and each artifact is the stored one. Its edges lead to those
-- artifacts, and the edges out of each of them are, as a set, the store's edges of the given kinds.
pub downstream_subgraph_exact :
    (s : Store) (kinds : Kinds) (root_id : String)
    → WellFormed s
    → has_key s.artifacts root_id ≡ true
    → (xs : List Artifact) × (es : List Edge) × (downstream_subgraph s kinds root_id ≡ ok (xs, es))
      × Subgraph s kinds root_id xs es
unfolding downstream_subgraph get_artifact
downstream_subgraph_exact s kinds root_id w present =
    let (root, stored) = lookup_of_has_key root_id s.artifacts present in
    let named = id-lookup s root_id root w stored in
    let (t, returned, tracked, gathered, idle, exact) =
      walk_returns s w kinds root (simp named stored) (simp named present) in
    let found = ids-Tracks s w t tracked in
    (
      sort_by id_order (values t.artifacts),
      sort_by source_order t.edges,
      ground arith,
      record {
        reached = λ k. rw (found k) (
            subst (λ r. (contains t.visited k ≡ true) ↔ Reach (successors s kinds) r k) named
              (exact k));
        stored =
            Each-sort_by id_order (λ a. lookup a.id s.artifacts ≡ some a) (values t.artifacts)
              (Each-values (λ k a. lookup k s.artifacts ≡ some a)
                (λ a. lookup a.id s.artifacts ≡ some a) (λ k a h. simp (id-lookup s k a w h) h)
                t.artifacts tracked.copies);
        closed =
            all-sort_by source_order _ t.edges
            ∙ all_mono (λ e. contains t.visited e.target_id) _ (λ e h. found e.target_id ∙ h)
                t.edges gathered.targets_visited;
        edges_of = λ u p h.
            any-sort_by source_order (λ e. (e.source_id == u) && p e) t.edges
            ∙ Bool-ext _ _ (gathered.sound u p)
                (gathered.complete u p (sym (found u) ∙ h) (ap (λ q. contains q u) idle));
      },
    )
