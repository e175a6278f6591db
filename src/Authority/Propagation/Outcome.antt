-- ===== src/Authority/Propagation/Outcome.antt =====
-- `_propagate_invalidation` as a whole, from a well-formed graph that holds the superseded artifact.
use writ_ai.Prelude.{
  String, true, false, ◌||◌, ◌==◌, ◌≡◌, refl, subst, ◌∙◌, List, [], ◌∷◌, some, contains, inter,
  is_empty, Each, arith, eq_iff, eq_refl, inl, inr, Bool-cases,
}
use writ_ai.Exec.{ok}
use writ_ai.Dict.{Dict, lookup, insert, has_key, lookup-insert, has_key-insert, has_key_of_lookup}
use writ_ai.Domain.{Artifact}
use writ_ai.Graph.{Store, index_by_id}
use writ_ai.Graph.WellFormed.{WellFormed, store-WellFormed}
use writ_ai.Graph.Subgraph.Reached.{ids}
use writ_ai.Authority.Propagation.{mark, mark_artifact, first_trace}
use writ_ai.Authority.Propagation.Marks.{hit, affects, mark_artifact-hit, mark_artifact-miss}
use writ_ai.Authority.Propagation.Synced.{Sync, Known}

-- `{artifact.id: artifact for artifact in found}` holds the listed artifacts, under their ids.
index_by_id-copies :
    (d : Dict Artifact) (g : Dict Artifact) (xs : List Artifact)
    → ((k : String) (c : Artifact) → lookup k d ≡ some c → lookup k g ≡ some c)
    → Each (λ a. lookup a.id g ≡ some a) xs
    → (k : String) (c : Artifact) → lookup k (index_by_id d xs) ≡ some c
    → lookup k g ≡ some c
unfolding index_by_id
index_by_id-copies d g [] old h k c p = old k c p
index_by_id-copies d g (a ∷ xs) old h k c p =
    index_by_id-copies (insert a.id a d) g xs
      (λ j b q. elim (Bool-cases (a.id == j)) [
        | inl same ↦
            subst (λ i. lookup i g ≡ some b) ((eq_iff a.id j).0 same)
              (ground (arith, lookup-insert a.id j a d, h.0))
        | inr other ↦ old j b (ground (arith, lookup-insert a.id j a d))
      ])
      h.1 k c p

pub has_key-index_by_id :
    (d : Dict Artifact) (xs : List Artifact) (k : String)
    → has_key (index_by_id d xs) k ≡ (has_key d k || contains (ids xs) k)
unfolding index_by_id
has_key-index_by_id d [] k = ground arith
has_key-index_by_id d (a ∷ xs) k =
    ground (arith, has_key-index_by_id (insert a.id a d) xs k, has_key-insert a.id k a d)

module _ (changed : Artifact) (affected : List String) (g : Store) (w : WellFormed g)
    (a0 : Artifact) (stored : lookup a0.id g.artifacts ≡ some a0) where
  -- After the superseded artifact was marked: its id is the root of the loop.
  pub record Started (marked : Artifact) (common : List String) (g1 : Store) : Type 0 where
    pub ran : mark_artifact a0 affected g ≡ (ok (marked, common), g1)
    pub same_id : marked.id ≡ a0.id
    pub sync :
        (found : List Artifact)
        → Each (λ a. lookup a.id g1.artifacts ≡ some a) found
        → Sync affected changed.id a0.id g g1 (first_trace changed marked common found)

  pub Started-miss : hit a0 affected ≡ false → Started a0 [] g
  unfolding first_trace lookup
  Started-miss miss = record {
    ran = mark_artifact-miss a0 affected g miss;
    same_id = refl;
    sync = λ found h. record {
      well_formed = w;
      version = refl;
      edges = refl;
      flag = refl;
      same_keys = λ k. refl;
      others = λ k m. refl;
      hits = λ k m. absurd (ground arith);
      misses = λ k m. absurd (ground arith);
      tracked = λ k. refl;
      root_listed = λ h. absurd (let no_hit = rw (stored, affects) at h in ground (arith, no_hit));
      copies = index_by_id-copies [] g.artifacts found (λ k c p. absurd (ground arith)) h;
      path_nodes = tt;
      queue_nodes = (
        (
          ground (arith, eq_refl changed.id),
          (ground (arith, has_key_of_lookup a0.id g.artifacts a0 stored), tt),
        ),
        tt,
      );
    };
  }

  pub Started-hit :
      hit a0 affected ≡ true
      → Started
          (mark a0 affected)
          (inter a0.scopes affected)
          (record g { artifacts = insert a0.id (mark a0 affected) g.artifacts })
  unfolding first_trace mark
  Started-hit is_hit =
      let some_common : is_empty (inter a0.scopes affected) ≡ false = ground arith in
      let a1 = mark a0 affected in
      let nodes : Each (Known affected changed.id a0.id g) (changed.id ∷ a0.id ∷ []) = (
        ground (arith, eq_refl changed.id),
        (ground (arith, has_key_of_lookup a0.id g.artifacts a0 stored), tt),
      ) in
      record {
        ran = mark_artifact-hit a0 affected g is_hit stored;
        same_id = refl;
        sync = λ found h. record {
          well_formed = store-WellFormed g a1 w;
          version = refl;
          edges = refl;
          flag = refl;
          same_keys = λ k.
              has_key-insert a0.id k a1 g.artifacts
              ∙ ground (arith, eq_iff a0.id k, has_key_of_lookup a0.id g.artifacts a0 stored);
          others = λ k m. lookup-insert a0.id k a1 g.artifacts ∙ ground (arith, some_common, m);
          hits = λ k m.
              let same : a0.id ≡ k = (eq_iff a0.id k).0 (ground (arith, some_common, m)) in
              (
                a0,
                subst (λ i. lookup i g.artifacts ≡ some a0) same stored,
                is_hit,
                lookup-insert a0.id k a1 g.artifacts ∙ ground (arith, eq_iff a0.id k, same),
              );
          misses = λ k m. absurd (ground arith);
          tracked = λ k. ground (arith, some_common);
          root_listed = λ h. ground (arith, some_common, eq_refl a0.id);
          copies =
              index_by_id-copies [] (insert a0.id a1 g.artifacts) found
                (λ k c p. absurd (unfold lookup in ground arith)) h;
          path_nodes = rw some_common (nodes, tt);
          queue_nodes = (nodes, tt);
        };
      }
