-- ===== src/Graph/Subgraph.antt =====
-- The loop of `MemoryGraphStore.downstream_subgraph`, beside the breadth-first loop of Worklist.
pub mod Ended
pub mod Reached
use mathlib.Core.List.{append-nil, append_assoc}
use writ_ai.Prelude.{
  any, all, filter, ◌&&◌, any-append, all-append, any_mono, all_mono, any-filter, ℕ, zero, suc,
  String, Bool, true, false, not, ◌≡◌, refl, sym, subst, ap, ap₂, ◌∙◌, ◌↔◌, List, [], ◌∷◌, ◌++◌,
  map, Option, none, some, contains, Each, arith, eq_iff, eq_refl, inl, inr, List-cases, Bool-cases,
  ◌==◌, ◌||◌, if◌then◌else◌, length, subset, ◌≤◌,
}
use writ_ai.Exec.{Result, ok, err, and_then}
use writ_ai.Dict.{
  Dict, EachEntry, EachEntry-insert, lookup, insert, has_key, keys, values, lookup-insert,
  has_key-insert, lookup_of_has_key, has_key_of_lookup,
}
use writ_ai.Domain.{Artifact, Edge}
use writ_ai.Graph.{
  Store, Kinds, Walk, get_artifact, record_child, follow, follow_all, walk, first_walk,
}
use writ_ai.Graph.WellFormed.{WellFormed, Joined, id-lookup}
use writ_ai.Worklist.Exact.{Fresh, Fresh-scan, visited-scan}
use writ_ai.Worklist.{Search, offer, scan, expand, loop}

-- `edge.source_id == source_id and edge.kind in kinds`
abbrev pub is_allowed : Kinds → String → Edge → Bool
is_allowed kinds u e = (e.source_id == u) && kinds e.kind

-- The targets of the allowed edges out of `u`, in the order of the list.
abbrev pub targets : Kinds → String → List Edge → List String
targets kinds u es = map (λ e. e.target_id) (filter (is_allowed kinds u) es)

abbrev pub successors : Store → Kinds → String → List String
successors s kinds u = targets kinds u s.edges

abbrev pub shadow : Walk → Search
shadow w = record { visited = w.visited; queue = w.queue }

-- The collected edges lead to visited ids; out of an id that is done they are the allowed ones, and out
-- of the others there is none but allowed ones.
pub record Gathers (s : Store) (kinds : Kinds) (w : Walk) : Type 0 where
  pub targets_visited : all (λ e. contains w.visited e.target_id) w.edges ≡ true
  pub sound :
      (u : String) (p : Edge → Bool)
      → any (λ e. (e.source_id == u) && p e) w.edges ≡ true
      → any (λ e. is_allowed kinds u e && p e) s.edges ≡ true
  pub complete :
      (u : String) (p : Edge → Bool)
      → contains w.visited u ≡ true
      → contains w.queue u ≡ false
      → any (λ e. is_allowed kinds u e && p e) s.edges ≡ true
      → any (λ e. (e.source_id == u) && p e) w.edges ≡ true

-- The collected artifacts are those of the store, one for each visited id.
pub record Tracks (s : Store) (w : Walk) : Type 0 where
  pub visits : (k : String) → has_key w.artifacts k ≡ contains w.visited k
  pub copies : EachEntry (λ k a. lookup k s.artifacts ≡ some a) w.artifacts

artifacts-record_child :
    (e : Edge) (child : Artifact) (w : Walk)
    → (record_child e child w).artifacts ≡ insert child.id child w.artifacts
unfolding record_child
artifacts-record_child e child w = ground arith

edges-record_child :
    (e : Edge) (child : Artifact) (w : Walk) → (record_child e child w).edges ≡ w.edges ++ e ∷ []
unfolding record_child
edges-record_child e child w = ground arith

own_targets :
    (es : List Edge) → all (λ e. contains (map (λ x. x.target_id) es) e.target_id) es ≡ true
own_targets [] = refl
own_targets (e ∷ es) = ground (
  arith,
  eq_refl e.target_id,
  all_mono (λ x. contains (map (λ y. y.target_id) es) x.target_id)
      (λ x. contains (map (λ y. y.target_id) (e ∷ es)) x.target_id) (λ x h. ground (arith, h)) es
      (own_targets es),
)

module _ (s : Store) (ok_store : WellFormed s) (kinds : Kinds) where
  record_child_lem :
      (e : Edge) (child : Artifact) (w : Walk)
      → lookup e.target_id s.artifacts ≡ some child
      → Tracks s w
      → (shadow (record_child e child w) ≡ offer (shadow w) e.target_id)
        × Tracks s (record_child e child w)
  unfolding record_child offer
  record_child_lem e child w h t =
      let named = id-lookup s e.target_id child ok_store h in
      (
        rw named (ground arith),
        record {
          visits = λ k.
              ground
                (arith, has_key-insert child.id k child w.artifacts, t.visits k, eq_iff child.id k);
          copies =
              subst (EachEntry (λ k a. lookup k s.artifacts ≡ some a))
                (sym (artifacts-record_child e child w))
                (EachEntry-insert (λ k a. lookup k s.artifacts ≡ some a) child.id child w.artifacts
                  t.copies (simp named h));
        },
      )

  follow_all_lem :
      (source : String) (es : List Edge) (w : Walk)
      → Each (Joined s.artifacts) es
      → Tracks s w
      → (w' : Walk) × (follow_all s kinds source es w ≡ ok w')
        × (shadow w' ≡ scan (shadow w) (targets kinds source es))
        × (w'.edges ≡ w.edges ++ filter (is_allowed kinds source) es)
        × Tracks s w'
  unfolding follow_all scan follow get_artifact
  follow_all_lem source [] w j t = (w, refl, refl, sym (append-nil w.edges), t)
  follow_all_lem source (e ∷ es) w j t = elim (Bool-cases (is_allowed kinds source e)) [
    | inr skip ↦
        let (w', p, q, r, t') = follow_all_lem source es w j.1 t in
        (w', ground arith, rw skip q, rw skip r, t')
    | inl take ↦
        let (child, h) = lookup_of_has_key e.target_id s.artifacts j.0.1 in
        let (shadowed, tracked) = record_child_lem e child w h t in
        let (w', p, q, r, t') = follow_all_lem source es (record_child e child w) j.1 tracked in
        (
          w',
          ground arith,
          rw take (q ∙ ap (λ x. scan x (targets kinds source es)) shadowed),
          rw take (
              r
              ∙ (ap (λ xs. xs ++ filter (is_allowed kinds source) es) (edges-record_child e child w)
                  ∙ append_assoc w.edges (e ∷ []) (filter (is_allowed kinds source) es))),
          t',
        )
  ]

  Gathers-round :
      (w w1 : Walk) (u : String) (rest : List String)
      → w.queue ≡ u ∷ rest
      → shadow w1 ≡ scan (record { visited = w.visited; queue = rest }) (targets kinds u s.edges)
      → w1.edges ≡ w.edges ++ filter (is_allowed kinds u) s.edges
      → Gathers s kinds w
      → Gathers s kinds w1
  Gathers-round w w1 u rest e walked edges g =
      let base : Search = record { visited = w.visited; queue = rest } in
      let fresh = Fresh-scan base (targets kinds u s.edges) in
      let visits : (k : String)
          → contains w1.visited k ≡ (contains w.visited k || contains (targets kinds u s.edges) k) =
        λ k.
          ap (λ (x : Search). contains x.visited k) walked
          ∙ visited-scan base (targets kinds u s.edges) k in
      let new = filter (is_allowed kinds u) s.edges in
      let now_queued : (k : String)
          → contains (scan base (targets kinds u s.edges)).queue k ≡ true
          → contains w1.queue k ≡ true =
        λ k h. ap (λ (x : Search). contains x.queue k) walked ∙ h in
      let was_visited : (k : String)
          → contains w1.visited k ≡ true
          → contains w1.queue k ≡ false
          → contains w.visited k ≡ true =
        λ k done idle. elim (Bool-cases (contains w.visited k)) [
          | inl yes_before ↦ yes_before
          | inr not_before ↦ absurd (
              ground (
                arith,
                now_queued k (
                    fresh.queued k (sym (ap (λ (x : Search). contains x.visited k) walked) ∙ done)
                      not_before),
              ))
        ] in
      let was_done : (k : String)
          → (u == k) ≡ false
          → contains w1.queue k ≡ false
          → contains w.queue k ≡ false =
        λ k other idle. elim (Bool-cases (contains rest k)) [
          | inl still ↦ absurd (ground (arith, now_queued k (fresh.kept k still)))
          | inr gone ↦ ground arith
        ] in
      record {
        targets_visited = rw edges (
            all-append (λ e. contains w1.visited e.target_id) w.edges new
            ∙ ap₂ (λ a b. a && b)
                (all_mono (λ e. contains w.visited e.target_id)
                  (λ e. contains w1.visited e.target_id)
                  (λ x h. visits x.target_id ∙ ground (arith, h)) w.edges g.targets_visited)
                (all_mono (λ e. contains (targets kinds u s.edges) e.target_id)
                  (λ e. contains w1.visited e.target_id)
                  (λ x h. visits x.target_id ∙ ground (arith, h)) new (own_targets new)));
        sound = λ v p h. elim (Bool-cases (any (λ x. (x.source_id == v) && p x) w.edges)) [
          | inl old ↦ g.sound v p old
          | inr none_old ↦
              any_mono (λ x. is_allowed kinds u x && ((x.source_id == v) && p x))
                (λ x. is_allowed kinds v x && p x) (λ x t. ground (arith, t)) s.edges
                (sym (any-filter (λ x. (x.source_id == v) && p x) (is_allowed kinds u) s.edges)
                  ∙ ground (
                    arith,
                    none_old,
                    any-append (λ x. (x.source_id == v) && p x) w.edges new,
                    subst (λ es. any (λ x. (x.source_id == v) && p x) es ≡ true) edges h,
                  ))
        ];
        complete = λ v p done waiting h.
            subst (λ es. any (λ x. (x.source_id == v) && p x) es ≡ true) (sym edges)
              (any-append (λ x. (x.source_id == v) && p x) w.edges new
                ∙ elim (Bool-cases (u == v)) [
                  | inl same ↦
                      let newly =
                        any-filter (λ x. (x.source_id == v) && p x) (is_allowed kinds u) s.edges
                        ∙ any_mono (λ x. is_allowed kinds v x && p x)
                            (λ x. is_allowed kinds u x && ((x.source_id == v) && p x))
                            (λ x t. ground (arith, t, (eq_iff u v).0 same)) s.edges h in
                      ground (arith, newly)
                  | inr other ↦ ground (
                    arith,
                    g.complete v p (was_visited v done waiting) (was_done v other waiting) h,
                  )
                ]);
      }

  -- Where the shared loop ends, so does this one, at the same ids.
  pub walk_lem :
      (fuel : ℕ) (w : Walk) (t : Search)
      → Tracks s w
      → Gathers s kinds w
      → loop (successors s kinds) fuel (shadow w) ≡ some t
      → (w' : Walk) × (walk s kinds fuel w ≡ ok w')
        × (shadow w' ≡ t)
        × Tracks s w'
        × Gathers s kinds w'
  unfolding walk loop expand
  walk_lem zero w t k g h = elim (List-cases w.queue) [
    | inl empty ↦ (w, ground arith, ground arith, k, g)
    | inr (u, rest, e) ↦ absurd (ground arith)
  ]
  walk_lem (suc fuel) w t k g h = elim (List-cases w.queue) [
    | inl empty ↦ (w, ground arith, ground arith, k, g)
    | inr (u, rest, e) ↦
        let popped : Walk = record w { queue = rest } in
        let (w1, p, q, r, k1) =
          follow_all_lem u s.edges popped ok_store.joined
            (record { visits = k.visits; copies = k.copies }) in
        let (w', p', q', k', g') =
          walk_lem fuel w1 t k1 (Gathers-round w w1 u rest e q r g) (ground arith) in
        (w', ground arith, q', k', g')
  ]
