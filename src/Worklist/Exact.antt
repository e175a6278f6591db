-- ===== src/Worklist/Exact.antt =====
-- The ids that the loop visits, and those that can be reached from the root.
use writ_ai.Prelude.{
  ℕ, zero, suc, String, true, false, ◌≡◌, sym, subst, List, [], ◌∷◌, some, ◌↔◌, contains,
  contains-append, arith, eq_iff, eq_refl, ◌⊎◌, inl, inr, List-cases, ◌||◌, ◌==◌, Bool-cases,
}
use writ_ai.Worklist.{Search, offer, scan, start, expand, loop, Leads, Reach, here, step}

pub visited-offer :
    (s : Search) (v a : String) → contains (offer s v).visited a ≡ (v == a || contains s.visited a)
unfolding offer
visited-offer s v a = ground (arith, eq_iff v a)

queue-offer :
    (s : Search) (v a : String)
    → contains (offer s v).queue a ≡ true
    → (contains s.queue a ≡ true) ⊎ (v ≡ a)
unfolding offer
queue-offer s v a h = ground (arith, eq_iff v a, contains-append s.queue (v ∷ []) a)

-- `scan` visits the old ids and the listed ones.
pub visited-scan :
    (s : Search) (vs : List String) (a : String)
    → contains (scan s vs).visited a ≡ (contains s.visited a || contains vs a)
unfolding scan
visited-scan s [] a = ground arith
visited-scan s (v ∷ vs) a = ground (arith, visited-scan (offer s v) vs a, visited-offer s v a)

-- Ids that were queued stay queued, and a new visited id is queued.
queue-offer_new :
    (s : Search) (v a : String)
    → contains (offer s v).visited a ≡ true
    → (contains s.visited a ≡ true → contains s.queue a ≡ true)
    → contains (offer s v).queue a ≡ true
unfolding offer
queue-offer_new s v a h old = ground (arith, contains-append s.queue (v ∷ []) a)

-- From `s` to `t` ids were only added, and an id is queued as it is visited.
pub record Fresh (s t : Search) : Type 0 where
  pub kept : (a : String) → contains s.queue a ≡ true → contains t.queue a ≡ true
  pub queued :
      (a : String)
      → contains t.visited a ≡ true
      → contains s.visited a ≡ false
      → contains t.queue a ≡ true
  pub old :
      (a : String)
      → contains t.queue a ≡ true
      → contains s.queue a ≡ false
      → contains t.visited a ≡ true

Fresh-offer : (s : Search) (v : String) → Fresh s (offer s v)
unfolding offer
Fresh-offer s v = record {
  kept = λ a h. ground (arith, contains-append s.queue (v ∷ []) a);
  queued = λ a h n. ground (arith, contains-append s.queue (v ∷ []) a);
  old = λ a h n. ground (arith, contains-append s.queue (v ∷ []) a);
}

pub Fresh-scan : (s : Search) (vs : List String) → Fresh s (scan s vs)
unfolding scan
Fresh-scan s [] = record {
  kept = λ a h. h;
  queued = λ a h n. ground arith;
  old = λ a h n. ground arith;
}
Fresh-scan s (v ∷ vs) =
    let one = Fresh-offer s v in
    let more = Fresh-scan (offer s v) vs in
    record {
      kept = λ a h. more.kept a (one.kept a h);
      queued = λ a h n. elim (Bool-cases (contains (offer s v).visited a)) [
        | inl before ↦ more.kept a (one.queued a before n)
        | inr after ↦ more.queued a h after
      ];
      old = λ a h n. elim (Bool-cases (contains (offer s v).queue a)) [
        | inl before ↦ ground (arith, visited-scan (offer s v) vs a, one.old a before n)
        | inr after ↦ more.old a h after
      ];
    }

module _ (successors : String → List String) (root : String) where
  record Inv (s : Search) : Type 0 where
    root_visited : contains s.visited root ≡ true
    queued : (v : String) → contains s.queue v ≡ true → contains s.visited v ≡ true
    sound : (v : String) → contains s.visited v ≡ true → Reach successors root v
    closed :
        (u v : String)
        → contains s.visited u ≡ true
        → Leads successors u v
        → (contains s.queue u ≡ true) ⊎ (contains s.visited v ≡ true)

  Inv-start : Inv (start root)
  unfolding start
  Inv-start = record {
    root_visited = ground (arith, eq_refl root);
    queued = λ v h. h;
    sound = λ v h. subst (Reach successors root) ((eq_iff root v).0 (ground arith)) here;
    closed = λ u v h e. inl h;
  }

  Inv-expand :
      (s : Search) (u : String) (rest : List String)
      → s.queue ≡ u ∷ rest
      → Inv s
      → Inv (expand successors s u rest)
  unfolding expand
  Inv-expand s u rest e i =
      let base : Search = record s { queue = rest } in
      let fresh = Fresh-scan base (successors u) in
      let u_visited : contains s.visited u ≡ true = i.queued u (ground (arith, eq_refl u)) in
      record {
        root_visited = ground (arith, visited-scan base (successors u) root, i.root_visited);
        queued = λ v h. elim (Bool-cases (contains rest v)) [
          | inl was ↦ ground (arith, visited-scan base (successors u) v, i.queued v)
          | inr new ↦ fresh.old v h new
        ];
        sound = λ v h. elim (Bool-cases (contains s.visited v)) [
          | inl was ↦ i.sound v was
          | inr new ↦
              step (i.sound u u_visited) (ground (arith, visited-scan base (successors u) v))
        ];
        closed = λ a b h l. elim (Bool-cases (contains s.visited a)) [
          | inr new ↦ inl (fresh.queued a h new)
          | inl was ↦ elim (i.closed a b was l) [
            | inr done ↦ inr (ground (arith, visited-scan base (successors u) b))
            | inl waiting ↦ elim (Bool-cases (u == a)) [
              | inl same ↦ inr (
                  ground (
                    arith,
                    visited-scan base (successors u) b,
                    subst (λ x. Leads successors x b) (sym ((eq_iff u a).0 same)) l,
                  ))
              | inr other ↦ inl (fresh.kept a (ground arith))
            ]
          ]
        ];
      }

  loop-Inv :
      (fuel : ℕ) (s t : Search) → Inv s → loop successors fuel s ≡ some t → Inv t × (t.queue ≡ [])
  unfolding loop
  loop-Inv zero s t i h = ground arith
  loop-Inv (suc fuel) s t i h = elim (List-cases s.queue) [
    | inl empty ↦ ground arith
    | inr (u, rest, e) ↦
        loop-Inv fuel (expand successors s u rest) t (Inv-expand s u rest e i) (rw (e, loop) at h)
  ]

  complete :
      (t : Search)
      → Inv t
      → t.queue ≡ []
      → (v : String) → Reach successors root v
      → contains t.visited v ≡ true
  complete t i e v here = i.root_visited
  complete t i e v (step {u} r l) = elim (i.closed u v (complete t i e u r) l) [
    | inl waiting ↦ absurd (ground arith)
    | inr done ↦ done
  ]

  -- A returned search has visited exactly the ids that a walk from the root meets.
  pub visited-loop :
      (fuel : ℕ) (t : Search)
      → loop successors fuel (start root) ≡ some t
      → (v : String) → (contains t.visited v ≡ true) ↔ Reach successors root v
  visited-loop fuel t h v =
      let (i, e) = loop-Inv fuel (start root) t Inv-start h in (i.sound v, complete t i e v)

-- A returned search has nothing left to expand.
pub queue-loop :
    (successors : String → List String) (fuel : ℕ) (s t : Search)
    → loop successors fuel s ≡ some t
    → t.queue ≡ []
unfolding loop
queue-loop successors zero s t h = ground arith
queue-loop successors (suc fuel) s t h = elim (List-cases s.queue) [
  | inl empty ↦ ground arith
  | inr (u, rest, e) ↦ queue-loop successors fuel (expand successors s u rest) t (rw (e, loop) at h)
]
