-- ===== src/Worklist/Ends.antt =====
-- The measure of the loop: what is unvisited in the universe, and what is queued.
use writ_ai.Prelude.{
  ℕ, zero, suc, ◌+◌, ◌≤◌, ◌<◌, String, true, false, not, ◌≡◌, refl, ap, List, [], ◌∷◌, some,
  contains, filter, length, length-append, arith, eq_iff, inl, inr, List-cases, subset,
}
use writ_ai.Worklist.{start, Search, offer, scan, expand, loop}

-- How many of `universe` are not visited.
abbrev pub unvisited : List String → List String → ℕ
unvisited universe visited = length (filter (λ k. not (contains visited k)) universe)

unvisited_le :
    (universe visited : List String) (v : String)
    → unvisited universe (v ∷ visited) ≤ unvisited universe visited
unvisited_le [] visited v = omega arith
unvisited_le (k ∷ universe) visited v = ground (arith, unvisited_le universe visited v)

-- Visiting a new id of the universe leaves fewer.
pub unvisited_lt :
    (universe visited : List String) (v : String)
    → contains universe v ≡ true
    → contains visited v ≡ false
    → unvisited universe (v ∷ visited) < unvisited universe visited
unvisited_lt [] visited v m new = absurd (ground arith)
unvisited_lt (k ∷ universe) visited v m new = ground (
  arith,
  unvisited_le universe visited v,
  unvisited_lt universe visited v,
  eq_iff k v,
  eq_iff v k,
)

module _ (universe : List String) where
  abbrev pub work : Search → ℕ
  work s = unvisited universe s.visited + length s.queue

  pub work-offer :
      (s : Search) (v : String) → contains universe v ≡ true → work (offer s v) ≤ work s
  unfolding offer
  work-offer s v m =
      ground (arith, unvisited_lt universe s.visited v, length-append s.queue (v ∷ []))

  pub work-scan :
      (s : Search) (vs : List String) → subset vs universe ≡ true → work (scan s vs) ≤ work s
  unfolding scan
  work-scan s [] h = omega arith
  work-scan s (v ∷ vs) h = ground (arith, work-offer s v, work-scan (offer s v) vs)

  module _ (successors : String → List String)
      (closed : (u : String) → subset (successors u) universe ≡ true) where
    -- With at least as much fuel as work, the loop returns.
    pub loop_returns :
        (fuel : ℕ) (s : Search) → work s ≤ fuel → (t : Search) × (loop successors fuel s ≡ some t)
    unfolding loop expand
    loop_returns zero s h = elim (List-cases s.queue) [
      | inl empty ↦ (s, ground arith)
      | inr (u, rest, e) ↦ absurd (omega (arith, ap length e))
    ]
    loop_returns (suc fuel) s h = elim (List-cases s.queue) [
      | inl empty ↦ (s, ground arith)
      | inr (u, rest, e) ↦
          let kept = work-scan (record s { queue = rest }) (successors u) (closed u) in
          let (t, p) =
            loop_returns fuel (expand successors s u rest) (omega (arith, ap length e)) in
          (t, ground arith)
    ]

unvisited_none : (universe : List String) → unvisited universe [] ≡ length universe
unvisited_none [] = refl
unvisited_none (k ∷ universe) = ap suc (unvisited_none universe)

-- From a root of the universe, its size is fuel enough.
pub work-start :
    (universe : List String) (root : String)
    → contains universe root ≡ true
    → work universe (start root) ≤ length universe
unfolding start
work-start universe root h =
    omega (arith, unvisited_lt universe [] root h refl, unvisited_none universe)
