-- ===== src/Worklist.antt =====
-- The breadth-first loop that the graph store and the authority engine share: a queue, a set of
-- visited ids, and a function that lists the ids a node leads to. graph/memory.py and
-- authority/engine.py write it out once each.
pub mod Ends
pub mod Exact
use writ_ai.Prelude.{
  ℕ, zero, suc, String, List, [], ◌∷◌, ◌++◌, Option, none, some, contains, if◌then◌else◌, ◌≡◌, true,
}

pub record Search : Type 0 where
  pub visited : List String
  pub queue : List String

-- `if child not in visited: visited.add(child); queue.append(child)`
unfoldable pub offer : Search → String → Search
offer s v =
    if contains s.visited v
    then s
    else record { visited = v ∷ s.visited; queue = s.queue ++ v ∷ [] }

unfoldable pub scan : Search → List String → Search
scan s [] = s
scan s (v ∷ vs) = scan (offer s v) vs

unfoldable pub start : String → Search
start root = record { visited = root ∷ []; queue = root ∷ [] }

module _ (successors : String → List String) where
  abbrev pub Leads : String → String → Type 0
  Leads u v = contains (successors u) v ≡ true

  -- One round, after `u` left the head of the queue.
  unfoldable pub expand : Search → String → List String → Search
  expand s u rest = scan (record s { queue = rest }) (successors u)

  -- `while queue:`, at most `fuel` rounds.
  unfoldable pub loop : ℕ → Search → Option Search
  loop zero s = elim s.queue [ [] ↦ some s | _ ∷ _ ↦ none ]
  loop (suc fuel) s = elim s.queue [ [] ↦ some s | u ∷ rest ↦ loop fuel (expand s u rest) ]

  -- The ids that a walk from the root meets.
  pub data Reach (root : String) : String → Type 0 where
    here : Reach root root
    step : {u v : String} → Reach root u → Leads u v → Reach root v
