-- ===== src/Authority/Propagation/Synced.antt =====
-- What the loop of `_propagate_invalidation` keeps between the graph and its variables.
use writ_ai.Prelude.{
  String, true, false, not, ◌||◌, ◌==◌, ◌≡◌, refl, sym, ap, ◌∙◌, subst, inl, inr, List, [], ◌∷◌,
  ◌++◌, some, contains, contains-append, Each, is_empty, inter, arith, eq_iff, Bool-cases,
  if◌then◌else◌,
}
use writ_ai.Dict.{lookup, insert, has_key}
use writ_ai.Domain.{Artifact, InvalidationPath}
use writ_ai.Graph.{Store}
use writ_ai.Graph.WellFormed.{WellFormed}
use writ_ai.Authority.Propagation.{Trace, mark, add_once}
use writ_ai.Authority.Propagation.Marks.{hit, affects, mark_idem, scopes-mark}
use writ_ai.Worklist.{Search, offer}

pub contains-add_once :
    (k j : String) (xs : List String) → contains (add_once k xs) j ≡ (k == j || contains xs j)
contains-add_once k j xs = ground (arith, contains-append xs (k ∷ []) j, eq_iff k j)

abbrev pub queued_ids : List (String × List String) → List String
queued_ids [] = []
queued_ids ((k, path) ∷ rest) = k ∷ queued_ids rest

queued_ids-append :
    (q : List (String × List String)) (k : String) (path : List String)
    → queued_ids (q ++ (k, path) ∷ []) ≡ queued_ids q ++ k ∷ []
queued_ids-append [] k path = refl
queued_ids-append ((j, p) ∷ q) k path = ap (λ xs. j ∷ xs) (queued_ids-append q k path)

abbrev pub shadow : Trace → Search
shadow t = record { visited = t.visited; queue = queued_ids t.queue }

module _ (affected : List String) (changed root : String) (before : Store) where
  -- An id that the report may look up.
  abbrev pub Known : String → Type 0
  Known k = (k == changed || has_key before.artifacts k) ≡ true

  -- The graph differs from the one before the loop by the marks of the affected ids, which all carried
  -- an affected scope; the preserved ids carry none; the local copies are those of the graph.
  pub record Sync (g : Store) (t : Trace) : Type 0 where
    pub well_formed : WellFormed g
    pub version : g.version ≡ before.version
    pub edges : g.edges ≡ before.edges
    pub flag : g.in_transaction ≡ before.in_transaction
    pub same_keys : (k : String) → has_key g.artifacts k ≡ has_key before.artifacts k
    pub others :
        (k : String)
        → contains t.affected k ≡ false
        → lookup k g.artifacts ≡ lookup k before.artifacts
    pub hits :
        (k : String)
        → contains t.affected k ≡ true
        → (a : Artifact) × (lookup k before.artifacts ≡ some a)
          × (hit a affected ≡ true)
          × (lookup k g.artifacts ≡ some (mark a affected))
    pub misses :
        (k : String)
        → contains t.preserved k ≡ true
        → (a : Artifact) × (lookup k before.artifacts ≡ some a) × (hit a affected ≡ false)
    pub tracked : (k : String) → contains t.visited k ≡ (root == k || contains t.affected k)
    pub root_listed : affects affected before root ≡ true → contains t.affected root ≡ true
    pub copies :
        (k : String) (c : Artifact) → lookup k t.artifacts ≡ some c → lookup k g.artifacts ≡ some c
    pub path_nodes : Each (λ (p : InvalidationPath). Each Known p.node_ids) t.paths
    pub queue_nodes : Each (λ (q : String × List String). Each Known q.1) t.queue

  -- The stored artifact behind a copy: unmarked or marked already, so marking it gives one value.
  pub origin :
      (g : Store) (t : Trace) (k : String) (c : Artifact)
      → Sync g t
      → lookup k g.artifacts ≡ some c
      → (a : Artifact) × (lookup k before.artifacts ≡ some a)
        × (hit a affected ≡ hit c affected)
        × (mark c affected ≡ mark a affected)
  origin g t k c s h = elim (Bool-cases (contains t.affected k)) [
    | inr clean ↦ (c, sym (s.others k clean) ∙ h, refl, refl)
    | inl marked ↦
        let (a, stored, was, now) = s.hits k marked in
        let same : c ≡ mark a affected = ground (arith, now, h) in
        (
          a,
          stored,
          rw same (ap (λ xs. not (is_empty (inter xs affected))) (sym (scopes-mark a affected))),
          rw same (mark_idem a affected),
        )
  ]

  pub Each-append :
      {A : Type 0} (P : A → Type 0) (xs : List A) (x : A) → Each P xs → P x → Each P (xs ++ x ∷ [])
  Each-append P [] x h p = (p, tt)
  Each-append P (y ∷ xs) x h p = (h.0, Each-append P xs x h.1 p)

  pub Sync-miss :
      (g : Store) (t : Trace) (k : String) (c : Artifact)
      → Sync g t
      → lookup k g.artifacts ≡ some c
      → hit c affected ≡ false
      → Sync g (record t { preserved = add_once k t.preserved })
  Sync-miss g t k c s h no_hit = record {
    well_formed = s.well_formed;
    version = s.version;
    edges = s.edges;
    flag = s.flag;
    same_keys = s.same_keys;
    others = s.others;
    hits = s.hits;
    misses = λ j m. elim (Bool-cases (k == j)) [
      | inr other ↦ s.misses j (ground (arith, contains-add_once k j t.preserved))
      | inl same ↦
          let (a, stored, as_was, _) = origin g t k c s h in
          (
            a,
            subst (λ i. lookup i before.artifacts ≡ some a) ((eq_iff k j).0 same) stored,
            as_was ∙ no_hit,
          )
    ];
    tracked = s.tracked;
    root_listed = s.root_listed;
    copies = s.copies;
    path_nodes = s.path_nodes;
    queue_nodes = s.queue_nodes;
  }

-- `note_affected` with the id written out.
abbrev pub hit_trace : String → Artifact → List String → Trace → Trace
hit_trace k child next_path t = record t {
  affected = add_once k t.affected;
  paths =
      if contains t.affected k
      then t.paths
      else t.paths ++ record { artifact_id = k; node_ids = next_path } ∷ [];
  artifacts = insert k child t.artifacts;
  queue = if contains t.visited k then t.queue else t.queue ++ (k, next_path) ∷ [];
  visited = if contains t.visited k then t.visited else k ∷ t.visited;
}

abbrev pub hit_store : String → Artifact → Store → Store
hit_store k child g = record g { artifacts = insert k child g.artifacts }

pub shadow-hit_trace :
    (k : String) (child : Artifact) (next_path : List String) (t : Trace)
    → shadow (hit_trace k child next_path t) ≡ offer (shadow t) k
unfolding offer
shadow-hit_trace k child next_path t = elim (Bool-cases (contains t.visited k)) [
  | inl old ↦ rw old
  | inr new ↦ rw new (
      ap (λ q. record { visited = k ∷ t.visited; queue = q })
        (queued_ids-append t.queue k next_path))
]
