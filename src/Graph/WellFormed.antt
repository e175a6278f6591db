-- ===== src/Graph/WellFormed.antt =====
-- The well-formed states of `MemoryGraphStore`: each artifact stands under its own id, once, and every
-- edge joins two stored artifacts.
use writ_ai.Prelude.{
  ℕ, any, all, ◌&&◌, String, Bool, true, false, not, ◌≡◌, refl, ◌∙◌, List, [], ◌∷◌, ◌++◌, some,
  contains, Each, arith, eq_iff, inl, inr, Bool-cases, ◌==◌, ◌||◌,
}
use writ_ai.Exec.{Exec, Result, ok, err}
use writ_ai.Dict.{
  Dict, EachEntry, EachEntry-insert, EachEntry-lookup, lookup, insert, has_key, keys,
  has_key-insert,
}
use writ_ai.Domain.{Artifact, Edge}
use writ_ai.Graph.{
  Store, settle, increment_version, transaction, add_artifact, update_artifact, add_edge,
  index_by_id, reset,
}

abbrev pub Joined : Dict Artifact → Edge → Type 0
Joined d e = (has_key d e.source_id ≡ true) × (has_key d e.target_id ≡ true)

-- No text stands twice.
abbrev pub Distinct : List String → Type 0
Distinct [] = Unit
Distinct (k ∷ ks) = (contains ks k ≡ false) × Distinct ks

pub record WellFormed (s : Store) : Type 0 where
  pub keyed : EachEntry (λ k a. a.id ≡ k) s.artifacts
  pub distinct : Distinct (keys s.artifacts)
  pub joined : Each (Joined s.artifacts) s.edges

pub id-lookup :
    (s : Store) (k : String) (a : Artifact)
    → WellFormed s
    → lookup k s.artifacts ≡ some a
    → a.id ≡ k
id-lookup s k a w h = EachEntry-lookup (λ j b. b.id ≡ j) k a s.artifacts w.keyed h

-- The call keeps the store well formed, whether it returns or raises.
abbrev pub Keeps : {A : Type 0} → Exec Store A → Type 0
Keeps m = (s : Store) → WellFormed s → WellFormed (m s).1

Distinct-insert :
    {V : Type 0} (k : String) (v : V) (d : Dict V)
    → Distinct (keys d)
    → Distinct (keys (insert k v d))
unfolding insert
Distinct-insert k v [] h = (refl, tt)
Distinct-insert k v ((j, w) ∷ d) h = elim (Bool-cases (j == k)) [
  | inl same ↦ rw same h
  | inr other ↦ rw other (
    has_key-insert k j v d ∙ ground (arith, eq_iff k j, eq_iff j k, h.0),
    Distinct-insert k v d h.1,
  )
]

Joined-insert :
    (k : String) (a : Artifact) (d : Dict Artifact) (es : List Edge)
    → Each (Joined d) es
    → Each (Joined (insert k a d)) es
Joined-insert k a d [] h = tt
Joined-insert k a d (e ∷ es) h = (
  (
    has_key-insert k e.source_id a d ∙ ground (arith, h.0.0),
    has_key-insert k e.target_id a d ∙ ground (arith, h.0.1),
  ),
  Joined-insert k a d es h.1,
)

Joined-append :
    (d : Dict Artifact) (e : Edge) (es : List Edge)
    → Each (Joined d) es
    → Joined d e
    → Each (Joined d) (es ++ e ∷ [])
Joined-append d e [] h j = (j, tt)
Joined-append d e (x ∷ es) h j = (h.0, Joined-append d e es h.1 j)

-- Storing an artifact under its own id keeps the store well formed.
pub store-WellFormed :
    (s : Store) (a : Artifact)
    → WellFormed s
    → WellFormed (record s { artifacts = insert a.id a s.artifacts })
store-WellFormed s a w = record {
  keyed = EachEntry-insert (λ k b. b.id ≡ k) a.id a s.artifacts w.keyed refl;
  distinct = Distinct-insert a.id a s.artifacts w.distinct;
  joined = Joined-insert a.id a s.artifacts s.edges w.joined;
}

pub add_artifact-WellFormed : (a : Artifact) → Keeps (add_artifact a)
unfolding add_artifact
add_artifact-WellFormed a s w = elim (Bool-cases (has_key s.artifacts a.id)) [
  | inl there ↦ rw there w
  | inr new ↦ rw new (store-WellFormed s a w)
]

pub update_artifact-WellFormed : (a : Artifact) → Keeps (update_artifact a)
unfolding update_artifact
update_artifact-WellFormed a s w = elim (Bool-cases (has_key s.artifacts a.id)) [
  | inl there ↦ rw there (store-WellFormed s a w)
  | inr new ↦ rw new w
]

pub add_edge-WellFormed : (e : Edge) → Keeps (add_edge e)
unfolding add_edge
add_edge-WellFormed e s w =
    elim (Bool-cases
      (not (has_key s.artifacts e.source_id) || not (has_key s.artifacts e.target_id))) [
        | inl missing ↦ rw missing w
        | inr there ↦ rw there (record {
          keyed = w.keyed;
          distinct = w.distinct;
          joined = Joined-append s.artifacts e s.edges w.joined (ground arith, ground arith);
        })
      ]

pub increment_version-WellFormed : Keeps increment_version
unfolding increment_version
increment_version-WellFormed s w = record {
  keyed = w.keyed;
  distinct = w.distinct;
  joined = w.joined;
}

-- The artifact is listed.
abbrev pub lists_id : List Artifact → String → Bool
lists_id xs k = any (λ (a : Artifact). a.id == k) xs

has_key-index_by_id :
    (d : Dict Artifact) (xs : List Artifact) (k : String)
    → has_key (index_by_id d xs) k ≡ (has_key d k || lists_id xs k)
unfolding index_by_id
has_key-index_by_id d [] k = ground arith
has_key-index_by_id d (a ∷ xs) k =
    has_key-index_by_id (insert a.id a d) xs k ∙ ground (arith, has_key-insert a.id k a d)

index_by_id-keyed :
    (d : Dict Artifact) (xs : List Artifact)
    → EachEntry (λ k a. a.id ≡ k) d
    → EachEntry (λ k a. a.id ≡ k) (index_by_id d xs)
unfolding index_by_id
index_by_id-keyed d [] h = h
index_by_id-keyed d (a ∷ xs) h =
    index_by_id-keyed (insert a.id a d) xs (EachEntry-insert (λ k b. b.id ≡ k) a.id a d h refl)

index_by_id-Distinct :
    (d : Dict Artifact) (xs : List Artifact)
    → Distinct (keys d)
    → Distinct (keys (index_by_id d xs))
unfolding index_by_id
index_by_id-Distinct d [] h = h
index_by_id-Distinct d (a ∷ xs) h =
    index_by_id-Distinct (insert a.id a d) xs (Distinct-insert a.id a d h)

index_by_id-Joined :
    (xs : List Artifact) (es : List Edge)
    → all (λ (e : Edge). lists_id xs e.source_id && lists_id xs e.target_id) es ≡ true
    → Each (Joined (index_by_id [] xs)) es
index_by_id-Joined xs [] h = tt
index_by_id-Joined xs (e ∷ es) h = (
  (
    has_key-index_by_id [] xs e.source_id ∙ ground (arith, h),
    has_key-index_by_id [] xs e.target_id ∙ ground (arith, h),
  ),
  index_by_id-Joined xs es (ground (arith, h)),
)

reset-WellFormed :
    (version : ℕ) (xs : List Artifact) (es : List Edge) (s : Store)
    → all (λ (e : Edge). lists_id xs e.source_id && lists_id xs e.target_id) es ≡ true
    → WellFormed (reset version xs es s).1
unfolding reset
reset-WellFormed version xs es s h = record {
  keyed = index_by_id-keyed [] xs tt;
  distinct = index_by_id-Distinct [] xs tt;
  joined = index_by_id-Joined xs es h;
}

-- On a well-formed store, adding and updating an artifact, adding an edge, and counting the version up
-- keep it well formed, also when the call raises. A reset makes any store well formed, whatever was in
-- it, given that each of its edges joins two of its artifacts; of artifacts with one id it keeps one.
pub operations-WellFormed :
    (a : Artifact) (e : Edge) (version : ℕ) (xs : List Artifact) (es : List Edge) (s t : Store)
    → WellFormed s
    → all (λ (e : Edge). lists_id xs e.source_id && lists_id xs e.target_id) es ≡ true
    → WellFormed (add_artifact a s).1
      × WellFormed (update_artifact a s).1
      × WellFormed (add_edge e s).1
      × WellFormed (increment_version s).1
      × WellFormed (reset version xs es t).1
operations-WellFormed a e version xs es s t w joined = (
  add_artifact-WellFormed a s w,
  update_artifact-WellFormed a s w,
  add_edge-WellFormed e s w,
  increment_version-WellFormed s w,
  reset-WellFormed version xs es t joined,
)

-- The flag is no part of what is well formed.
pub WellFormed-flag :
    (s : Store) (b : Bool) → WellFormed s → WellFormed (record s { in_transaction = b })
WellFormed-flag s b w = record { keyed = w.keyed; distinct = w.distinct; joined = w.joined }

settle-WellFormed :
    {A : Type 0} (s : Store) (r : Result A) (t : Store)
    → WellFormed s
    → WellFormed t
    → WellFormed (settle s r t).1
unfolding settle
settle-WellFormed s (ok a) t v w = WellFormed-flag t false w
settle-WellFormed s (err e) t v w = record {
  keyed = v.keyed;
  distinct = v.distinct;
  joined = v.joined;
}

pub transaction-WellFormed :
    {A : Type 0} (body : Exec Store A) → Keeps body → Keeps (transaction body)
unfolding transaction
transaction-WellFormed body keep s w = elim (Bool-cases s.in_transaction) [
  | inl inner ↦ simp inner (keep s w)
  | inr outer ↦
      let inside : Store = record s { in_transaction = true } in
      simp outer (
        settle-WellFormed s (body inside).0 (body inside).1 w
          (keep inside (WellFormed-flag s true w)))
]
