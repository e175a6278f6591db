-- ===== src/Workspaces/Listed.antt =====
-- The list of the stored records, and what the JSON store promises with it.
use writ_ai.Prelude.{
  ◌≤◌, String, Bool, List, [], ◌∷◌, none, ◌==◌, ◌≡◌, refl, ap, ◌∙◌, subst, Each, Each-mono, eq_iff,
  arith, inl, inr, Bool-cases, leb,
}
use writ_ai.Prelude.Sorting.{insert_sorted, sort_by, Each-insert_sorted}
use writ_ai.Workspaces.{LiveWorkspaceRecord, Document, Answer, Call, call, list_records, run}
use writ_ai.Workspaces.Refines.{Spec, view, promised, run_refines}
use writ_ai.Workspaces.Keyed.{IsKeyed, run-IsKeyed}

module _ (le : LiveWorkspaceRecord → LiveWorkspaceRecord → Bool) where
  view-insert_sorted :
      (k : String) (w : LiveWorkspaceRecord) (document : Document)
      → view document w.id ≡ none
      → view (insert_sorted le w document) k ≡ view (w ∷ document) k
  unfolding view insert_sorted
  view-insert_sorted k w [] absent = refl
  view-insert_sorted k w (r ∷ rest) absent =
      ground (arith, view-insert_sorted k w rest, eq_iff r.id w.id, eq_iff r.id k, eq_iff w.id k)

  insert_sorted-IsKeyed :
      (w : LiveWorkspaceRecord) (document : Document)
      → view document w.id ≡ none
      → IsKeyed document
      → IsKeyed (insert_sorted le w document)
  unfolding view insert_sorted
  insert_sorted-IsKeyed w [] absent keyed = (refl, tt)
  insert_sorted-IsKeyed w (r ∷ rest) absent keyed = elim (Bool-cases (le w r)) [
    | inl first ↦ rw first (absent, keyed)
    | inr later ↦ elim (Bool-cases (r.id == w.id)) [
      | inl same ↦ absurd (ground (arith, absent, same))
      | inr other ↦
          let rest_absent : view rest w.id ≡ none = ground (arith, absent, other) in
          let here : view (insert_sorted le w rest) r.id ≡ none = ground (
            arith,
            view-insert_sorted r.id w rest rest_absent,
            keyed.0,
            other,
            eq_iff r.id w.id,
            eq_iff w.id r.id,
          ) in
          rw later (here, insert_sorted-IsKeyed w rest rest_absent keyed.1)
    ]
  ]

  pub view-sort_by :
      (k : String) (document : Document)
      → IsKeyed document
      → view (sort_by le document) k ≡ view document k
  unfolding view sort_by
  view-sort_by k [] keyed = refl
  view-sort_by k (r ∷ rest) keyed =
      let absent = view-sort_by r.id rest keyed.1 ∙ keyed.0 in
      view-insert_sorted k r (sort_by le rest) absent ∙ ground (arith, view-sort_by k rest keyed.1)

  pub sort_by-IsKeyed : (document : Document) → IsKeyed document → IsKeyed (sort_by le document)
  unfolding sort_by
  sort_by-IsKeyed [] keyed = tt
  sort_by-IsKeyed (r ∷ rest) keyed =
      insert_sorted-IsKeyed r (sort_by le rest) (view-sort_by r.id rest keyed.1 ∙ keyed.0)
        (sort_by-IsKeyed rest keyed.1)

-- Each record was changed no earlier than those behind it.
abbrev pub IsLatestFirst : List LiveWorkspaceRecord → Type 0
IsLatestFirst [] = Unit
IsLatestFirst (r ∷ rest) =
    Each (λ (s : LiveWorkspaceRecord). s.updated_at ≤ r.updated_at) rest × IsLatestFirst rest

abbrev later_first : LiveWorkspaceRecord → LiveWorkspaceRecord → Bool
later_first r s = leb s.updated_at r.updated_at

insert_sorted-IsLatestFirst :
    (w : LiveWorkspaceRecord) (rs : List LiveWorkspaceRecord)
    → IsLatestFirst rs
    → IsLatestFirst (insert_sorted later_first w rs)
unfolding insert_sorted
insert_sorted-IsLatestFirst w [] sorted = (tt, tt)
insert_sorted-IsLatestFirst w (r ∷ rest) sorted = elim (Bool-cases (later_first w r)) [
  | inl first ↦
      let newer : r.updated_at ≤ w.updated_at = ground (arith, first) in
      rw first
        ((newer, Each-mono _ _ (λ s before. omega (arith, newer, before)) rest sorted.0), sorted)
  | inr later ↦
      let older : w.updated_at ≤ r.updated_at = ground (arith, later) in
      rw later (
        Each-insert_sorted later_first (λ (s : LiveWorkspaceRecord). s.updated_at ≤ r.updated_at) w
            rest older sorted.0,
        insert_sorted-IsLatestFirst w rest sorted.1,
      )
]

sort_by-IsLatestFirst : (rs : List LiveWorkspaceRecord) → IsLatestFirst (sort_by later_first rs)
unfolding sort_by
sort_by-IsLatestFirst [] = tt
sort_by-IsLatestFirst (r ∷ rest) =
    insert_sorted-IsLatestFirst r (sort_by later_first rest) (sort_by-IsLatestFirst rest)

-- The records of a map, each once, the latest first.
pub record IsListing (rs : List LiveWorkspaceRecord) (spec : Spec) : Type 0 where
  pub once : IsKeyed rs
  pub contents : (k : String) → view rs k ≡ spec k
  pub latest_first : IsLatestFirst rs

list_records-IsListing :
    (document : Document) → IsKeyed document → IsListing (list_records document) (view document)
unfolding list_records
list_records-IsListing document keyed = record {
  once = sort_by-IsKeyed later_first document keyed;
  contents = λ k. view-sort_by later_first k document keyed;
  latest_first = sort_by-IsLatestFirst document;
}

-- From a document without two records of one id, any sequence of gets, creations, savings and mutations of
-- the JSON store gets the answers that a finite map from ids to records gives to the same calls,
-- and leaves the store with the contents of that map: a record is created under a new id only, saved
-- or mutated under a stored one only, never under another id than its own, and a call that fails
-- changes nothing. The list that follows holds exactly the records of the map, each once, the
-- latest first.
pub store_refines :
    (calls : List Call) (document : Document)
    → IsKeyed document
    → let after = run call calls document in
      let expected = run promised calls (view document) in
      ((after.0, view after.1) ≡ expected) × IsListing (list_records after.1) expected.1
store_refines calls document keyed =
    let after = run call calls document in
    let same = run_refines calls document in
    (
      same,
      subst (IsListing (list_records after.1)) (ap (λ (p : List Answer × Spec). p.1) same)
          (list_records-IsListing after.1 (run-IsKeyed calls document keyed)),
    )
