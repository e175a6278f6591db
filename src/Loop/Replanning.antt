-- ===== src/Loop/Replanning.antt =====
-- What replanning makes of an action.
use writ_ai.Prelude.{
  String, true, false, ◌==◌, ◌≡◌, refl, sym, ◌∙◌, ap, ap₂, subst, List, [], ◌∷◌, Option, none, some,
  contains, arith, eq_iff, eq_refl, Bool-cases, ◌⊎◌, inl, inr,
}
use writ_ai.Exec.{ok, Result-cases}
use writ_ai.Dict.{Dict, lookup}
use writ_ai.Domain.{PlanAction}
use writ_ai.Domain.Value.{
  Value, Fields, null, boolean, number, text, array, object, end, field, find, set_field, update,
  field_names,
}
use writ_ai.Authority.Findings.{project}
use writ_ai.Loop.{correct, correct_scope, correct_scopes}
use writ_ai.Graph.WellFormed.{Distinct}

find-set_field_same : (k : String) (v : Value) (r : Fields) → find k (set_field k v r) ≡ some v
unfolding find set_field
find-set_field_same k v end = ground (arith, eq_refl k)
find-set_field_same k v (field j w r) = elim (Bool-cases (j == k)) [
  | inl same ↦ ground (arith, same)
  | inr other ↦ ground (arith, other, find-set_field_same k v r)
]

find-set_field_other :
    (j k : String) (v : Value) (r : Fields) → (k == j) ≡ false → find j (set_field k v r) ≡ find j r
unfolding find set_field
find-set_field_other j k v end h = ground (arith, h)
find-set_field_other j k v (field i w r) h = elim (Bool-cases (i == k)) [
  | inl same ↦ ground (arith, same, h, eq_iff i k)
  | inr other ↦ ground (arith, other, find-set_field_other j k v r h)
]

find-update_other :
    (j : String) (e r : Fields)
    → contains (field_names e) j ≡ false
    → find j (update r e) ≡ find j r
unfolding update
find-update_other j end r h = refl
find-update_other j (field k v e) r h =
    find-update_other j e (set_field k v r) (ground (arith, h))
    ∙ find-set_field_other j k v r (ground (arith, h))

project-update : (e r : Fields) → Distinct (field_names e) → project (update r e) e ≡ e
unfolding project update
project-update end r d = refl
project-update (field k v e) r d =
    let found : find k (update (set_field k v r) e) ≡ some v =
      find-update_other k e (set_field k v r) d.0 ∙ find-set_field_same k v r in
    ap₂ (λ (w : Value) (q : Fields). field k w q) (ground (arith, found))
      (project-update e (set_field k v r) d.1)

-- No name of the first dictionary is a name of the second.
abbrev pub Disjoint : Fields → Fields → Type 0
Disjoint r q = (k : String) → contains (field_names r) k ≡ true → contains (field_names q) k ≡ false

project-update_other : (r q e : Fields) → Disjoint q e → project (update r e) q ≡ project r q
unfolding project
project-update_other r end e h = refl
project-update_other r (field k v q) e h =
    let kept = find-update_other k e r (h k (ground (arith, eq_refl k))) in
    ap₂ (λ (w : Value) (p : Fields). field k w p) (ground (arith, kept))
      (project-update_other r q e (λ j m. h j (ground (arith, m))))

-- The requirements of the scopes give each name once, and those of two scopes share none.
abbrev pub Separate : Dict Value → List String → Type 0
Separate requirements [] = Unit
Separate requirements (x ∷ xs) =
    ((r : Fields)
      → lookup x requirements ≡ some (object r)
      → Distinct (field_names r)
        × ((y : String) (q : Fields)
            → contains xs y ≡ true
            → lookup y requirements ≡ some (object q)
            → Disjoint r q))
    × Separate requirements xs

-- What one scope does: it takes over its requirement, if it has one.
abbrev pub Takes : Dict Value → String → PlanAction → PlanAction → Fields → Type 0
Takes requirements x action mid e =
    (mid.attributes ≡ update action.attributes e)
    × ((e ≡ end) ⊎ (lookup x requirements ≡ some (object e)))
    × ((r : Fields) → lookup x requirements ≡ some (object r) → r ≡ e)

take :
    (requirements : Dict Value) (x : String) (action mid : PlanAction) (o : Option Value)
    → lookup x requirements ≡ o
    → correct_scope requirements x action ≡ ok mid
    → (e : Fields) × Takes requirements x action mid e
unfolding correct_scope correct update
take requirements x action mid none missing h = (
  end,
  (ground (arith, h, missing), inl refl, λ r found. absurd (ground (arith, missing, found))),
)
take requirements x action mid (some null) found h =
    (end, (ground (arith, h, found), inl refl, λ r found'. absurd (ground (arith, found, found'))))
take requirements x action mid (some (boolean b)) found h =
    (end, (ground (arith, h, found), inl refl, λ r found'. absurd (ground (arith, found, found'))))
take requirements x action mid (some (number n)) found h =
    (end, (ground (arith, h, found), inl refl, λ r found'. absurd (ground (arith, found, found'))))
take requirements x action mid (some (text t)) found h =
    (end, (ground (arith, h, found), inl refl, λ r found'. absurd (ground (arith, found, found'))))
take requirements x action mid (some (array vs)) found h =
    (end, (ground (arith, h, found), inl refl, λ r found'. absurd (ground (arith, found, found'))))
take requirements x action mid (some (object end)) found h =
    (end, (ground (arith, h, found), inl refl, λ r found'. ground (arith, found, found')))
take requirements x action mid (some (object (field k v r))) found h =
    (field k v r, (ground (arith, h, found), inr found, λ q found'. ground (arith, found, found')))

correct_scope-Takes :
    (requirements : Dict Value) (x : String) (action mid : PlanAction)
    → correct_scope requirements x action ≡ ok mid
    → (e : Fields) × Takes requirements x action mid e
correct_scope-Takes requirements x action mid h =
    take requirements x action mid (lookup x requirements) refl h

correct_scopes-step :
    (requirements : Dict Value) (x : String) (xs : List String) (action action' : PlanAction)
    → correct_scopes requirements (x ∷ xs) action ≡ ok action'
    → (mid : PlanAction) × (correct_scope requirements x action ≡ ok mid)
      × (correct_scopes requirements xs mid ≡ ok action')
unfolding correct_scopes
correct_scopes-step requirements x xs action action' h =
    elim (Result-cases (correct_scope requirements x action)) [
      | inl (mid, one) ↦ (mid, one, ground (arith, h, one))
      | inr (e, failed) ↦ absurd (ground (arith, h, failed))
    ]

-- The scopes that follow leave a requirement alone that shares no name with theirs.
later_scopes :
    (requirements : Dict Value) (q : Fields) (xs : List String) (action action' : PlanAction)
    → correct_scopes requirements xs action ≡ ok action'
    → ((y : String) (e : Fields)
        → contains xs y ≡ true
        → lookup y requirements ≡ some (object e)
        → Disjoint q e)
    → project action'.attributes q ≡ project action.attributes q
unfolding correct_scopes
later_scopes requirements q [] action action' h apart =
    let same : action' ≡ action = ground (arith, h) in
    ap (λ (a : PlanAction). project a.attributes q) same
later_scopes requirements q (x ∷ xs) action action' h apart =
    let (mid, one, rest) = correct_scopes-step requirements x xs action action' h in
    let (e, (taken, from, _)) = correct_scope-Takes requirements x action mid one in
    let disjoint : Disjoint q e = elim from [
      | inl nothing ↦ λ k m. ap (λ (r : Fields). contains (field_names r) k) nothing
      | inr found ↦ apart x e (ground (arith, eq_refl x)) found
    ] in
    later_scopes requirements q xs mid action' rest (λ y r m. apart y r (ground (arith, m)))
    ∙ (ap (λ (r : Fields). project r q) taken ∙ project-update_other action.attributes q e disjoint)

-- When an action is corrected and the requirements of its scopes give each name once and share none,
-- the action says on each scope afterwards exactly what the requirement says.
pub correct_scopes-agrees :
    (requirements : Dict Value) (xs : List String) (action action' : PlanAction) (y : String)
    (r : Fields)
    → correct_scopes requirements xs action ≡ ok action'
    → Separate requirements xs
    → contains xs y ≡ true
    → lookup y requirements ≡ some (object r)
    → project action'.attributes r ≡ r
correct_scopes-agrees requirements [] action action' y r h apart m found =
    absurd (ground (arith, m))
correct_scopes-agrees requirements (x ∷ xs) action action' y r h apart m found =
    let (mid, one, rest) = correct_scopes-step requirements x xs action action' h in
    elim (Bool-cases (x == y)) [
      | inr other ↦
          correct_scopes-agrees requirements xs mid action' y r rest apart.1
            (ground (arith, m, other)) found
      | inl same ↦
          let found' : lookup x requirements ≡ some (object r) =
            subst (λ z. lookup z requirements ≡ some (object r)) (sym ((eq_iff x y).0 same))
              found in
          let (e, (taken, _, only)) = correct_scope-Takes requirements x action mid one in
          let (distinct, disjoint) = apart.0 r found' in
          later_scopes requirements r xs mid action' rest disjoint
          ∙ (ap (λ (q : Fields). project q r)
                (taken ∙ ap (update action.attributes) (sym (only r found')))
              ∙ project-update r action.attributes distinct)
    ]
