-- ===== src/Authority/Propagation/Marks.antt =====
-- What marking does to one artifact and to the store.
use mathlib.Core.List.{append-nil}
use writ_ai.Prelude.{
  String, Bool, true, false, not, ◌&&◌, ◌||◌, ◌≡◌, refl, ap, ◌∙◌, List, [], ◌∷◌, none, some,
  contains, inter, diff, union, subset, is_empty, contains-union, contains-inter, arith, eq_refl,
}
use writ_ai.Exec.{ok}
use writ_ai.Dict.{lookup, insert, has_key_of_lookup}
use writ_ai.Domain.{Artifact}
use writ_ai.Graph.{Store, update_artifact}
use writ_ai.Authority.Propagation.{mark, mark_artifact}

-- The artifact carries an affected scope.
abbrev pub hit : Artifact → List String → Bool
hit a affected = not (is_empty (inter a.scopes affected))

-- Whether the id stands for such an artifact.
abbrev pub affects : List String → Store → String → Bool
affects affected g k = elim (lookup k g.artifacts) [ none ↦ false | some a ↦ hit a affected ]

diff_none : (xs ys : List String) → subset xs ys ≡ true → diff xs ys ≡ []
diff_none [] ys h = refl
diff_none (x ∷ xs) ys h = ground (arith, diff_none xs ys)

subset-weaken :
    (xs ys zs : List String)
    → ((a : String) → contains ys a ≡ true → contains zs a ≡ true)
    → subset xs ys ≡ true
    → subset xs zs ≡ true
subset-weaken [] ys zs more h = refl
subset-weaken (x ∷ xs) ys zs more h = ground (arith, more x, subset-weaken xs ys zs more)

subset_refl : (xs : List String) → subset xs xs ≡ true
subset_refl [] = refl
subset_refl (x ∷ xs) =
    ground
      (arith, eq_refl x, subset-weaken xs xs (x ∷ xs) (λ a h. ground (arith, h)) (subset_refl xs))

subset-union_right : (xs ys : List String) → subset ys (union xs ys) ≡ true
subset-union_right xs ys =
    subset-weaken ys ys (union xs ys) (λ a h. contains-union xs ys a ∙ ground (arith, h))
      (subset_refl ys)

-- Marking twice for the same change is marking once.
pub mark_idem :
    (a : Artifact) (affected : List String) → mark (mark a affected) affected ≡ mark a affected
unfolding mark
mark_idem a affected =
    let common = inter a.scopes affected in
    let old = a.invalidated_scopes in
    rw (
      diff_none common (union old common) (subset-union_right old common),
      append-nil (union old common),
    )

-- Marking adds exactly the common scopes to those that the artifact lost before.
pub lost-mark :
    (a : Artifact) (affected : List String) (x : String)
    → contains (mark a affected).invalidated_scopes x
      ≡ (contains a.invalidated_scopes x || (contains a.scopes x && contains affected x))
unfolding mark
lost-mark a affected x =
    contains-union a.invalidated_scopes (inter a.scopes affected) x
    ∙ ap (λ b. contains a.invalidated_scopes x || b) (contains-inter a.scopes affected x)

pub scopes-mark : (a : Artifact) (affected : List String) → (mark a affected).scopes ≡ a.scopes
unfolding mark
scopes-mark a affected = refl

pub id-mark : (a : Artifact) (affected : List String) → (mark a affected).id ≡ a.id
unfolding mark
id-mark a affected = refl

-- A hit artifact is written as marked, and the copy in hand is what was written.
pub mark_artifact-hit :
    (a : Artifact) (affected : List String) (s : Store)
    → hit a affected ≡ true
    → lookup a.id s.artifacts ≡ some a
    → mark_artifact a affected s ≡ (
      ok (mark a affected, inter a.scopes affected),
      record s { artifacts = insert a.id (mark a affected) s.artifacts },
    )
unfolding mark_artifact update_artifact
mark_artifact-hit a affected s h stored = ground (arith, has_key_of_lookup a.id s.artifacts a)

pub mark_artifact-miss :
    (a : Artifact) (affected : List String) (s : Store)
    → hit a affected ≡ false
    → mark_artifact a affected s ≡ (ok (a, []), s)
unfolding mark_artifact
mark_artifact-miss a affected s h = ground arith
