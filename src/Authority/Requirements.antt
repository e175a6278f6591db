-- ===== src/Authority/Requirements.antt =====
-- `IntentAuthority.current_requirements`.
pub mod Governing
use writ_ai.Prelude.{
  ℕ, String, Bool, true, false, not, ◌||◌, List, [], ◌∷◌, ◌++◌, Option, none, some, contains, leb,
  if◌then◌else◌,
}
use writ_ai.Prelude.Sorting.{sort_by}
use writ_ai.Exec.{Result, ok, err, and_then, attribute_error, validation_error}
use writ_ai.Dict.{Dict, insert}
use writ_ai.Domain.{Artifact, is_decision}
use writ_ai.Domain.Value.{Value, Fields, end, field, object, find}
use writ_ai.Graph.{Store, list_artifacts}
use writ_ai.Authority.Mutation.{is_approved}

-- `(effective_at, artifact, scope, requirement)`, of which the artifact is not read.
pub record Candidate : Type 0 where
  pub effective_at : ℕ
  pub scope : String
  pub requirement : Value

-- `artifact.effective_at or datetime.min`
abbrev pub effective_time : Option ℕ → ℕ
effective_time none = 0
effective_time (some t) = t

-- `for scope, requirement in requirements.items()`
unfoldable pub candidates_from : Artifact → Fields → List Candidate
candidates_from a end = []
candidates_from a (field scope v rest) =
    if contains a.invalidated_scopes scope
    then candidates_from a rest
    else record { effective_at = effective_time a.effective_at; scope = scope; requirement = v }
      ∷ candidates_from a rest

-- `artifact.attributes.get("requirements", {})`; only a dictionary has `items`.
unfoldable pub requirement_fields : Artifact → Result Fields
requirement_fields a = elim (find "requirements" a.attributes) [
  | none ↦ ok end
  | some (object r) ↦ ok r
  | some _ ↦ err attribute_error
]

-- `for artifact in self.graph.list_artifacts()`
unfoldable pub candidates : List Artifact → Result (List Candidate)
unfolding candidates_from
candidates [] = ok []
candidates (a ∷ rest) =
    if not (is_decision a.kind) || not (is_approved a.approval_status)
    then candidates rest
    else and_then (requirement_fields a)
        λ r. and_then (candidates rest) λ more. ok (candidates_from a r ++ more)

abbrev pub effective_order : Candidate → Candidate → Bool
effective_order c d = leb c.effective_at d.effective_at

-- A later candidate overwrites an earlier one of its scope.
unfoldable pub latest : Dict Value → List Candidate → Dict Value
latest d [] = d
latest d (c ∷ rest) = latest (insert c.scope c.requirement d) rest

unfoldable pub current_requirements : Store → Result (Dict Value)
unfolding candidates
current_requirements s =
    and_then (candidates (list_artifacts s)) λ cs. ok (latest [] (sort_by effective_order cs))

-- The results declare `dict[str, dict[str, Any]]`, and building one with another value raises.
unfoldable pub typed_requirements : Dict Value → Result (Dict Fields)
typed_requirements [] = ok []
typed_requirements ((scope, object r) ∷ rest) =
    and_then (typed_requirements rest) λ more. ok ((scope, r) ∷ more)
typed_requirements ((scope, v) ∷ rest) = err validation_error
