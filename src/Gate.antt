-- ===== src/Gate.antt =====
-- backend/writai/intake/gate.py: which candidate decisions go on to a human's confirmation. The checker
-- of permissions is a parameter; it answers, or raises `HexclavePermissionError` (`none`).
pub mod Pending
use Prim.Native.String.{String.[], String.◌∷◌}
use writ_ai.Prelude.{
  String, Bool, true, false, not, ◌&&◌, ◌||◌, ◌==◌, List, [], ◌∷◌, ◌++◌, map, Option, none, some,
  contains, diff, inter, filter, is_empty, Float, nan, inf, neg_inf, finite, pos, lt_float,
  if◌then◌else◌,
}
use writ_ai.Prelude.Sorting.{sort_texts}
use writ_ai.Exec.{Result, ok, err, and_then, value_error}
use writ_ai.Dict.{Dict, lookup, insert, keys, has_key}
use writ_ai.Domain.Value.{one}
use writ_ai.Supervisor.Texts.{strip}

pub data IntakeGateDisposition : Type 0 where
  pending parked : IntakeGateDisposition

pub data IntakeGateReason : Type 0 where
  missing_author no_affected_scopes unknown_scopes invalid_confidence low_confidence
        no_common_permission author_not_authorized permission_check_unavailable :
      IntakeGateReason

pub record GateResult : Type 0 where
  pub disposition : IntakeGateDisposition
  pub reasons : List IntakeGateReason
  pub affected_scopes : List String
  pub permission_id : Option String
  pub checked_permissions : List String

-- `PermissionChecker.has_permission`, by user and permission.
abbrev pub PermissionChecker : Type 0
PermissionChecker = String → String → Option Bool

pub record DeterministicIntakeGate : Type 0 where
  pub known_scopes : List String
  pub authority_policy : Dict (List String)
  pub confidence_threshold : Float

-- `not isfinite(x) or x < 0 or x > 1`
unfoldable pub out_of_range : Float → Bool
out_of_range nan = true
out_of_range inf = true
out_of_range neg_inf = true
out_of_range (finite n) = lt_float (finite n) (finite (pos 0)) || lt_float (finite one) (finite n)

-- `_normalized_values`
unfoldable pub normalized_values : List String → Result (List String)
unfolding strip
normalized_values values =
    let normalized = map strip values in
    if contains normalized "" then err (value_error "blank") else ok normalized

-- The loop over `authority_policy.items()`.
unfoldable pub normalize_policy :
    Dict (List String) → Dict (List String) → Result (Dict (List String))
unfolding strip normalized_values
normalize_policy policy [] = ok policy
normalize_policy policy ((scope, permissions) ∷ rest) =
    if strip scope == ""
    then err (value_error "blank scope")
    else if has_key policy (strip scope)
    then err (value_error "repeated scope")
    else and_then (normalized_values permissions) λ normalized.
      if is_empty normalized
      then err (value_error "no permissions")
      else normalize_policy (insert (strip scope) normalized policy) rest

-- `DeterministicIntakeGate(…)`
unfoldable pub deterministic_intake_gate :
    List String → Dict (List String) → Float → Result DeterministicIntakeGate
unfolding out_of_range normalized_values normalize_policy
deterministic_intake_gate known_scopes authority_policy confidence_threshold =
    if out_of_range confidence_threshold
    then err (value_error "confidence_threshold")
    else and_then (normalized_values known_scopes) λ scopes.
      if is_empty scopes
      then err (value_error "known_scopes")
      else and_then (normalize_policy [] authority_policy) λ policy.
        if not (is_empty (diff scopes (keys policy))) || not (is_empty (diff (keys policy) scopes))
        then err (value_error "authority_policy")
        else ok (record {
          known_scopes = scopes;
          authority_policy = policy;
          confidence_threshold = confidence_threshold;
        })

-- `self._authority_policy.get(scope, frozenset())`
abbrev pub permissions_for : Dict (List String) → String → List String
permissions_for policy scope = elim (lookup scope policy) [ none ↦ [] | some ps ↦ ps ]

-- `for permissions in permissions_by_scope[1:]`
unfoldable pub in_common : Dict (List String) → List String → List String → List String
in_common policy common [] = common
in_common policy common (scope ∷ rest) =
    in_common policy (inter common (permissions_for policy scope)) rest

-- `_common_permissions`
unfoldable pub common_permissions : Dict (List String) → List String → List String
unfolding in_common
common_permissions policy scopes = elim (sort_texts scopes) [
  | [] ↦ []
  | first ∷ rest ↦ in_common policy (permissions_for policy first) rest
]

-- `frozenset(scope.strip() for scope in affected_scopes if scope.strip())`
unfoldable pub normalized_scopes : List String → List String
unfolding strip
normalized_scopes scopes = filter (λ s. not (s == "")) (map strip scopes)

abbrev pub reason_if : Bool → IntakeGateReason → List IntakeGateReason
reason_if true reason = reason ∷ []
reason_if false reason = []

-- The reasons to park a candidate before any permission is checked.
unfoldable pub early_reasons :
    DeterministicIntakeGate → String → List String → Float → List IntakeGateReason
unfolding out_of_range common_permissions
early_reasons gate author scopes confidence =
    reason_if (author == "") missing_author
    ++ reason_if (is_empty scopes) no_affected_scopes
    ++ reason_if (not (is_empty (diff scopes gate.known_scopes))) unknown_scopes
    ++ (if out_of_range confidence
        then invalid_confidence ∷ []
        else reason_if (lt_float confidence gate.confidence_threshold) low_confidence)
    ++ reason_if
        (not (is_empty scopes)
          && is_empty (diff scopes gate.known_scopes)
          && is_empty (common_permissions gate.authority_policy scopes))
        no_common_permission

abbrev pub parked_for : List IntakeGateReason → List String → List String → GateResult
parked_for reasons scopes checked = record {
  disposition = parked;
  reasons = reasons;
  affected_scopes = scopes;
  permission_id = none;
  checked_permissions = checked;
}

module _ (has_permission : PermissionChecker) where
  -- `for permission_id in sorted(common_permissions)`
  unfoldable pub check_permissions : String → List String → List String → List String → GateResult
  check_permissions author scopes checked [] =
      parked_for (author_not_authorized ∷ []) scopes checked
  check_permissions author scopes checked (p ∷ rest) =
      let checked' = checked ++ p ∷ [] in
      elim (has_permission author p) [
        | none ↦ parked_for (permission_check_unavailable ∷ []) scopes checked'
        | (some true) ↦ record {
          disposition = pending;
          reasons = [];
          affected_scopes = scopes;
          permission_id = some p;
          checked_permissions = checked';
        }
        | (some false) ↦ check_permissions author scopes checked' rest
      ]

  unfoldable pub evaluate : DeterministicIntakeGate → String → List String → Float → GateResult
  unfolding early_reasons check_permissions normalized_scopes strip common_permissions
  evaluate gate author_id affected_scopes confidence =
      let author = strip author_id in
      let scopes = normalized_scopes affected_scopes in
      let reasons = early_reasons gate author scopes confidence in
      if not (is_empty reasons)
      then parked_for reasons scopes []
      else check_permissions author scopes []
          (sort_texts (common_permissions gate.authority_policy scopes))
