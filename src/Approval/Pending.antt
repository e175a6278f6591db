-- ===== src/Approval/Pending.antt =====
-- `pending_from_workspace`: the pending approval that a workspace in JSON holds, of which `parse` reads the
-- mutation and `fingerprint` hashes it. Lengths are bounded as in the fields of `PendingApproval`.
use Prim.Native.Char.{code}
use Prim.Native.String.{String.[], String.◌∷◌}
use writ_ai.Prelude.{
  ℕ, zero, suc, true, false, leb, ◌||◌, String, Bool, not, ◌&&◌, ◌==◌, List, [], ◌∷◌, ◌++◌, Option,
  none, some, all, map, contains, is_empty, same_set, if◌then◌else◌,
}
use writ_ai.Exec.{Result, ok, err, Error, and_then, value_error, validation_error}
use writ_ai.Dict.{Dict, keys, insert}
use writ_ai.Domain.{DecisionMutation}
use writ_ai.Domain.Value.{
  Fields, Items, Value, text, array, object, nil, cons, end, field, get, set_field,
}
use writ_ai.Supervisor.Texts.{strip, behind}
use writ_ai.Approval.{PendingApproval, fits}

abbrev pub not_blank : String → Bool
unfolding strip
not_blank t = not (strip t == "")

-- The texts that are keys of a JSON object, stripped; where two become one, the later value stays.
unfoldable pub strip_keys : Fields → Fields → Fields
unfolding strip set_field
strip_keys end done = done
strip_keys (field k v rest) done = strip_keys rest (set_field (strip k) v done)

-- The scopes and names of the requirements, stripped.
unfoldable pub strip_requirements : Dict Fields → Dict Fields
unfolding strip strip_keys insert
strip_requirements requirements = go requirements []
  where
    go : Dict Fields → Dict Fields → Dict Fields
    go [] done = done
    go ((scope, r) ∷ rest) done = go rest (insert (strip scope) (strip_keys r end) done)

-- `[0-9a-f]`
abbrev is_hex_digit : ℕ → Bool
is_hex_digit c = (leb 48 c && leb c 57) || (leb 97 c && leb c 102)

-- `[0-9a-f]{64}` of the rest, where `n` of the 64 are left.
unfoldable is_hex : ℕ → String → Bool
is_hex zero [] = true
is_hex zero (c ∷ s) = false
is_hex (suc n) [] = false
is_hex (suc n) (c ∷ s) = is_hex_digit (code c) && is_hex n s

-- `^sha256:[0-9a-f]{64}$`, which has 71 characters
unfoldable pub is_fingerprint : String → Bool
unfolding is_hex behind
is_fingerprint t = elim (behind "sha256:" t) [ none ↦ false | some rest ↦ is_hex 64 rest ]

-- The bounds of the fields, and `validate_shape`
unfoldable pub is_shaped : PendingApproval → Bool
unfolding is_fingerprint strip_requirements strip
is_shaped p =
    fits 128 p.workspace_id
    && fits 160 p.decision_id
    && fits 160 p.supersedes_id
    && not (is_empty p.affected_scopes)
    && fits 128 p.permission_id
    && fits 1000 p.source_ref
    && fits 500 p.title
    && fits 10000 p.text
    && fits 255 p.proposal_instance_id
    && is_fingerprint (strip p.proposal_fingerprint)
    && same_set (keys (strip_requirements p.requirements)) (map strip p.affected_scopes)
    && all not_blank p.evidence_refs

-- `str_strip_whitespace`
unfoldable pub stripped : PendingApproval → PendingApproval
unfolding strip strip_requirements
stripped p = record p {
  workspace_id = strip p.workspace_id;
  decision_id = strip p.decision_id;
  supersedes_id = strip p.supersedes_id;
  affected_scopes = map strip p.affected_scopes;
  permission_id = strip p.permission_id;
  source_ref = strip p.source_ref;
  title = strip p.title;
  text = strip p.text;
  requirements = strip_requirements p.requirements;
  proposal_fingerprint = strip p.proposal_fingerprint;
  proposal_instance_id = strip p.proposal_instance_id;
  evidence_refs = map strip p.evidence_refs;
}

-- `PendingApproval(…)`
unfoldable pub validate_pending : PendingApproval → Result PendingApproval
unfolding is_shaped stripped
validate_pending p = if is_shaped p then ok (stripped p) else err validation_error

-- `isinstance(value, str) and value.strip()`
unfoldable pub is_named : Value → Bool
is_named (text t) = not_blank t
is_named _ = false

-- `cast(str, value)`
abbrev pub text_of : Value → String
text_of (text t) = t
text_of _ = ""

-- `isinstance(value, Mapping)`, or the error
abbrev pub mapping : Error → Value → Result Fields
mapping e (object r) = ok r
mapping e _ = err e

abbrev pub present : {A : Type 0} → Error → Option A → Result A
present e none = err e
present e (some a) = ok a

abbrev pub value_of : Option String → Value
value_of none = Value.null
value_of (some t) = text t

-- The requirements, each of which must be a mapping.
unfoldable pub normalized_requirements : Fields → Result (Dict Fields)
normalized_requirements end = ok []
normalized_requirements (field scope (object r) rest) =
    and_then (normalized_requirements rest) λ later. ok ((scope, r) ∷ later)
normalized_requirements (field scope v rest) =
    err (value_error "Pending Decision requirements are malformed.")

-- `evidence_refs.append(reference)`, unless it is blank or there
abbrev pub add_reference : Value → List String → List String
add_reference (text t) refs = if not_blank t && not (contains refs t) then refs ++ t ∷ [] else refs
add_reference _ refs = refs

unfoldable pub span_references : Items → List String → List String
span_references nil refs = refs
span_references (cons (object span) rest) refs =
    span_references rest (add_reference (get span "source_ref") refs)
span_references (cons v rest) refs = span_references rest refs

-- The references of the validated spans of the extraction, behind the source.
unfoldable pub evidence_references : Fields → String → List String
unfolding span_references
evidence_references attributes source_ref = elim (get attributes "extraction") [
  | (object extraction) ↦ elim (get extraction "validated_evidence_spans") [
    | (array spans) ↦ span_references spans (source_ref ∷ [])
    | _ ↦ source_ref ∷ []
  ]
  | _ ↦ source_ref ∷ []
]

-- `values`
abbrev pub metadata : Fields → DecisionMutation → List Value
metadata workspace parsed =
    get workspace "id"
    ∷ text parsed.decision.id
    ∷ text parsed.supersedes_id
    ∷ value_of parsed.decision.authority_role
    ∷ value_of parsed.decision.source_ref
    ∷ get workspace "pending_proposal_instance_id"
    ∷ []

abbrev pub no_requirements : Error
no_requirements = value_error "The pending Decision has no requirements."

abbrev pub no_effective_time : Error
no_effective_time = value_error "The pending Decision has no effective time."

module _ (parse : Fields → Option DecisionMutation) (fingerprint : DecisionMutation → String) where
  -- The fields that are validated in the end.
  unfoldable pub fields_of : Fields → DecisionMutation → Dict Fields → ℕ → PendingApproval
  unfolding evidence_references
  fields_of workspace parsed requirements effective_at =
      let decision = parsed.decision in
      let source_ref = text_of (value_of decision.source_ref) in
      record {
        workspace_id = text_of (get workspace "id");
        decision_id = decision.id;
        supersedes_id = parsed.supersedes_id;
        affected_scopes = parsed.affected_scopes;
        permission_id = text_of (value_of decision.authority_role);
        source_ref = source_ref;
        title = decision.title;
        text = if decision.text == "" then decision.title else decision.text;
        effective_at = effective_at;
        requirements = requirements;
        proposal_fingerprint = fingerprint parsed;
        proposal_instance_id = text_of (get workspace "pending_proposal_instance_id");
        evidence_refs = evidence_references decision.attributes source_ref;
      }

  -- The end of `pending_of`, on the mapping of the requirements.
  unfoldable pub normalized_pending : Fields → DecisionMutation → Fields → Result PendingApproval
  unfolding is_named normalized_requirements validate_pending fields_of
  normalized_pending workspace parsed requirements =
      if not (all is_named (metadata workspace parsed))
      then err (value_error "The pending Decision is missing approval metadata.")
      else and_then (normalized_requirements requirements) λ normalized.
        and_then (present no_effective_time parsed.decision.effective_at)
          λ effective_at. validate_pending (fields_of workspace parsed normalized effective_at)

  -- The pending approval of a mutation.
  unfoldable pub pending_of : Fields → DecisionMutation → Result PendingApproval
  unfolding normalized_pending
  pending_of workspace parsed =
      and_then (mapping no_requirements (get parsed.decision.attributes "requirements"))
        (normalized_pending workspace parsed)

  -- The pending approval of `workspace.get("pending_mutation")`, if this is a mapping.
  unfoldable pub pending_in : Fields → Value → Result (Option PendingApproval)
  unfolding pending_of
  pending_in workspace (object mutation) = elim (parse mutation) [
    | none ↦ err (value_error "The pending mutation is malformed.")
    | some parsed ↦ and_then (pending_of workspace parsed) λ p. ok (some p)
  ]
  pending_in workspace _ = ok none

  -- `pending_from_workspace`
  unfoldable pub pending_from_workspace : Fields → Result (Option PendingApproval)
  unfolding pending_in
  pending_from_workspace workspace = pending_in workspace (get workspace "pending_mutation")
