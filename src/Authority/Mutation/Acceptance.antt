-- ===== src/Authority/Mutation/Acceptance.antt =====
-- When `apply_decision_change` goes on to change the graph: its guards, stated without its order.
use writ_ai.Prelude.{
  empty_of_contains, String, Bool, true, false, not, ◌&&◌, ◌||◌, ◌≡◌, ◌↔◌, List, none, some,
  contains, contains-append, contains-diff, contains-filter, filter, is_empty, is_empty→contains,
  subset, sym_diff, diff, lt_float, arith,
}
use writ_ai.Dict.{lookup, has_key}
use writ_ai.Domain.{Artifact, DecisionMutation, is_decision}
use writ_ai.Domain.Value.{Fields, field_names}
use writ_ai.Authority.{IntentAuthority}
use writ_ai.Authority.Mutation.{
  is_approved, requirements_of, role_allowed, check_scopes, refusal, target_refusal,
}

-- The two sets of texts are equal.
abbrev pub SameScopes : List String → List String → Type 0
SameScopes xs ys = (x : String) → contains xs x ≡ contains ys x

contains-sym_diff :
    (xs ys : List String) (x : String)
    → contains (sym_diff xs ys) x
      ≡ (contains xs x && not (contains ys x) || contains ys x && not (contains xs x))
contains-sym_diff xs ys x = ground (
  arith,
  contains-append (diff xs ys) (diff ys xs) x,
  contains-diff xs ys x,
  contains-diff ys xs x,
)

-- `not (xs ^ ys)` says that the sets are equal.
pub sym_diff_empty : (xs ys : List String) → (is_empty (sym_diff xs ys) ≡ true) ↔ SameScopes xs ys
sym_diff_empty xs ys = (
  λ h x. ground (arith, is_empty→contains (sym_diff xs ys) x h, contains-sym_diff xs ys x),
  λ h. empty_of_contains (sym_diff xs ys) (λ x. ground (arith, contains-sym_diff xs ys x, h x)),
)

-- What a change must satisfy: an approved Decision of enough confidence, for at least one scope, whose
-- scopes and requirements are those of the change, from a role that holds every one of them, under a
-- new id.
pub record Admissible (a : IntentAuthority) (m : DecisionMutation) : Type 0 where
  pub kind : is_decision m.decision.kind ≡ true
  pub approved : is_approved m.decision.approval_status ≡ true
  pub confident : lt_float m.decision.confidence a.authority_threshold ≡ false
  pub some_scope : is_empty m.affected_scopes ≡ false
  pub requirements : Fields
  pub well_formed : requirements_of m.decision ≡ some requirements
  pub same_scopes : SameScopes m.decision.scopes m.affected_scopes
  pub same_requirements : SameScopes (field_names requirements) m.affected_scopes
  pub authoritative :
      (x : String)
      → contains m.affected_scopes x ≡ true
      → role_allowed a.authority_policy m.decision.authority_role x ≡ true
  pub fresh : has_key a.graph.artifacts m.decision.id ≡ false

role_empty :
    (a : IntentAuthority) (m : DecisionMutation)
    → is_empty (
        filter
          (λ x. not (role_allowed a.authority_policy m.decision.authority_role x))
          m.affected_scopes)
      ≡ true
    → (x : String) → contains m.affected_scopes x ≡ true
    → role_allowed a.authority_policy m.decision.authority_role x ≡ true
role_empty a m h x c =
    let p : String → Bool =
      λ y. not (role_allowed a.authority_policy m.decision.authority_role y) in
    ground (
      arith,
      is_empty→contains (filter p m.affected_scopes) x h,
      contains-filter p m.affected_scopes x,
    )

refusal_parts :
    (a : IntentAuthority) (m : DecisionMutation)
    → refusal a m ≡ none
    → (r : Fields) × (requirements_of m.decision ≡ some r) × (check_scopes a m r ≡ none)
unfolding refusal
refusal_parts a m h = ground arith

module _ (a : IntentAuthority) (m : DecisionMutation) where
  check_scopes_sound :
      (r : Fields)
      → check_scopes a m r ≡ none
      → (is_empty (sym_diff m.decision.scopes m.affected_scopes) ≡ true)
        × (is_empty (sym_diff (field_names r) m.affected_scopes) ≡ true)
        × (is_empty (
              filter
                (λ x. not (role_allowed a.authority_policy m.decision.authority_role x))
                m.affected_scopes)
            ≡ true)
        × (has_key a.graph.artifacts m.decision.id ≡ false)
  unfolding check_scopes
  check_scopes_sound r h = ground arith

  -- No refusal before the lookup means that every condition holds.
  pub refusal_sound : refusal a m ≡ none → Admissible a m
  unfolding refusal
  refusal_sound h =
      let (r, well_formed, checked) = refusal_parts a m h in
      let (s1, s2, s3, s4) = check_scopes_sound r checked in
      record {
        kind = ground arith;
        approved = ground arith;
        confident = ground arith;
        some_scope = ground arith;
        requirements = r;
        well_formed = well_formed;
        same_scopes = (sym_diff_empty m.decision.scopes m.affected_scopes).0 s1;
        same_requirements = (sym_diff_empty (field_names r) m.affected_scopes).0 s2;
        authoritative = role_empty a m s3;
        fresh = s4;
      }

  role_complete :
      Admissible a m
      → is_empty (
          filter
            (λ x. not (role_allowed a.authority_policy m.decision.authority_role x))
            m.affected_scopes)
        ≡ true
  role_complete h =
      let p : String → Bool =
        λ y. not (role_allowed a.authority_policy m.decision.authority_role y) in
      empty_of_contains (filter p m.affected_scopes)
        (λ x. ground (arith, contains-filter p m.affected_scopes x, h.authoritative x))

  -- Conversely a change that meets every condition is not refused there.
  pub refusal_complete : Admissible a m → refusal a m ≡ none
  unfolding refusal check_scopes
  refusal_complete h = ground (
    arith,
    h.kind,
    h.approved,
    h.confident,
    h.some_scope,
    h.well_formed,
    (sym_diff_empty m.decision.scopes m.affected_scopes).1 h.same_scopes,
    (sym_diff_empty (field_names h.requirements) m.affected_scopes).1 h.same_requirements,
    role_complete h,
    h.fresh,
  )

  -- The whole acceptance condition: the change is admissible, and supersedes a stored Decision that
  -- has every affected scope.
  pub record Accepted : Type 0 where
    pub admissible : Admissible a m
    pub superseded : Artifact
    pub stored : lookup m.supersedes_id a.graph.artifacts ≡ some superseded
    pub target_decision : is_decision superseded.kind ≡ true
    pub covered : subset m.affected_scopes superseded.scopes ≡ true

  pub target_refusal_iff :
      (s : Artifact)
      → (target_refusal s m ≡ none)
        ↔ ((is_decision s.kind ≡ true) × (subset m.affected_scopes s.scopes ≡ true))
  unfolding target_refusal
  target_refusal_iff s = (λ h. ground arith, λ h. ground arith)
