-- ===== src/Gate/Pending.antt =====
-- The theorem about `DeterministicIntakeGate.evaluate`.
use Prim.Native.String.{String.[]}
use writ_ai.Prelude.{
  all_iff, empty_of_contains, contains-any, String, Bool, true, false, not, ◌&&◌, ◌==◌, ◌≡◌, ◌≢◌,
  sym, ◌∙◌, subst, ◌↔◌, List, [], ◌∷◌, ◌++◌, none, some, contains, contains-inter, contains-diff,
  diff, inter, is_empty, is_empty→contains, all, Float, lt_float, arith, eq_iff, eq_refl,
  Bool-cases, Option-cases, List-cases, inl, inr,
}
use writ_ai.Prelude.Sorting.{any-sort_by, sort_texts, all-sort_by, text_le}
use writ_ai.Dict.{Dict}
use writ_ai.Supervisor.Texts.{strip}
use writ_ai.Gate.{
  DeterministicIntakeGate, GateResult, PermissionChecker, check_permissions, common_permissions,
  early_reasons, evaluate, in_common, normalized_scopes, out_of_range, pending, permissions_for,
}

contains-in_common :
    (policy : Dict (List String)) (common xs : List String) (p : String)
    → contains (in_common policy common xs) p
      ≡ (contains common p && all (λ x. contains (permissions_for policy x) p) xs)
unfolding in_common
contains-in_common policy common [] p = ground arith
contains-in_common policy common (x ∷ xs) p =
    contains-in_common policy (inter common (permissions_for policy x)) xs p
    ∙ ground (arith, contains-inter common (permissions_for policy x) p)

-- The common permissions of some scopes are those that the policy gives for each of them.
contains-common_permissions :
    (policy : Dict (List String)) (xs : List String) (p : String)
    → is_empty xs ≡ false
    → contains (common_permissions policy xs) p
      ≡ all (λ x. contains (permissions_for policy x) p) xs
unfolding common_permissions
contains-common_permissions policy xs p some_scope =
    let q : String → Bool = λ x. contains (permissions_for policy x) p in
    elim (List-cases (sort_texts xs)) [
      | inl nothing ↦
          let never : String → Bool = λ x. false in
          absurd (ground (arith, some_scope, List-cases xs, all-sort_by text_le never xs, nothing))
      | inr (first, rest, sorted) ↦ ground (
        arith,
        sorted,
        contains-in_common policy (permissions_for policy first) rest p,
        all-sort_by text_le q xs,
      )
    ]

module _ (has_permission : PermissionChecker) (author : String) (scopes : List String) where
  check_pending :
      (ps checked : List String)
      → (check_permissions has_permission author scopes checked ps).disposition ≡ pending
      → (p : String) × ((check_permissions has_permission author scopes checked ps).permission_id
          ≡ some p)
        × (contains ps p ≡ true)
        × (has_permission author p ≡ some true)
  unfolding check_permissions
  check_pending [] checked h = absurd (ground (arith, h))
  check_pending (p ∷ ps) checked h = elim (Option-cases (has_permission author p)) [
    | inl raised ↦ absurd (ground (arith, h, raised))
    | inr (true, allowed) ↦ (p, ground (arith, allowed), ground (arith, eq_refl p), allowed)
    | inr (false, denied) ↦
        let (q, named, member, allowed) =
          check_pending ps (checked ++ p ∷ []) (ground (arith, h, denied)) in
        (q, ground (arith, denied, named), ground (arith, member), allowed)
  ]

  check_complete :
      (ps checked : List String) (p : String)
      → ((q : String) → has_permission author q ≢ none)
      → contains ps p ≡ true
      → has_permission author p ≡ some true
      → (check_permissions has_permission author scopes checked ps).disposition ≡ pending
  unfolding check_permissions
  check_complete [] checked p answers member allowed = absurd (ground (arith, member))
  check_complete (q ∷ ps) checked p answers member allowed =
      elim (Option-cases (has_permission author q)) [
        | inl raised ↦ absurd (answers q raised)
        | inr (true, granted) ↦ ground (arith, granted)
        | inr (false, denied) ↦
            let other : (q == p) ≡ false = elim (Bool-cases (q == p)) [
              | inr differs ↦ differs
              | inl same ↦
                  let also : has_permission author q ≡ some true =
                    subst (λ (z : String). has_permission author z ≡ some true)
                      (sym ((eq_iff q p).0 same)) allowed in
                  absurd (ground (arith, also, denied))
            ] in
            let later =
              check_complete ps (checked ++ q ∷ []) p answers (ground (arith, member, other))
                allowed in
            ground (arith, denied, later)
      ]

-- What a candidate needs in order to go on: an author, at least one scope, only known scopes, a
-- confidence in range that reaches the threshold, and a permission of the author that the policy gives
-- for every one of the scopes.
pub record Cleared (has_permission : PermissionChecker) (gate : DeterministicIntakeGate)
    (author : String) (scopes : List String) (confidence : Float) (p : String) : Type 0 where
  pub named : (author == "") ≡ false
  pub some_scope : is_empty scopes ≡ false
  pub known : (x : String) → contains scopes x ≡ true → contains gate.known_scopes x ≡ true
  pub in_range : out_of_range confidence ≡ false
  pub confident : lt_float confidence gate.confidence_threshold ≡ false
  pub common :
      (x : String)
      → contains scopes x ≡ true
      → contains (permissions_for gate.authority_policy x) p ≡ true
  pub allowed : has_permission author p ≡ some true

module _ (gate : DeterministicIntakeGate) (author : String) (scopes : List String)
    (confidence : Float) where
  early_empty : is_empty (early_reasons gate author scopes confidence) ≡ (
      not (author == "")
      && not (is_empty scopes)
      && is_empty (diff scopes gate.known_scopes)
      && not (out_of_range confidence)
      && not (lt_float confidence gate.confidence_threshold)
      && not (is_empty (common_permissions gate.authority_policy scopes)))
  unfolding early_reasons
  early_empty = ground arith

  known_iff :
      (is_empty (diff scopes gate.known_scopes) ≡ true)
      ↔ ((x : String) → contains scopes x ≡ true → contains gate.known_scopes x ≡ true)
  known_iff = (
    λ h x m. ground (
      arith,
      m,
      is_empty→contains (diff scopes gate.known_scopes) x h,
      contains-diff scopes gate.known_scopes x,
    ),
    λ h.
        empty_of_contains (diff scopes gate.known_scopes)
          (λ x. ground (arith, contains-diff scopes gate.known_scopes x, h x)),
  )

module _ (has_permission : PermissionChecker) (gate : DeterministicIntakeGate) (author_id : String)
    (affected_scopes : List String) (confidence : Float) where
  abbrev pub outcome : GateResult
  outcome = evaluate has_permission gate author_id affected_scopes confidence

  abbrev pub CandidateCleared : String → Type 0
  CandidateCleared =
      Cleared has_permission gate (strip author_id) (normalized_scopes affected_scopes) confidence

  abbrev scopes : List String
  scopes = normalized_scopes affected_scopes

  abbrev candidates : List String
  candidates = sort_texts (common_permissions gate.authority_policy scopes)

  contains-candidates :
      (p : String)
      → contains candidates p ≡ contains (common_permissions gate.authority_policy scopes) p
  contains-candidates p =
      contains-any candidates p
      ∙ (any-sort_by text_le (λ x. x == p) (common_permissions gate.authority_policy scopes)
          ∙ sym (contains-any (common_permissions gate.authority_policy scopes) p))

  evaluate_cleared :
      outcome.disposition ≡ pending
      → (p : String) × (outcome.permission_id ≡ some p) × CandidateCleared p
  unfolding evaluate
  evaluate_cleared h =
      let e = early_empty gate (strip author_id) scopes confidence in
      elim (Bool-cases (is_empty (early_reasons gate (strip author_id) scopes confidence))) [
        | inr some_reason ↦ absurd (ground (arith, h, some_reason))
        | inl clear ↦
            let (p, found, member, granted) =
              check_pending has_permission (strip author_id) scopes candidates []
                (ground (arith, h, clear)) in
            let some_scope : is_empty scopes ≡ false = ground (arith, e, clear) in
            let q : String → Bool = λ x. contains (permissions_for gate.authority_policy x) p in
            (
              p,
              ground (arith, found, clear),
              record {
                named = ground (arith, e, clear);
                some_scope = some_scope;
                known =
                    (known_iff gate (strip author_id) scopes confidence).0
                      (ground (arith, e, clear));
                in_range = ground (arith, e, clear);
                confident = ground (arith, e, clear);
                common = (all_iff q scopes).0 (
                    sym (contains-common_permissions gate.authority_policy scopes p some_scope)
                    ∙ (sym (contains-candidates p) ∙ member));
                allowed = granted;
              },
            )
      ]

  evaluate_complete :
      (p : String)
      → ((q : String) → has_permission (strip author_id) q ≢ none)
      → CandidateCleared p
      → outcome.disposition ≡ pending
  unfolding evaluate
  evaluate_complete p answers c =
      let q : String → Bool = λ x. contains (permissions_for gate.authority_policy x) p in
      let shared : contains (common_permissions gate.authority_policy scopes) p ≡ true =
        contains-common_permissions gate.authority_policy scopes p c.some_scope
        ∙ (all_iff q scopes).1 c.common in
      let some_permission : is_empty (common_permissions gate.authority_policy scopes) ≡ false =
        elim (Bool-cases (is_empty (common_permissions gate.authority_policy scopes))) [
          | inr found ↦ found
          | inl nothing ↦ absurd (
              ground (
                arith,
                shared,
                is_empty→contains (common_permissions gate.authority_policy scopes) p nothing,
              ))
        ] in
      let clear : is_empty (early_reasons gate (strip author_id) scopes confidence) ≡ true =
        early_empty gate (strip author_id) scopes confidence
        ∙ ground (
          arith,
          c.named,
          c.some_scope,
          c.in_range,
          c.confident,
          some_permission,
          (known_iff gate (strip author_id) scopes confidence).1 c.known,
        ) in
      let done =
        check_complete has_permission (strip author_id) scopes candidates [] p answers
          (contains-candidates p ∙ shared) c.allowed in
      ground (arith, clear, done)

  -- When the permission service answers every question about the author, a candidate goes on to
  -- confirmation exactly if it is cleared under some permission: it has an author and a scope, all its
  -- scopes are known, its confidence is in range and reaches the threshold, and the author holds a
  -- permission that the policy gives for each of its scopes.
  pub evaluate_pending_iff :
      ((q : String) → has_permission (strip author_id) q ≢ none)
      → ((evaluate has_permission gate author_id affected_scopes confidence).disposition ≡ pending)
        ↔ ((p : String) × CandidateCleared p)
  evaluate_pending_iff answers =
      (λ h. let (p, _, c) = evaluate_cleared h in (p, c), λ (p, c). evaluate_complete p answers c)

  -- Whatever the permission service does, a candidate that goes on is cleared under the permission that
  -- the result tells.
  pub evaluate_pending_sound :
      (evaluate has_permission gate author_id affected_scopes confidence).disposition ≡ pending
      → (p : String) × ((evaluate has_permission gate author_id affected_scopes
            confidence).permission_id
          ≡ some p)
        × CandidateCleared p
  evaluate_pending_sound = evaluate_cleared
