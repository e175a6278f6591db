-- ===== src/Approval/Identity.antt =====
-- `InMemoryApprovalIdentityRegistry`: the users by the hash of their token.
use writ_ai.Prelude.{
  String, ◌||◌, ◌==◌, ◌≡◌, sym, subst, List, [], ◌∷◌, none, some, arith, eq_iff, Bool-cases,
  Option-cases, inl, inr, if◌then◌else◌,
}
use writ_ai.Exec.{Result, ok, err, runtime_error}
use writ_ai.Dict.{Dict, lookup, insert, lookup-insert}
use writ_ai.Supervisor.Texts.{strip}

module _ (sha256 : String → String) where
  -- `register`, with the token and the user
  unfoldable pub register_identity : String × String → Dict String → Result (Dict String)
  unfolding lookup insert strip
  register_identity (approval_token, user_id) users =
      let token = strip approval_token in
      let user = strip user_id in
      if token == "" || user == ""
      then err (runtime_error "Approval token and Hexclave user ID are required.")
      else elim (lookup (sha256 token) users) [
        | none ↦ ok (insert (sha256 token) user users)
        | some previous ↦
            if previous == user
            then ok (insert (sha256 token) user users)
            else err (runtime_error "The approval token is already bound to another identity.")
      ]

  -- `resolve_user_id`
  unfoldable pub resolve_user_id : String → Dict String → Result String
  unfolding lookup strip
  resolve_user_id approval_token users =
      let token = strip approval_token in
      if token == ""
      then err (runtime_error "Approval authentication is required.")
      else elim (lookup (sha256 token) users) [
        | none ↦ err (runtime_error "Approval authentication failed.")
        | some user ↦ ok user
      ]

  -- The registry behind registrations, of which some may have been refused.
  abbrev pub kept_or : Dict String → Result (Dict String) → Dict String
  kept_or users (ok after) = after
  kept_or users (err e) = users

  unfoldable pub register_all : List (String × String) → Dict String → Dict String
  unfolding register_identity
  register_all [] users = users
  register_all (r ∷ rs) users = register_all rs (kept_or users (register_identity r users))

  lookup-register_identity :
      (k user : String) (r : String × String) (users : Dict String)
      → lookup k users ≡ some user
      → lookup k (kept_or users (register_identity r users)) ≡ some user
  unfolding register_identity
  lookup-register_identity k user (token, other) users found =
      let h = sha256 (strip token) in
      let u = strip other in
      let blank = strip token == "" || u == "" in
      let put = lookup-insert h k u users in
      let after = kept_or users (register_identity (token, other) users) in
      let goal = λ (d : Dict String). lookup k d ≡ some user in
      elim (Bool-cases blank) [
        | inl empty ↦
            let step : after ≡ users = ground (arith, empty) in subst goal (sym step) found
        | inr full ↦ elim (Option-cases (lookup h users)) [
          | inl unknown ↦
              let step : after ≡ insert h u users = ground (arith, full, unknown) in
              subst goal (sym step) (ground (arith, put, found, unknown, eq_iff h k))
          | inr (previous, there) ↦ elim (Bool-cases (previous == u)) [
            | inr other_user ↦
                let step : after ≡ users = ground (arith, full, there, other_user) in
                subst goal (sym step) found
            | inl same_user ↦
                let step : after ≡ insert h u users = ground (arith, full, there, same_user) in
                subst goal (sym step)
                  (ground (arith, put, found, there, same_user, eq_iff h k, eq_iff previous u))
          ]
        ]
      ]

  -- A token that authenticates a user authenticates the same user after any further registrations,
  -- refused ones included.
  pub resolve_user_id-register_all :
      (token user : String) (rs : List (String × String)) (users : Dict String)
      → resolve_user_id token users ≡ ok user
      → resolve_user_id token (register_all rs users) ≡ ok user
  unfolding register_all resolve_user_id
  resolve_user_id-register_all token user [] users known = known
  resolve_user_id-register_all token user (r ∷ rs) users known =
      let h = sha256 (strip token) in
      resolve_user_id-register_all token user rs (kept_or users (register_identity r users))
        (elim (Bool-cases (strip token == "")) [
          | inl blank ↦ absurd (ground (arith, known, blank))
          | inr full ↦ elim (Option-cases (lookup h users)) [
            | inl unknown ↦ absurd (ground (arith, known, full, unknown))
            | inr (u, there) ↦
                let same : u ≡ user = ground (arith, known, full, there) in
                ground (arith, full, same, lookup-register_identity h u r users there)
          ]
        ])
