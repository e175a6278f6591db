-- ===== src/Enforcement/Denied.antt =====
-- What the check needs before it allows.
use writ_ai.Prelude.{
  String, Bool, true, false, ◌==◌, ◌≡◌, refl, ◌⊎◌, inl, inr, Option, none, some, arith, eq_iff,
  Bool-cases, Option-cases,
}
use writ_ai.Exec.{Result, ok, err}
use writ_ai.Domain.Value.{Fields}
use writ_ai.Supervisor.Texts.{Unicode}
use writ_ai.InterruptPort.{is_interrupted}
use writ_ai.Sessions.{AssignmentLocator, ClaudeCodeSessionBinding}
use writ_ai.Sessions.Registry.{get_session, is_acknowledged}
use writ_ai.Workspaces.{Document}
use writ_ai.Enforcement.Gateway.{AssignmentEnforcementSnapshot, Window, get_assignment}
use writ_ai.Enforcement.Verdicts.{
  ClaudeHookVerdict, HookDenialMode, HookPermissionDecision, clean_optional, deny_assignment,
  deny_for_missing_assignment, deny_unresolved, interrupt_key, validated,
}
use writ_ai.Enforcement.{
  ClaudePreToolUseRequest, World, check, check_assignment, check_binding, check_interrupted,
  is_confirmed, is_continuing, is_unresolved, require_owner, settle,
}

abbrev pub allows : Result ClaudeHookVerdict → Bool
allows (err e) = false
allows (ok verdict) = elim verdict.decision [
  | HookPermissionDecision.allow ↦ true
  | HookPermissionDecision.deny ↦ false
]

pub not-allows-validated :
    (v : ClaudeHookVerdict)
    → v.decision ≡ HookPermissionDecision.deny
    → allows (validated v) ≡ false
not-allows-validated v denied = ground (arith, denied)

settle_allows :
    (binding : ClaudeCodeSessionBinding) (snapshot : AssignmentEnforcementSnapshot)
    (acknowledged : Bool)
    → allows (settle binding snapshot acknowledged) ≡ true
    → (is_continuing snapshot.assignment.state ≡ true)
      ⊎ ((acknowledged ≡ true)
          ⊎ (snapshot.assignment.decision_snapshot ≡ snapshot.current_decision_snapshot))
unfolding settle deny_assignment
settle_allows binding snapshot acknowledged allowed =
    let a = snapshot.assignment in
    elim (Bool-cases (is_continuing a.state)) [
      | inl goes_on ↦ inl goes_on
      | inr stops ↦ elim (Bool-cases acknowledged) [
        | inl known ↦ inr (inl known)
        | inr unknown ↦
            elim (Bool-cases (a.decision_snapshot == snapshot.current_decision_snapshot)) [
              | inl current ↦
                  inr (
                    inr ((eq_iff a.decision_snapshot snapshot.current_decision_snapshot).0 current))
              | inr stale ↦
                  let denied =
                    not-allows-validated
                      (deny_assignment binding snapshot HookDenialMode.until_acknowledged none none)
                      refl in
                  absurd (ground (arith, allowed, stops, unknown, stale, denied))
            ]
      ]
    ]

module _ (unicode : Unicode) (stable_hash : Fields → String) where
  -- Why the work on an assignment may go on: it was preserved, a human acknowledged this interrupt, the
  -- hook confirms the delivery of its redirect, or it is not interrupted and bound to the current version.
  abbrev pub Justified : ClaudePreToolUseRequest → World → AssignmentEnforcementSnapshot → Type 0
  Justified request world snapshot =
      let key = interrupt_key stable_hash snapshot in
      (is_continuing snapshot.assignment.state ≡ true)
      ⊎ ((is_acknowledged request.session_id key world.registry ≡ true)
          ⊎ (((is_interrupted snapshot.assignment.state ≡ true)
                × (is_confirmed request.acknowledged_redirect_id key ≡ true))
              ⊎ ((is_interrupted snapshot.assignment.state ≡ false)
                  × (snapshot.assignment.decision_snapshot ≡ snapshot.current_decision_snapshot))))

  check_interrupted_allows :
      (request : ClaudePreToolUseRequest) (binding : ClaudeCodeSessionBinding)
      (snapshot : AssignmentEnforcementSnapshot) (instruction : Option String) (acknowledged : Bool)
      (windows : Window × Window × Window) (document : Document)
      → allows
          (check_interrupted unicode stable_hash binding snapshot instruction
            request.acknowledged_redirect_id acknowledged windows document).0
        ≡ true
      → (acknowledged ≡ true)
        ⊎ (is_confirmed request.acknowledged_redirect_id (interrupt_key stable_hash snapshot)
            ≡ true)
  unfolding check_interrupted deny_assignment
  check_interrupted_allows request binding snapshot none acknowledged windows document allowed =
      elim (Bool-cases acknowledged) [
        | inl known ↦ inl known
        | inr unknown ↦
            let denied =
              not-allows-validated
                (deny_assignment binding snapshot HookDenialMode.until_acknowledged none none)
                refl in
            absurd (ground (arith, allowed, unknown, denied))
      ]
  check_interrupted_allows request binding snapshot (some instruction) acknowledged windows document
        allowed =
      let key = interrupt_key stable_hash snapshot in
      elim (Bool-cases (is_confirmed request.acknowledged_redirect_id key)) [
        | inl confirmed ↦ inr confirmed
        | inr unconfirmed ↦
            let denied =
              not-allows-validated
                (deny_assignment binding snapshot HookDenialMode.until_acknowledged
                  (some instruction) (some key))
                refl in
            absurd (ground (arith, allowed, unconfirmed, denied))
      ]

  check_assignment_allows :
      (request : ClaudePreToolUseRequest) (binding : ClaudeCodeSessionBinding)
      (locator : AssignmentLocator) (windows : Window × Window × Window) (world : World)
      → allows (check_assignment unicode stable_hash request binding locator windows world).0 ≡ true
      → (snapshot : AssignmentEnforcementSnapshot) × (get_assignment locator world.document
          ≡ some snapshot)
        × Justified request world snapshot
  unfolding check_assignment deny_for_missing_assignment
  check_assignment_allows request binding locator windows world allowed =
      elim (Option-cases (get_assignment locator world.document)) [
        | inl missing ↦ absurd (ground (arith, allowed, missing))
        | inr (snapshot, found) ↦
            let key = interrupt_key stable_hash snapshot in
            let acknowledged = is_acknowledged request.session_id key world.registry in
            elim (Bool-cases (is_interrupted snapshot.assignment.state)) [
              | inl interrupted ↦
                  let went =
                    check_interrupted_allows request binding snapshot
                      (clean_optional snapshot.assignment.redirect_instruction) acknowledged windows
                      world.document (ground (arith, allowed, found, interrupted)) in
                  (
                    snapshot,
                    found,
                    elim went [
                      | inl known ↦ inr (inl known)
                      | inr confirmed ↦ inr (inr (inl (interrupted, confirmed)))
                    ],
                  )
              | inr other ↦
                  let went =
                    settle_allows binding snapshot acknowledged
                      (ground (arith, allowed, found, other)) in
                  (
                    snapshot,
                    found,
                    elim went [
                      | inl goes_on ↦ inl goes_on
                      | inr (inl known) ↦ inr (inl known)
                      | inr (inr current) ↦ inr (inr (inr (other, current)))
                    ],
                  )
            ]
      ]

  -- Whatever other writers do to the store meanwhile, the check allows a tool only to a registered session of
  -- the caller whose attachment, if it asked for one, was resolved; and if that session is bound to an
  -- assignment, this is stored and live, and its work may go on: it was preserved, a human
  -- acknowledged this very interrupt, the hook confirms the delivery of its redirect, or it is not interrupted and
  -- bound to the workspace's current version.
  pub check_allows-Justified :
      (request : ClaudePreToolUseRequest) (owner_id : String) (windows : Window × Window × Window)
      (world : World)
      → allows (check unicode stable_hash request owner_id windows world).0 ≡ true
      → (binding : ClaudeCodeSessionBinding) × (get_session request.session_id world.registry
          ≡ some binding)
        × (binding.owner_id ≡ owner_id)
        × (is_unresolved binding.source ≡ false)
        × ((binding.assignment ≡ none)
            ⊎ ((locator : AssignmentLocator) × (snapshot : AssignmentEnforcementSnapshot)
                × (binding.assignment ≡ some locator)
                × (get_assignment locator world.document ≡ some snapshot)
                × Justified request world snapshot))
  unfolding check check_binding require_owner deny_unresolved
  check_allows-Justified request owner_id windows world allowed =
      elim (Option-cases (get_session request.session_id world.registry)) [
        | inl missing ↦ absurd (ground (arith, allowed, missing))
        | inr (binding, found) ↦ elim (Bool-cases (binding.owner_id == owner_id)) [
          | inr other ↦ absurd (ground (arith, allowed, found, other))
          | inl owned ↦ elim (Bool-cases (is_unresolved binding.source)) [
            | inl unresolved ↦ absurd (ground (arith, allowed, found, owned, unresolved))
            | inr resolved ↦
                let owner = (eq_iff binding.owner_id owner_id).0 owned in
                elim (Option-cases binding.assignment) [
                  | inl nothing ↦ (binding, found, owner, resolved, inl nothing)
                  | inr (locator, bound) ↦
                      let (snapshot, stored, why) =
                        check_assignment_allows request binding locator windows world
                          (ground (arith, allowed, found, owned, resolved, bound)) in
                      (binding, found, owner, resolved, inr (locator, snapshot, bound, stored, why))
                ]
          ]
        ]
      ]
