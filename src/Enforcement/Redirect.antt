-- ===== src/Enforcement/Redirect.antt =====
-- A redirect on its way: denied until the hook confirms it, then allowed from there on.
use writ_ai.Prelude.{
  String, Bool, true, false, ◌==◌, ◌≡◌, refl, sym, ap, ◌∙◌, subst, Option, some, arith, eq_iff,
  eq_refl,
}
use writ_ai.Exec.{Result, ok}
use writ_ai.Domain.Value.{Fields}
use writ_ai.Supervisor.{SupervisorAssignment, WorkspaceSupervisor}
use writ_ai.Supervisor.Texts.{Unicode}
use writ_ai.InterruptPort.Cases.{get_record-id, get_record-put_record}
use writ_ai.Sessions.{AssignmentLocator, ClaudeCodeSessionBinding}
use writ_ai.Sessions.Registry.{get_session, is_acknowledged}
use writ_ai.Workspaces.{Document, LiveWorkspaceRecord, get_record, put_record}
use writ_ai.Enforcement.Gateway.{Window, get_assignment, located_in, snapshot_of}
use writ_ai.Enforcement.Verdicts.{
  ClaudeHookVerdict, HookDenialMode, HookPermissionDecision, allow_current, clean_optional,
  deny_assignment, interrupt_key, validated,
}
use writ_ai.Enforcement.{
  ClaudePreToolUseRequest, World, check, check_assignment, check_binding, check_interrupted,
  is_confirmed, is_unresolved, require_owner, settle, settle_delivered,
}
use writ_ai.Enforcement.Denied.{allows}
use writ_ai.Enforcement.Delivered.{
  IsInterruptedAt, behind_delivery, delivered, located_in-redirecting,
  mark_redirect_delivered-quiet, quiet, redirecting,
}

-- A session of an owner that is bound to an assignment.
abbrev pub IsBoundTo :
    World → String → String → ClaudeCodeSessionBinding → AssignmentLocator → Type 0
IsBoundTo world session_id owner_id binding locator =
    (get_session session_id world.registry ≡ some binding)
    × (binding.owner_id ≡ owner_id)
    × (is_unresolved binding.source ≡ false)
    × (binding.assignment ≡ some locator)

put_get_record :
    (k : String) (w v : LiveWorkspaceRecord) (document : Document)
    → get_record k document ≡ ok w
    → v.id ≡ k
    → get_record k (put_record k v document) ≡ ok v
put_get_record k w v document found named =
    subst
      (λ (j : String). get_record j document ≡ ok w → get_record j (put_record j v document) ≡ ok v)
      named (get_record-put_record v w document) found

module _ (unicode : Unicode) (stable_hash : Fields → String) where
  check_bound :
      (request : ClaudePreToolUseRequest) (owner_id : String) (binding : ClaudeCodeSessionBinding)
      (locator : AssignmentLocator) (windows : Window × Window × Window) (world : World)
      → IsBoundTo world request.session_id owner_id binding locator
      → check unicode stable_hash request owner_id windows world
        ≡ check_assignment unicode stable_hash request binding locator windows world
  unfolding check check_binding require_owner
  check_bound request owner_id binding locator windows world h =
      let (found, owner, resolved, bound) = h in
      ground (arith, found, (eq_iff binding.owner_id owner_id).1 owner, resolved, bound)

  get_assignment-at :
      (locator : AssignmentLocator) (document : Document) (w : LiveWorkspaceRecord)
      (s : WorkspaceSupervisor) (a : SupervisorAssignment)
      → IsInterruptedAt locator document w s a
      → get_assignment locator document ≡ some (snapshot_of w locator a)
  unfolding get_assignment located_in
  get_assignment-at locator document w s a h =
      let (found, there, located, interrupted, provider) = h in
      ground (arith, found, there, located)

  -- The store behind a delivery.
  abbrev pub store_behind :
      AssignmentLocator
      → Document
      → LiveWorkspaceRecord
      → WorkspaceSupervisor
      → SupervisorAssignment
      → Document
  store_behind locator document w s a =
      put_record locator.workspace_id (redirecting w s locator (delivered a w.graph_version))
        document

  get_assignment-behind :
      (locator : AssignmentLocator) (document : Document) (w : LiveWorkspaceRecord)
      (s : WorkspaceSupervisor) (a : SupervisorAssignment)
      → IsInterruptedAt locator document w s a
      → get_assignment locator (store_behind locator document w s a)
        ≡ some (behind_delivery locator w s a)
  unfolding get_assignment
  get_assignment-behind locator document w s a h =
      let (found, there, located, interrupted, provider) = h in
      let v = redirecting w s locator (delivered a w.graph_version) in
      let read =
        put_get_record locator.workspace_id w v document found
          (get_record-id locator.workspace_id w document found) in
      ground (arith, read, located_in-redirecting unicode locator document w s a h)

  -- An assignment whose redirect was delivered at the current version is allowed.
  settle-behind :
      (binding : ClaudeCodeSessionBinding) (locator : AssignmentLocator) (w : LiveWorkspaceRecord)
      (s : WorkspaceSupervisor) (a : SupervisorAssignment) (acknowledged : Bool)
      → settle binding (behind_delivery locator w s a) acknowledged
        ≡ ok (allow_current binding (behind_delivery locator w s a))
  unfolding settle snapshot_of
  settle-behind binding locator w s a acknowledged = ground (arith, eq_refl w.graph_version)

  check-behind :
      (request : ClaudePreToolUseRequest) (owner_id : String) (binding : ClaudeCodeSessionBinding)
      (windows : Window × Window × Window) (world : World) (locator : AssignmentLocator)
      (w : LiveWorkspaceRecord) (s : WorkspaceSupervisor) (a : SupervisorAssignment)
      → IsBoundTo world request.session_id owner_id binding locator
      → IsInterruptedAt locator world.document w s a
      → let after = store_behind locator world.document w s a in
        check unicode stable_hash request owner_id windows (record world { document = after })
        ≡ (ok (allow_current binding (behind_delivery locator w s a)), after)
  unfolding check_assignment snapshot_of
  check-behind request owner_id binding windows world locator w s a bound h =
      let after = store_behind locator world.document w s a in
      check_bound request owner_id binding locator windows (record world { document = after }) bound
      ∙ ground (
        arith,
        get_assignment-behind locator world.document w s a h,
        settle-behind binding locator w s a (
            is_acknowledged request.session_id
              (interrupt_key stable_hash (behind_delivery locator w s a)) world.registry),
      )

  check-unconfirmed :
      (request : ClaudePreToolUseRequest) (owner_id instruction : String)
      (binding : ClaudeCodeSessionBinding) (windows : Window × Window × Window) (world : World)
      (locator : AssignmentLocator) (w : LiveWorkspaceRecord) (s : WorkspaceSupervisor)
      (a : SupervisorAssignment)
      → IsBoundTo world request.session_id owner_id binding locator
      → IsInterruptedAt locator world.document w s a
      → clean_optional a.redirect_instruction ≡ some instruction
      → is_confirmed request.acknowledged_redirect_id
          (interrupt_key stable_hash (snapshot_of w locator a))
        ≡ false
      → check unicode stable_hash request owner_id windows world ≡ (
        validated (
            deny_assignment binding
              (snapshot_of w locator a)
              HookDenialMode.until_acknowledged
              (some instruction)
              (some (interrupt_key stable_hash (snapshot_of w locator a)))),
        world.document,
      )
  unfolding check_assignment check_interrupted snapshot_of
  check-unconfirmed request owner_id instruction binding windows world locator w s a bound h says
        unconfirmed =
      check_bound request owner_id binding locator windows world bound
      ∙ ground (arith, get_assignment-at locator world.document w s a h, h.3, says, unconfirmed)

  check-confirmed :
      (request : ClaudePreToolUseRequest) (owner_id instruction : String)
      (binding : ClaudeCodeSessionBinding) (world : World) (locator : AssignmentLocator)
      (w : LiveWorkspaceRecord) (s : WorkspaceSupervisor) (a : SupervisorAssignment)
      → IsBoundTo world request.session_id owner_id binding locator
      → IsInterruptedAt locator world.document w s a
      → clean_optional a.redirect_instruction ≡ some instruction
      → is_confirmed request.acknowledged_redirect_id
          (interrupt_key stable_hash (snapshot_of w locator a))
        ≡ true
      → check unicode stable_hash request owner_id quiet world ≡ (
        ok (allow_current binding (behind_delivery locator w s a)),
        store_behind locator world.document w s a,
      )
  unfolding check_assignment check_interrupted settle_delivered snapshot_of
  check-confirmed request owner_id instruction binding world locator w s a bound h says confirmed =
      check_bound request owner_id binding locator quiet world bound
      ∙ ground (
        arith,
        get_assignment-at locator world.document w s a h,
        h.3,
        says,
        confirmed,
        mark_redirect_delivered-quiet unicode locator world.document w s a h,
        settle-behind binding locator w s a (
            is_acknowledged request.session_id (interrupt_key stable_hash (snapshot_of w locator a))
              world.registry),
      )

  -- A check allows, and so does a later one on the store that it leaves, which keeps that store.
  abbrev pub GoesOn :
      String
      → World
      → ClaudePreToolUseRequest
      → Window × Window × Window
      → Result ClaudeHookVerdict × Document
      → Type 0
  GoesOn owner_id world later others (answer, after) =
      let (again, kept) =
        check unicode stable_hash later owner_id others (record world { document = after }) in
      (allows answer ≡ true) × (allows again ≡ true) × (kept ≡ after)

  -- A redirect gets through. A session that is bound to an interrupted assignment with an instruction, live and
  -- not run by Codex, is denied while its hook does not confirm the redirect, and nothing is stored; the denial
  -- carries the redirect's id. The next check that echoes this id, with no other writer in between, is
  -- allowed, and so is every later check of the session on the store it leaves, which none of them changes.
  -- The reason of the interrupt, if it has one, must not be blank, nor may its bounded form.
  pub redirect_gets_through :
      (request : ClaudePreToolUseRequest) (owner_id instruction : String)
      (binding : ClaudeCodeSessionBinding) (windows others : Window × Window × Window)
      (world : World) (locator : AssignmentLocator) (w : LiveWorkspaceRecord)
      (s : WorkspaceSupervisor) (a : SupervisorAssignment) (later_id : Option String)
      → IsBoundTo world request.session_id owner_id binding locator
      → IsInterruptedAt locator world.document w s a
      → clean_optional a.redirect_instruction ≡ some instruction
      → is_confirmed request.acknowledged_redirect_id
          (interrupt_key stable_hash (snapshot_of w locator a))
        ≡ false
      → ((deny_assignment binding
            (snapshot_of w locator a)
            HookDenialMode.until_acknowledged
            (some instruction)
            (some (interrupt_key stable_hash (snapshot_of w locator a)))).reason
          == "")
        ≡ false
      → (denial : ClaudeHookVerdict) × (check unicode stable_hash request owner_id windows world
          ≡ (ok denial, world.document))
        × (denial.decision ≡ HookPermissionDecision.deny)
        × (let echo : ClaudePreToolUseRequest = record request {
          acknowledged_redirect_id = denial.redirect_id;
        } in
            GoesOn owner_id world
              (record request { acknowledged_redirect_id = later_id })
              others
              (check unicode stable_hash echo owner_id quiet world))
  unfolding deny_assignment
  redirect_gets_through request owner_id instruction binding windows others world locator w s a
        later_id bound h says unconfirmed speaks =
      let key = interrupt_key stable_hash (snapshot_of w locator a) in
      let denial =
        deny_assignment binding (snapshot_of w locator a) HookDenialMode.until_acknowledged
          (some instruction) (some key) in
      let echo : ClaudePreToolUseRequest = record request { acknowledged_redirect_id = some key } in
      let confirmed =
        check-confirmed echo owner_id instruction binding world locator w s a bound h says
          (eq_refl key) in
      let first : check unicode stable_hash request owner_id windows world
          ≡ (ok denial, world.document) =
        check-unconfirmed request owner_id instruction binding windows world locator w s a bound h
          says unconfirmed
        ∙ ground (arith, speaks) in
      let later : ClaudePreToolUseRequest = record request {
        acknowledged_redirect_id = later_id;
      } in
      let again = check-behind later owner_id binding others world locator w s a bound h in
      (
        denial,
        first,
        refl,
        subst (GoesOn owner_id world later others) (sym confirmed) (
          refl,
          ap (λ (p : Result ClaudeHookVerdict × Document). allows p.0) again,
          ap (λ (p : Result ClaudeHookVerdict × Document). p.1) again,
        ),
      )
