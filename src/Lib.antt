-- ===== src/Lib.antt =====
-- writ.ai keeps a graph of a company's decisions, tickets and tasks, and authorizes the plans of coding
-- agents against it. The parts of backend/writai that decide something are modelled here:
--
--   Domain, Domain/Value   domain.py: the artifacts, plans, grants and reports, and the JSON values that
--                          attributes hold.
--   Graph/*                graph/memory.py: `MemoryGraphStore` with its transaction, and the walk of
--                          `downstream_subgraph`.
--   Provenance/*           provenance.py: the order of edges, and the primary path of a report.
--   Authority/*            authority/engine.py: `IntentAuthority`. Mutation is `apply_decision_change`,
--                          Propagation is `_mark_artifact` and `_propagate_invalidation`, Requirements is
--                          `current_requirements`, Findings and Evaluation are `evaluate_plan`,
--                          Verification is `verify_grant`.
--   Grants/*               grants.py: `GrantSigner`.
--   Loop/*                 loop/workflow.py: `AgentLoopController` and the LangGraph nodes.
--   Supervisor/*           workspaces/supervisor.py: assignments, and the actions they are given.
--   Interrupts/*           workspaces/live_interrupt.py: `LiveClaudeCodeInterruptPort`, with the request of
--                          supervisor_contract.py and the transitions of
--                          workspaces/runtimes/claude_code.py.
--   InterruptPort/*        workspaces/interrupt_port.py: `WorkspaceSupervisorInterruptPort`.
--   Workspaces/*           workspaces/repository.py: the JSON store of workspace records, its contract as a
--                          finite map (Refines, Listed), and Sqlite, the store over a table.
--   Sessions/*             workspaces/session_binding.py: the registry of Claude Code sessions, and Markers and
--                          Resolve, which find the assignment of a session.
--   Enforcement/*          workspaces/session_enforcement.py: Gateway is
--                          `RepositorySupervisorAssignmentGateway`, Views is `registered_sessions`, the parent
--                          is `ClaudeCodeSessionEnforcement`.
--   Gate/*                 intake/gate.py: `DeterministicIntakeGate`.
--   Deliveries/*           intake/replay.py: the replay stores of Slack and CrustData deliveries.
--   Approval/*             intake/approval.py: `ApprovalCoordinator`, Identity is
--                          `InMemoryApprovalIdentityRegistry`, Pending is `pending_from_workspace`.
--   Examples/*             concrete graphs, plans and grants.
--   Prelude, Exec, Dict, Worklist   shared helpers: tests, lists, sets, sorting and texts; methods that
--                          may raise; dictionaries; and breadth-first search over text ids.
--
-- A decision change enters at `apply_decision_change`. In one transaction it adds the decision and its
-- SUPERSEDES edge, counts the version up and marks what the change invalidates. `evaluate_plan` compares a
-- plan with the requirements in force and has the signer issue a grant that is bound to the run, the task,
-- the plan's hash and the version; `verify_grant` checks such a grant and evaluates the plan again. The
-- agent's loop calls `evaluate_plan` and keeps the token. The supervisor distributes a plan's actions over
-- tasks. A delivery from outside is reserved before it is handled, the intake gate decides which extracted
-- decisions reach a human, and the approval coordinator hands an approved one to the workspace, where the
-- interrupt port stops the assignments that it affects. The workspaces are kept in a store. A coding session
-- is bound to an assignment when it starts, and before each of its tools runs the enforcement looks that
-- assignment up: an interrupted one is denied, until its redirect is confirmed or the interrupt acknowledged.
--
-- How the model stands to the code:
--   - A method that changes an object and may raise is an `Exec`: it returns the object as it is left
--     beside the result or the exception (`Exec.Error`, by what it reports). Texts of reasons are kept as
--     the case that chose them.
--   - The graph store copies what it stores and returns, so values are never shared; the artifacts that
--     the propagation changes in place are the dictionary `Trace.artifacts`.
--   - A set of texts is a list that is read through `contains`; where the code goes through a set
--     without sorting it, the order is the list's. A dictionary is an association list.
--   - An instant is a number of microseconds since `datetime.min` in UTC; times without a zone do not
--     occur. A float is a whole number of units of 2^-1074, infinite or not a number. JSON numbers are
--     finite. Attributes hold JSON values only.
--   - `Platform` is what the engine uses of the signer and of hashing: `issue`, `decode`, `stable_hash` and
--     `casefold`. `Grants.signed_platform` fills the first two from `GrantSigner`. `Codec` is the standard
--     library's base64, HMAC and UTF-8 with pydantic's JSON; its laws are hypotheses (`Padded`,
--     `ReadsBack`). `Unicode` is what the supervisor uses of Python's character data. `ttl_seconds` is not
--     negative. The permission service of the gate is a function that may raise.
--   - A requirement that is no dictionary raises in `evaluate_plan` when the result is built; the model
--     raises a validation error before it compares the plan. The loop's replanning raises a type error.
--   - `walk` and `propagate` run on fuel: the number of stored artifacts, and the number of artifacts in
--     the subgraph. No id enters a queue twice, so both end with an empty queue.
--   - A store of records is the list of its records, and a call that raises writes nothing. The SQLite table
--     is the list of its rows in the order of their rowid; reading and writing a row's JSON are a parameter.
--   - Where an attempt to deliver a redirect reads the workspace and then writes it, other writers may come
--     between: a `Window` is any change of the document that they make. There are three attempts, as in the
--     code, so three windows.
--   - The order of the SQLite list is by the text of the instant, then by row; of the JSON list, by the
--     instant, then by the place in the document. Records of one instant may stand differently in the two.
--   - A marker file is what reading it found: nothing, a file that is refused, or a text.
--
-- Not modelled: the Neo4j store, the HTTP services, notifications, authentication and language models,
-- which are input and output; the files behind the stores; the scenarios and command lines, which are
-- demonstrations; the workspace orchestrator, which strings calls of the services together, and the other
-- fields of a workspace in workspaces/models.py; intake/decisions.py; and the canonical form that hashing.py
-- hashes, where `stable_hash` is a parameter.
pub mod Prelude
pub mod Exec
pub mod Dict
pub mod Domain
pub mod Worklist
pub mod Graph
pub mod Provenance
pub mod Authority
pub mod Grants
pub mod Loop
pub mod Supervisor
pub mod Gate
pub mod Deliveries
pub mod Approval
pub mod Interrupts
pub mod Workspaces
pub mod InterruptPort
pub mod Sessions
pub mod Enforcement
pub mod Examples
