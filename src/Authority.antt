-- ===== src/Authority.antt =====
-- backend/writai/authority/engine.py: `IntentAuthority`. The child modules follow its methods.
-- `Mutation` and `Propagation` change the graph; `Requirements`, `Evaluation` and `Verification` read it.
pub mod Propagation
pub mod Mutation
pub mod Requirements
pub mod Findings
pub mod Evaluation
pub mod Verification
use writ_ai.Prelude.{ℕ, String, Bool, true, false, Float, List, [], ◌∷◌, Option, none, some}
use writ_ai.Exec.{Result}
use writ_ai.Dict.{Dict}
use writ_ai.Domain.{AgentPlan, ArtifactKind, InvalidationReport, SignedGrant, GrantPayload, Verdict}
use writ_ai.Graph.{Store}

-- What the engine takes from elsewhere: `GrantSigner` (an interface that its model fills), the hash of
-- a plan, and Unicode case folding. `issue` is given the time and the random identifier that it reads.
pub record Platform : Type 0 where
  pub issue : ℕ → String → String → String → String → String → Result SignedGrant
  pub decode : String → Result GrantPayload
  pub stable_hash : AgentPlan → String
  pub casefold : String → String

pub record IntentAuthority : Type 0 where
  pub graph : Store
  pub authority_threshold : Float
  pub authority_policy : Dict (List String)
  pub last_report : Option InvalidationReport

-- `DEFAULT_AUTHORITY_POLICY`
abbrev default_authority_policy : Dict (List String)
default_authority_policy =
    ("export.authorization", "compliance" ∷ "security" ∷ "product" ∷ [])
    ∷ ("export.generation", "engineering" ∷ "product" ∷ [])
    ∷ []

-- `authority_policy or DEFAULT_AUTHORITY_POLICY`
abbrev policy_or_default : Option (Dict (List String)) → Dict (List String)
policy_or_default none = default_authority_policy
policy_or_default (some []) = default_authority_policy
policy_or_default (some (entry ∷ rest)) = entry ∷ rest

-- `IntentAuthority(…)`
abbrev intent_authority : Store → Float → Option (Dict (List String)) → IntentAuthority
intent_authority graph authority_threshold authority_policy = record {
  graph = graph;
  authority_threshold = authority_threshold;
  authority_policy = policy_or_default authority_policy;
  last_report = none;
}

-- `UPSTREAM_ARTIFACT_KINDS`
abbrev pub is_upstream : ArtifactKind → Bool
is_upstream ArtifactKind.decision = true
is_upstream ArtifactKind.specification = true
is_upstream ArtifactKind.ticket = true
is_upstream ArtifactKind.evidence = true
is_upstream _ = false

-- `STOPPABLE_WORK_KINDS`
abbrev pub is_stoppable : ArtifactKind → Bool
is_stoppable ArtifactKind.task = true
is_stoppable ArtifactKind.agent_plan = true
is_stoppable ArtifactKind.pull_request = true
is_stoppable ArtifactKind.code_change = true
is_stoppable ArtifactKind.agent_run = true
is_stoppable _ = false
