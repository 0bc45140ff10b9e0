-- ===== src/Tool.antt =====
-- A Tool Step of `Runner` (m_agent/_runner.py): a tool call, its outcome, and the frozen rules on
-- which the Runner decides whether a failed call may be made again.
pub mod Attempt
pub mod Pass
pub mod Loop
pub mod Retries
pub mod Passes
pub mod Bounded
pub mod Uncertain
pub mod Held
pub mod Step
use m_agent.Base.{
  ℕ, String, Bool, true, false, Option, none, some, List, [], ◌∷◌, ◌&&◌, not, ◌==◌, ltb, is_some,
  String_eq, if◌then◌else◌,
}
use m_agent.Run.Snapshot.{
  ToolEffect, non_idempotent, ToolDeclaration, RetryPolicy, DefinitionSnapshot,
}
use m_agent.Run.Records.{RunRecord, FailureClassification, transient, uncertain, permanent}
use m_agent.Run.Failure.{AdapterException}

-- `ToolCall`; the arguments are their JSON text.
pub record ToolCall : Type 0 where
  pub call_id : String
  pub tool_name : String
  pub arguments : String

pub data ToolOutcomeStatus : Type 0 where
  success rejected : ToolOutcomeStatus

pub record ToolOutcome : Type 0 where
  pub status : ToolOutcomeStatus
  pub call_id : String
  pub tool_name : String
  pub result : Option String
  pub code : Option String
  pub message : Option String

-- `_validate_payload_shape`
unfoldable pub has_payload_shape : ToolOutcome → Bool
has_payload_shape outcome = elim outcome.status [
  | success ↦ is_some outcome.result && not (is_some outcome.code) && not (is_some outcome.message)
  | rejected ↦ not (is_some outcome.result) && is_some outcome.code && is_some outcome.message
]

-- What a dispatched call comes to. A value that is no ToolOutcome is a TypeError that the Runner
-- itself raises.
pub data Invocation : Type 0 where
  returned : ToolOutcome → Invocation
  raised : AdapterException → Invocation

abbrev sole_effect : List ToolDeclaration → Option ToolEffect
sole_effect [] = none
sole_effect (declaration ∷ []) = some declaration.effect
sole_effect (_ ∷ _ ∷ _) = none

-- The declarations of a tool's name.
abbrev declared : String → List ToolDeclaration → List ToolDeclaration
declared tool_name [] = []
declared tool_name (declaration ∷ declarations) =
    let rest = declared tool_name declarations in
    if declaration.name == tool_name then declaration ∷ rest else rest

-- `_frozen_tool_effect`: the only declaration of the name in the snapshot.
unfoldable pub frozen_tool_effect : Option DefinitionSnapshot → String → Option ToolEffect
frozen_tool_effect none tool_name = none
frozen_tool_effect (some snapshot) tool_name =
    sole_effect (declared tool_name snapshot.tool_declarations)

abbrev pub is_non_idempotent : Option ToolEffect → Bool
is_non_idempotent (some non_idempotent) = true
is_non_idempotent _ = false

abbrev pub is_transient : FailureClassification → Bool
is_transient transient = true
is_transient _ = false

abbrev pub is_uncertain : FailureClassification → Bool
is_uncertain uncertain = true
is_uncertain _ = false

-- `_should_retry`
unfoldable pub should_retry :
    FailureClassification → Option RetryPolicy → ℕ → Option ToolEffect → Bool
should_retry classification none attempt_count effect = false
should_retry classification (some policy) attempt_count effect =
    if not (is_transient classification)
    then false
    else if is_uncertain classification && is_non_idempotent effect
    then false
    else ltb attempt_count policy.max_attempts

-- `_recovery_replay_allowed`
unfoldable pub recovery_replay_allowed : Option RetryPolicy → ℕ → Bool
recovery_replay_allowed none attempt_count = false
recovery_replay_allowed (some policy) attempt_count = ltb attempt_count policy.max_attempts
