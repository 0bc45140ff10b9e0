-- ===== src/Run/Records.antt =====
-- The records of m_agent/_run.py, _steps.py, _history.py, _policy.py and _model.py (usage).
-- A time is a number of ticks.
use m_agent.Base.{ℕ, String, Option, List}
use m_agent.Run.Status.{RunStatus}
use m_agent.Run.Snapshot.{ModelPurpose, DefinitionSnapshot}

pub data ConversationRole : Type 0 where
  user assistant : ConversationRole

pub record ConversationMessage : Type 0 where
  pub role : ConversationRole
  pub content : String

pub record RunRecord : Type 0 where
  pub run_id : String
  pub definition_id : String
  pub definition_version : String
  pub input : String
  pub history : List ConversationMessage
  pub status : RunStatus
  pub snapshot : Option DefinitionSnapshot
  pub output : Option String
  pub waiting_reason : Option String
  pub waiting_step_id : Option String
  pub error_code : Option String
  pub version : ℕ
  pub lease_owner : Option String
  pub lease_expires_at : Option ℕ
  pub created_at : ℕ
  pub updated_at : ℕ

pub data StepType : Type 0 where
  model context tool : StepType

pub data StepStatus : Type 0 where
  running succeeded failed : StepStatus

pub data FailureClassification : Type 0 where
  transient permanent uncertain : FailureClassification

pub data UsageProvenance : Type 0 where
  provider_reported runtime_sized unavailable : UsageProvenance

pub record ModelUsage : Type 0 where
  pub input_tokens : Option ℕ
  pub output_tokens : Option ℕ
  pub cached_input_tokens : Option ℕ
  pub reasoning_tokens : Option ℕ
  pub input_tokens_provenance : Option UsageProvenance
  pub output_tokens_provenance : Option UsageProvenance
  pub cached_input_tokens_provenance : Option UsageProvenance
  pub reasoning_tokens_provenance : Option UsageProvenance
  pub raw_unit : Option String
  pub normalization_source : Option String
  pub provenance : UsageProvenance

pub record StepRecord : Type 0 where
  pub step_id : String
  pub run_id : String
  pub step_type : StepType
  pub status : StepStatus
  pub error_code : Option String
  pub created_at : ℕ

pub record StepAttempt : Type 0 where
  pub attempt_id : String
  pub step_id : String
  pub run_id : String
  pub status : StepStatus
  pub output : Option String
  pub error : Option String
  pub classification : Option FailureClassification
  pub error_code : Option String
  pub model_purpose : Option ModelPurpose
  pub usage : Option ModelUsage
  pub created_at : ℕ

pub record StepCheckpoint : Type 0 where
  pub run_id : String
  pub step_id : String
  pub attempt_id : String
  pub step_type : StepType
  pub output : String
  pub created_at : ℕ

pub data PolicyGate : Type 0 where
  input context tool_request tool_outcome final_output : PolicyGate

pub data PolicyAction : Type 0 where
  allow reject require_resolution : PolicyAction

pub record PolicyDecisionRecord : Type 0 where
  pub run_id : String
  pub gate : PolicyGate
  pub action : PolicyAction
  pub reason_code : String
  pub policy_id : String
  pub policy_version : String
  pub policy_fingerprint : String
  pub input_summary : String
  pub created_at : ℕ
