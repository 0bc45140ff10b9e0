-- ===== src/Run/Snapshot.antt =====
-- The frozen definition view of m_agent/_definition.py, with the parts of m_agent/_model.py,
-- m_agent/_tools.py and m_agent/_policy.py that it holds. The model bindings and capabilities,
-- the output contract, the Context Plan and the Compression Contract are no fields here: no
-- operation of the store reads them.
use m_agent.Base.{ℕ, String, Bool, Option, List}

pub data ModelPurpose : Type 0 where
  primary context_compression output_repair : ModelPurpose

pub data ToolEffect : Type 0 where
  read_only idempotent non_idempotent : ToolEffect

pub record ToolDeclaration : Type 0 where
  pub name : String
  pub effect : ToolEffect

-- `delay` in whole time units; `max_attempts` is validated to be at least 1.
pub record RetryPolicy : Type 0 where
  pub max_attempts : ℕ
  pub delay : ℕ

pub record PolicyIdentity : Type 0 where
  pub policy_id : String
  pub version : String
  pub fingerprint : String

pub record ModelExecutionBudget : Type 0 where
  pub run_max_attempts : ℕ
  pub primary_max_attempts : ℕ
  pub context_compression_max_attempts : ℕ
  pub output_repair_max_attempts : ℕ

unfoldable pub maximum_for : ModelExecutionBudget → ModelPurpose → ℕ
maximum_for b primary = b.primary_max_attempts
maximum_for b context_compression = b.context_compression_max_attempts
maximum_for b output_repair = b.output_repair_max_attempts

pub record DefinitionSnapshot : Type 0 where
  pub definition_id : String
  pub version : String
  pub instructions : String
  pub model_execution_budget : Option ModelExecutionBudget
  pub has_context_provider : Bool
  pub tool_declarations : List ToolDeclaration
  pub retry_policy : Option RetryPolicy
  pub policy_identity : PolicyIdentity
