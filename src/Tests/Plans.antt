-- ===== src/Tests/Plans.antt =====
-- Context Plans and budgets at concrete inputs.
use m_agent.Base.{min, some, err, ℕ, ◌≡◌, ◌↔◌, none, List, [], ◌∷◌, arith, ok}
use m_agent.Context.{
  pos, negsuc, run_input, model_step, provide, trim, ContextStage, ModelLimits, ContextBudget,
  ContextFrame, FrameSizingResult, from_model_limits, validate_plan,
}
use m_agent.Context.Plan.{All, AreDistinct, IsUnprotected, validate_plan_iff}
use m_agent.Context.Budget.{IsBudgetOf, Checks, from_model_limits_sound}
use m_agent.Errors.{value_error}

-- A provider, and a stage that trims what it found.
abbrev stages_1 : List ContextStage
stages_1 =
    record {
      identity = record { stage_id = "find"; scope = run_input; transform_type = provide };
      input_channels = "run_input" ∷ [];
      output_channels = "context_items" ∷ [];
    }
    ∷ record {
      identity = record { stage_id = "trim"; scope = model_step; transform_type = trim };
      input_channels = "context_items" ∷ [];
      output_channels = "context_items" ∷ [];
    }
    ∷ []

validate_plan_iff_example :
    (validate_plan stages_1 ≡ ok tt) ↔ (AreDistinct stages_1 × All IsUnprotected stages_1)
validate_plan_iff_example = validate_plan_iff stages_1

abbrev limits_1 : ModelLimits
limits_1 = record { context_window_tokens = 8000; max_output_tokens = 5000 }

from_model_limits_sound_example :
    ((n : ℕ) → from_model_limits limits_1 (some (negsuc n)) ≡ err value_error)
    × ((n : ℕ)
        → (budget : ContextBudget) × (from_model_limits limits_1 (some (pos n)) ≡ ok budget)
          × IsBudgetOf limits_1 budget
          × (budget.reserved_output_tokens ≡ min n 7999))
    × ((budget : ContextBudget) × (from_model_limits limits_1 none ≡ ok budget)
        × IsBudgetOf limits_1 budget
        × (budget.reserved_output_tokens ≡ 4000))
    × ((frame : ContextFrame) (size : ContextFrame → FrameSizingResult)
        → Checks limits_1 frame size)
from_model_limits_sound_example = from_model_limits_sound limits_1 (omega arith)
