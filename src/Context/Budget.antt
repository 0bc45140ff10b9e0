-- ===== src/Context/Budget.antt =====
-- The budget that is made from the limits of a model, and the check of the Runner against it.
use m_agent.Base.{ℕ, ◌+◌, ◌-◌, ◌/◌, ◌≤◌, ◌<◌, ◌≡◌, refl, none, some, arith, min, ok, err}
use m_agent.Errors.{value_error, context_budget_exceeded}
use m_agent.Context.{
  pos, negsuc, ModelLimits, ContextBudget, ContextFrame, FrameSizingResult, make_budget,
  from_model_limits, input_token_limit, check_frame_budget, check_request,
}

-- A budget of the window: some of it is left for the input.
pub record IsBudgetOf (limits : ModelLimits) (budget : ContextBudget) : Type 0 where
  pub whole : budget.total_token_limit ≡ limits.context_window_tokens
  pub room : 1 ≤ input_token_limit budget

module _ (limits : ModelLimits) where
  -- What is kept for the output where nothing else is said.
  abbrev pub kept : ℕ
  kept = min limits.max_output_tokens (limits.context_window_tokens / 2)

  pub record Checks (frame : ContextFrame) (size : ContextFrame → FrameSizingResult) : Type 0 where
    pub fits :
        (size frame).input_tokens + kept ≤ limits.context_window_tokens
        → check_request limits size frame
          ≡ ok (record {
            input_tokens = (size frame).input_tokens;
            reserved_output_tokens = kept;
            total_tokens = (size frame).input_tokens + kept;
          })
    pub exceeds :
        limits.context_window_tokens < (size frame).input_tokens + kept
        → check_request limits size frame ≡ err context_budget_exceeded

-- For the limits of a model with a context window: a reserve that is negative is refused; any
-- other makes a budget with the window as its hard limit and the reserve, where that leaves some
-- of the window for the input, and else all of the window but one; without a reserve, the lesser
-- of the greatest output and half of the window is kept. The Runner's check of a model request
-- lets it pass exactly where its input and what is kept fit the window, whoever measures it, and
-- is else CONTEXT_BUDGET_EXCEEDED.
pub from_model_limits_sound :
    (limits : ModelLimits)
    → 1 ≤ limits.context_window_tokens
    → ((n : ℕ) → from_model_limits limits (some (negsuc n)) ≡ err value_error)
      × ((n : ℕ)
          → (budget : ContextBudget) × (from_model_limits limits (some (pos n)) ≡ ok budget)
            × IsBudgetOf limits budget
            × (budget.reserved_output_tokens ≡ min n (limits.context_window_tokens - 1)))
      × ((budget : ContextBudget) × (from_model_limits limits none ≡ ok budget)
          × IsBudgetOf limits budget
          × (budget.reserved_output_tokens ≡ kept limits))
      × ((frame : ContextFrame) (size : ContextFrame → FrameSizingResult)
          → Checks limits frame size)
unfolding from_model_limits make_budget input_token_limit check_frame_budget check_request
from_model_limits_sound limits positive =
    let window = limits.context_window_tokens in
    (
      λ n. ground arith,
      λ n. (
        record { total_token_limit = window; reserved_output_tokens = min n (window - 1) },
        ground arith,
        record { whole = refl; room = ground arith },
        refl,
      ),
      (
        record { total_token_limit = window; reserved_output_tokens = kept limits },
        ground arith,
        record { whole = refl; room = ground arith },
        refl,
      ),
      λ frame size. record { fits = λ h. ground arith; exceeds = λ h. ground arith },
    )
