-- ===== src/Context.antt =====
-- m_agent/_context_plan.py: the Context Plan of a definition, and the hard budget of a model
-- request. Versions of configurations, their free data and provenance are no part of the model.
pub mod Plan
pub mod Budget
use m_agent.Base.{
  ℕ, ◌+◌, ◌-◌, ◌*◌, ◌/◌, String, Bool, true, false, Option, none, some, List, [], ◌∷◌, ◌||◌, not,
  ◌==◌, ◌==ℕ◌, ltb, leb, min, length, map, String_eq, Result, ok, err, if◌then◌else◌,
}
use m_agent.Base.Fallible.{◌>>=◌, ◌>>◌, check}
use m_agent.Errors.{Error, value_error, context_budget_exceeded}
use m_agent.Run.Records.{ConversationMessage}
use m_agent.Tool.{ToolOutcome}
use Prim.Native.String as Text

pub data ContextScope : Type 0 where
  run_input tool_outcome model_step : ContextScope

pub data ContextTransformType : Type 0 where
  provide select trim budget_select : ContextTransformType

pub record ContextStageIdentity : Type 0 where
  pub stage_id : String
  pub scope : ContextScope
  pub transform_type : ContextTransformType

pub record ContextStage : Type 0 where
  pub identity : ContextStageIdentity
  pub input_channels : List String
  pub output_channels : List String

unfoldable pub protected_channels : List String
protected_channels = "instructions" ∷ "run_input" ∷ "history" ∷ "tool_outcomes" ∷ []

-- `x in xs`
unfoldable pub contains : String → List String → Bool
contains x [] = false
contains x (y ∷ ys) = y == x || contains x ys

-- `set(stage.output_channels) & PROTECTED_CHANNELS` is not empty.
unfoldable pub declares_protected : List String → Bool
unfolding contains protected_channels
declares_protected [] = false
declares_protected (channel ∷ channels) =
    contains channel protected_channels || declares_protected channels

-- The first loop of `_validate_stage_uniqueness`, with the ids that have been seen.
unfoldable pub check_unique : List String → List ContextStage → Result Error (Unit {0})
unfolding contains
check_unique seen [] = ok tt
check_unique seen (stage ∷ stages) =
    let rest = check_unique (stage.identity.stage_id ∷ seen) stages in
    if contains stage.identity.stage_id seen then err value_error else rest

-- The second loop.
unfoldable pub check_outputs : List ContextStage → Result Error (Unit {0})
unfolding declares_protected
check_outputs [] = ok tt
check_outputs (stage ∷ stages) =
    let rest = check_outputs stages in
    if declares_protected stage.output_channels then err value_error else rest

unfoldable pub validate_plan : List ContextStage → Result Error (Unit {0})
unfolding check_unique check_outputs
validate_plan stages = check_unique [] stages >> check_outputs stages

abbrev is_scope : ContextScope → ContextScope → Bool
is_scope run_input run_input = true
is_scope tool_outcome tool_outcome = true
is_scope model_step model_step = true
is_scope _ _ = false

unfoldable pub stages_for_scope : List ContextStage → ContextScope → List ContextStage
stages_for_scope [] scope = []
stages_for_scope (stage ∷ stages) scope =
    let rest = stages_for_scope stages scope in
    if is_scope stage.identity.scope scope then stage ∷ rest else rest

-- The partitions of a `ContextFrame` that are measured; of a context item its content, and of a
-- tool the JSON text of its declaration.
pub record ContextFrame : Type 0 where
  pub instructions : String
  pub run_input : String
  pub history : List ConversationMessage
  pub context_items : List String
  pub tool_outcomes : List ToolOutcome
  pub tools : List String

-- `ModelLimits`
pub record ModelLimits : Type 0 where
  pub context_window_tokens : ℕ
  pub max_output_tokens : ℕ

pub record ContextBudget : Type 0 where
  pub total_token_limit : ℕ
  pub reserved_output_tokens : ℕ

-- An integer that an application gives.
pub data ℤ : Type 0 where
  pos : ℕ → ℤ
  negsuc : ℕ → ℤ

-- `min(n, k)` for a `k` that is not negative
abbrev pub at_most : ℤ → ℕ → ℤ
at_most (pos n) k = pos (min n k)
at_most (negsuc n) k = negsuc n

-- `ContextBudget(...)` with its validation
unfoldable pub make_budget : ℕ → ℤ → Result Error ContextBudget
make_budget total (negsuc n) = err value_error
make_budget total (pos reserved) =
    if total ==ℕ 0 || leb total reserved
    then err value_error
    else ok (record { total_token_limit = total; reserved_output_tokens = reserved })

-- Python's subtraction, of a budget that is valid.
unfoldable pub input_token_limit : ContextBudget → ℕ
input_token_limit budget = budget.total_token_limit - budget.reserved_output_tokens

abbrev pub default_reserve : ModelLimits → Option ℤ → ℤ
default_reserve limits (some reserved) = reserved
default_reserve limits none = pos (min limits.max_output_tokens (limits.context_window_tokens / 2))

unfoldable pub from_model_limits : ModelLimits → Option ℤ → Result Error ContextBudget
unfolding make_budget
from_model_limits limits reserved =
    make_budget limits.context_window_tokens
      (at_most (default_reserve limits reserved) (limits.context_window_tokens - 1))

pub record FrameSizingResult : Type 0 where
  pub input_tokens : ℕ
  pub reserved_output_tokens : ℕ
  pub total_tokens : ℕ

unfoldable pub within_budget : FrameSizingResult → Bool
within_budget result = leb result.total_tokens (result.input_tokens + result.reserved_output_tokens)

-- `len(text)`
unfoldable pub text_length : String → ℕ
text_length Text.[] = 0
text_length (Text.◌∷◌ c s) = 1 + text_length s

-- `max(1, len(text) // 4)`, and 0 for no text
unfoldable pub estimate_text : String → ℕ
unfolding text_length
estimate_text text =
    let n = text_length text in if n ==ℕ 0 then 0 else if ltb (n / 4) 1 then 1 else n / 4

unfoldable pub sum : List ℕ → ℕ
sum [] = 0
sum (n ∷ ns) = n + sum ns

-- The result of an outcome; a rejected one has none.
abbrev result_text : ToolOutcome → ℕ
result_text outcome = elim outcome.result [ none ↦ 0 | some text ↦ estimate_text text ]

-- `size_frame` of the sizer in the core
unfoldable pub size_frame : ContextFrame → FrameSizingResult
unfolding estimate_text sum
size_frame frame =
    let overhead =
      length frame.context_items * 4
      + length frame.history * 4
      + length frame.tool_outcomes * 4
      + length frame.tools * 4
      + 10 in
    let input =
      estimate_text frame.instructions
      + estimate_text frame.run_input
      + sum (map (λ x. estimate_text x.content) frame.history)
      + sum (map estimate_text frame.context_items)
      + sum (map result_text frame.tool_outcomes)
      + sum (map estimate_text frame.tools)
      + overhead in
    record { input_tokens = input; reserved_output_tokens = 0; total_tokens = input }

-- `check_frame_budget`, with the sizer as a parameter
unfoldable pub check_frame_budget :
    ContextFrame → ContextBudget → (ContextFrame → FrameSizingResult) → FrameSizingResult
check_frame_budget frame budget size =
    let result = size frame in
    record {
      input_tokens = result.input_tokens;
      reserved_output_tokens = budget.reserved_output_tokens;
      total_tokens = result.input_tokens + budget.reserved_output_tokens;
    }

-- The check of `Runner` right before a model request is dispatched: where it is an error, the Run
-- fails with that code and nothing is dispatched.
unfoldable pub check_request :
    ModelLimits → (ContextFrame → FrameSizingResult) → ContextFrame → Result Error FrameSizingResult
unfolding from_model_limits check_frame_budget
check_request limits size frame = do
  budget ← from_model_limits limits none
  let sizing = check_frame_budget frame budget size
  if ltb budget.total_token_limit sizing.total_tokens
      then err context_budget_exceeded
      else ok sizing
