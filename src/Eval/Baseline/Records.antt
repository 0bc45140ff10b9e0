-- ===== src/Eval/Baseline/Records.antt =====
-- The records of m_agent/companion/eval that a comparison reads and writes.
use m_agent.Base.{
  ℕ, String, Bool, true, Option, List, Eq, ◌==ℕ◌, arith, ◌≡◌, ◌↔◌, String_eq, pair_eq,
}

-- `EvaluatorOutcome` of _evaluator.py
pub data EvaluatorOutcome : Type 0 where
  pass fail unsupported inconclusive error : EvaluatorOutcome

abbrev pub outcome_index : EvaluatorOutcome → ℕ
outcome_index pass = 0
outcome_index fail = 1
outcome_index unsupported = 2
outcome_index inconclusive = 3
outcome_index error = 4

pub outcome_equal_iff :
    (a b : EvaluatorOutcome) → ((outcome_index a ==ℕ outcome_index b) ≡ true) ↔ (a ≡ b)
outcome_equal_iff a b = ground arith

instance abbrev pub EvaluatorOutcome_eq : Eq EvaluatorOutcome
EvaluatorOutcome_eq = record {
  equal = λ a b. outcome_index a ==ℕ outcome_index b;
  equal_iff = outcome_equal_iff;
}

pub record CaseVariantReport : Type 0 where
  pub case_id : String
  pub variant_id : String
  pub hard_outcome : EvaluatorOutcome
  pub quality_outcome : EvaluatorOutcome
  pub overall_outcome : EvaluatorOutcome
  pub pass_at_k : Bool

pub record ReportRevisionRecord : Type 0 where
  pub report_id : String
  pub revision : ℕ
  pub suite_id : String
  pub case_results : List CaseVariantReport

pub record ComparisonPolicy : Type 0 where
  pub policy_id : String
  pub version : String
  pub quality_regression : Bool
  pub pass_at_k_regression : Bool

pub record EvalBaselineRecord : Type 0 where
  pub baseline_id : String
  pub report_id : String
  pub report_revision : ℕ
  pub suite_id : String
  pub suite_version : String
  pub comparison_policy : ComparisonPolicy
  pub created_at : ℕ

pub data ComparisonVerdict : Type 0 where
  unchanged changed new missing inconclusive regression : ComparisonVerdict

pub data ComparisonOverall : Type 0 where
  comparable inconclusive regression : ComparisonOverall

pub record CaseComparison : Type 0 where
  pub case_id : String
  pub variant_id : String
  pub verdict : ComparisonVerdict
  pub baseline_overall : Option EvaluatorOutcome
  pub current_overall : Option EvaluatorOutcome
  pub detail : String

pub record BaselineComparison : Type 0 where
  pub baseline_id : String
  pub baseline_report_id : String
  pub baseline_revision : ℕ
  pub current_report_id : String
  pub current_revision : ℕ
  pub overall : ComparisonOverall
  pub case_comparisons : List CaseComparison
  pub detail : String
