-- ===== src/Tests/Reports.antt =====
-- The theorems about resolutions and baselines at concrete inputs.
use m_agent.Base.{String, ◌≡◌, ◌↔◌, ◌⊎◌, refl, true, false, some, [], ◌∷◌, String_eq, pair_eq, ok}
use m_agent.Base.Dict.{get, put}
use m_agent.Run.Records.{RunRecord, permanent}
use m_agent.Run.Failure.{
  contains, safe_error_codes, unsafe_error_code, redacted_failure_message, sanitize_error_code,
  AdapterException, step_failure, other_exception, classify_exception,
}
use m_agent.Run.Redaction.{classify_exception_safe}
use m_agent.Run.Resolution.{
  fail_run, cancel_run, retry_step, confirm_step, continue_run, require_allowed, IsKnown,
  policy_prefix, reason_uncertain_non_idempotent, require_allowed_by_reason,
}
use m_agent.Eval.Baseline.{
  EvaluatorOutcome_eq, pass, CaseVariantReport, ReportRevisionRecord, ComparisonPolicy,
  EvalBaselineRecord, BaselineComparison, ComparisonVerdict, ComparisonOverall, Key,
  is_non_comparable, classify, compare_case, cases_of, insert_key, sorted_keys, overall,
  comparisons_of, compare_report_revisions,
}
use m_agent.Eval.Regression.{HasNoRegression, compare_report_revisions_sound}
use m_agent.Tests.Sample.{run_1}
use text.Mathlib.Text.{starts_with}

abbrev stuck_1 : RunRecord
stuck_1 = record run_1 { waiting_reason = some "DEFINITION_UNAVAILABLE" }

require_allowed_by_reason_example :
    ((require_allowed stuck_1 fail_run ≡ ok tt) ↔ IsKnown "DEFINITION_UNAVAILABLE")
    × ((require_allowed stuck_1 cancel_run ≡ ok tt) ↔ IsKnown "DEFINITION_UNAVAILABLE")
    × ((require_allowed stuck_1 retry_step ≡ ok tt)
        ↔ ("DEFINITION_UNAVAILABLE" ≡ reason_uncertain_non_idempotent))
    × ((require_allowed stuck_1 confirm_step ≡ ok tt)
        ↔ ("DEFINITION_UNAVAILABLE" ≡ reason_uncertain_non_idempotent))
    × (require_allowed stuck_1 continue_run ≡ ok tt
        → starts_with "DEFINITION_UNAVAILABLE" policy_prefix ≡ true)
require_allowed_by_reason_example = require_allowed_by_reason stuck_1 "DEFINITION_UNAVAILABLE" refl

abbrev case_1 : CaseVariantReport
case_1 = record {
  case_id = "greeting";
  variant_id = "plain";
  hard_outcome = pass;
  quality_outcome = pass;
  overall_outcome = pass;
  pass_at_k = true;
}

abbrev report_1 : ReportRevisionRecord
report_1 = record {
  report_id = "report-1";
  revision = 1;
  suite_id = "suite";
  case_results = case_1 ∷ [];
}

abbrev report_2 : ReportRevisionRecord
report_2 = record {
  report_id = "report-2";
  revision = 1;
  suite_id = "suite";
  case_results = case_1 ∷ [];
}

abbrev policy_1 : ComparisonPolicy
policy_1 = record {
  policy_id = "strict";
  version = "1";
  quality_regression = true;
  pass_at_k_regression = true;
}

abbrev baseline_1 : EvalBaselineRecord
baseline_1 = record {
  baseline_id = "baseline";
  report_id = "report-1";
  report_revision = 1;
  suite_id = "suite";
  suite_version = "1";
  comparison_policy = policy_1;
  created_at = 1;
}

abbrev answer_1 : BaselineComparison
answer_1 = record {
  baseline_id = "baseline";
  baseline_report_id = "report-1";
  baseline_revision = 1;
  current_report_id = "report-2";
  current_revision = 1;
  overall = ComparisonOverall.comparable;
  case_comparisons =
      record {
        case_id = "greeting";
        variant_id = "plain";
        verdict = ComparisonVerdict.unchanged;
        baseline_overall = some pass;
        current_overall = some pass;
        detail = "";
      }
      ∷ [];
  detail = "";
}

compared_1 : compare_report_revisions report_2 baseline_1 report_1 ≡ ok answer_1
unfolding compare_report_revisions overall comparisons_of cases_of get put compare_case sorted_keys
    insert_key is_non_comparable classify
compared_1 = refl

compare_report_revisions_sound_example :
    (report_1.report_id ≡ baseline_1.report_id)
    × (report_1.revision ≡ baseline_1.report_revision)
    × (report_2.suite_id ≡ report_1.suite_id)
    × ((k : Key) (b c : CaseVariantReport)
        → get k (cases_of [] report_1.case_results) ≡ some b
        → get k (cases_of [] report_2.case_results) ≡ some c
        → (is_non_comparable b.overall_outcome ≡ false)
          × (is_non_comparable c.overall_outcome ≡ false)
          × HasNoRegression policy_1 b c)
compare_report_revisions_sound_example =
    compare_report_revisions_sound report_2 baseline_1 report_1 answer_1 compared_1 refl

abbrev leak_1 : AdapterException
leak_1 = step_failure permanent "secret=42" "the key is 42"

classify_exception_safe_example :
    let failure = classify_exception (λ name. name) leak_1 in
    ((contains safe_error_codes failure.error_code ≡ true)
      ⊎ (failure.error_code ≡ unsafe_error_code))
    × (sanitize_error_code failure.error_code ≡ failure.error_code)
    × ((failure.message ≡ redacted_failure_message)
        ⊎ ((name : String) × (leak_1 ≡ other_exception name) × (failure.message ≡ name)))
classify_exception_safe_example = classify_exception_safe (λ name. name) leak_1
