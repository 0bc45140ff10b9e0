-- ===== src/Eval/Baseline.antt =====
-- m_agent/companion/eval/_baseline.py: a report against the frozen revision of a baseline. Of the
-- records of _report.py, the fields that the comparison reads.
mod Records
pub use Records.*
use m_agent.Base.{
  ℕ, String, Bool, true, false, Option, none, some, List, [], ◌∷◌, ◌++◌, ◌&&◌, ◌||◌, not, Eq, ◌==◌,
  ◌==ℕ◌, arith, map, ◌≡◌, ◌↔◌, String_eq, pair_eq, Result, ok, err, if◌then◌else◌,
}
use m_agent.Base.Dict.{Dict, get, put}
use m_agent.Errors.{Error, value_error}
use Prim.Native.Nat.{Ordering}
use Prim.Native.String as Text

abbrev pub Key : Type 0
Key = String × String

-- `outcome in _NON_COMPARABLE`
unfoldable pub is_non_comparable : EvaluatorOutcome → Bool
is_non_comparable pass = false
is_non_comparable fail = false
is_non_comparable unsupported = true
is_non_comparable inconclusive = true
is_non_comparable error = true

-- A gate that was passed and now fails.
abbrev pub worsens : EvaluatorOutcome → EvaluatorOutcome → Bool
worsens before after = before == pass && after == fail

-- `", ".join(regressions)`
abbrev join : List String → String
join [] = ""
join (name ∷ []) = name
join (name ∷ rest) = Text.◌++◌ name (Text.◌++◌ ", " (join rest))

abbrev named : Bool → String → List String
named true name = name ∷ []
named false name = []

-- `_classify`
unfoldable pub classify :
    CaseVariantReport → CaseVariantReport → ComparisonPolicy → ComparisonVerdict × String
classify b c policy =
    let hard = worsens b.hard_outcome c.hard_outcome in
    let quality = policy.quality_regression && worsens b.quality_outcome c.quality_outcome in
    let pass_at_k = policy.pass_at_k_regression && (b.pass_at_k && not c.pass_at_k) in
    let identical =
      b.hard_outcome == c.hard_outcome
      && (b.quality_outcome == c.quality_outcome
          && (b.overall_outcome == c.overall_outcome
              && not (b.pass_at_k && not c.pass_at_k || not b.pass_at_k && c.pass_at_k))) in
    if hard || (quality || pass_at_k)
    then (
      regression,
      Text.◌++◌ "regression: " (
          join
            (named hard "hard gate" ++ (named quality "quality gate" ++ named pass_at_k "pass^k"))),
    )
    else if identical
    then (unchanged, "")
    else (changed, "outcome changed without regression")

abbrev comparison :
    Key
    → ComparisonVerdict
    → Option EvaluatorOutcome
    → Option EvaluatorOutcome
    → String
    → CaseComparison
comparison (case_id, variant_id) verdict before after detail = record {
  case_id = case_id;
  variant_id = variant_id;
  verdict = verdict;
  baseline_overall = before;
  current_overall = after;
  detail = detail;
}

abbrev overall_of : Option CaseVariantReport → Option EvaluatorOutcome
overall_of none = none
overall_of (some c) = some c.overall_outcome

-- The body of the loop of `compare_report_revisions`, for one key.
unfoldable pub compare_case :
    ComparisonPolicy → Key → Option CaseVariantReport → Option CaseVariantReport → CaseComparison
unfolding classify is_non_comparable
compare_case policy key none current =
    comparison key new none (overall_of current) "case variant absent from the baseline report"
compare_case policy key (some b) none =
    comparison key missing (some b.overall_outcome) none
      "case variant absent from the current report"
compare_case policy key (some b) (some c) =
    let (verdict, detail) = classify b c policy in
    if is_non_comparable b.overall_outcome || is_non_comparable c.overall_outcome
    then comparison key inconclusive (some b.overall_outcome) (some c.overall_outcome)
        "insufficient evidence on at least one side; missing data is not proof of no regression"
    else comparison key verdict (some b.overall_outcome) (some c.overall_outcome) detail

-- The dict of the cases of a report: of two with the same key the later one counts.
unfoldable pub cases_of :
    Dict Key CaseVariantReport → List CaseVariantReport → Dict Key CaseVariantReport
cases_of d [] = d
cases_of d (c ∷ cases) = cases_of (put (c.case_id, c.variant_id) c d) cases

-- Pairs of texts in their order.
abbrev before : Key → Key → Bool
before (a, b) (c, d) = elim (Text.compare a c) [
  | Ordering.lt ↦ true
  | Ordering.gt ↦ false
  | Ordering.eq ↦ elim (Text.compare b d) [ Ordering.lt ↦ true | _ ↦ false ]
]

unfoldable pub insert_key : Key → List Key → List Key
insert_key k [] = k ∷ []
insert_key k (j ∷ keys) =
    let rest = insert_key k keys in
    if k == j then j ∷ keys else if before k j then k ∷ j ∷ keys else j ∷ rest

-- `sorted(set(keys))`
unfoldable pub sorted_keys : List Key → List Key
unfolding insert_key
sorted_keys [] = []
sorted_keys (k ∷ keys) = insert_key k (sorted_keys keys)

abbrev pub is_regression : ComparisonVerdict → Bool
is_regression regression = true
is_regression _ = false

abbrev pub is_inconclusive : ComparisonVerdict → Bool
is_inconclusive inconclusive = true
is_inconclusive _ = false

abbrev pub any_verdict : (ComparisonVerdict → Bool) → List CaseComparison → Bool
any_verdict p [] = false
any_verdict p (c ∷ rest) = p c.verdict || any_verdict p rest

unfoldable pub overall : List CaseComparison → ComparisonOverall
overall comparisons =
    if any_verdict is_regression comparisons
    then regression
    else if any_verdict is_inconclusive comparisons
    then inconclusive
    else comparable

unfoldable pub comparisons_of :
    ComparisonPolicy → Dict Key CaseVariantReport → Dict Key CaseVariantReport → List CaseComparison
unfolding compare_case sorted_keys
comparisons_of policy baseline current =
    map (λ key. compare_case policy key (get key baseline) (get key current))
      (sorted_keys (map (λ entry. entry.0) baseline ++ map (λ entry. entry.0) current))

abbrev report :
    EvalBaselineRecord
    → ReportRevisionRecord
    → ComparisonOverall
    → List CaseComparison
    → String
    → BaselineComparison
report baseline current overall' comparisons detail = record {
  baseline_id = baseline.baseline_id;
  baseline_report_id = baseline.report_id;
  baseline_revision = baseline.report_revision;
  current_report_id = current.report_id;
  current_revision = current.revision;
  overall = overall';
  case_comparisons = comparisons;
  detail = detail;
}

unfoldable pub compare_report_revisions :
    ReportRevisionRecord
    → EvalBaselineRecord
    → ReportRevisionRecord
    → Result Error BaselineComparison
unfolding overall comparisons_of cases_of
compare_report_revisions current baseline baseline_report =
    let comparisons =
      comparisons_of baseline.comparison_policy (cases_of [] baseline_report.case_results)
        (cases_of [] current.case_results) in
    if not (baseline_report.report_id == baseline.report_id)
      || not (baseline_report.revision ==ℕ baseline.report_revision)
    then err value_error
    else if not (current.suite_id == baseline_report.suite_id)
    then ok (
        report baseline current inconclusive []
          "suite ids differ; reports are only comparable within the same suite")
    else ok (report baseline current (overall comparisons) comparisons "")
