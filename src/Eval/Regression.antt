-- ===== src/Eval/Regression.antt =====
-- No regression stays hidden.
use m_agent.Base.{
  ◌≡◌, refl, Bool, true, false, some, List, [], ◌∷◌, ◌++◌, ◌||◌, arith, map, ◌==◌, ==_iff, ==-cases,
  ==ℕ_iff, Bool-cases, inl, inr, subst, String_eq, pair_eq, ok,
}
use m_agent.Base.Dict.{Dict, get}
use m_agent.Eval.Baseline.{
  EvaluatorOutcome_eq, CaseVariantReport, ReportRevisionRecord, ComparisonPolicy,
  EvalBaselineRecord, CaseComparison, BaselineComparison, ComparisonVerdict, ComparisonOverall, Key,
  is_non_comparable, worsens, classify, compare_case, cases_of, insert_key, sorted_keys,
  is_regression, is_inconclusive, any_verdict, overall, comparisons_of, compare_report_revisions,
}

abbrev has_key : Key → List Key → Bool
has_key k [] = false
has_key k (j ∷ keys) = j == k || has_key k keys

has_key-insert_key :
    (k j : Key) (keys : List Key) → has_key k (insert_key j keys) ≡ (j == k || has_key k keys)
unfolding insert_key
has_key-insert_key k j [] = refl
has_key-insert_key k j (i ∷ keys) =
    ground (arith, ==_iff j k, ==_iff i k, ==_iff j i, has_key-insert_key k j keys)

has_key-sorted_keys : (k : Key) (keys : List Key) → has_key k (sorted_keys keys) ≡ has_key k keys
unfolding sorted_keys
has_key-sorted_keys k [] = refl
has_key-sorted_keys k (j ∷ keys) =
    ground (arith, has_key-insert_key k j (sorted_keys keys), has_key-sorted_keys k keys)

has_key-append :
    (k : Key) (xs ys : List Key) → has_key k (xs ++ ys) ≡ (has_key k xs || has_key k ys)
has_key-append k [] ys = refl
has_key-append k (x ∷ xs) ys = ground (arith, has_key-append k xs ys)

has_key-get :
    (k : Key) (d : Dict Key CaseVariantReport) (c : CaseVariantReport)
    → get k d ≡ some c
    → has_key k (map (λ entry. entry.0) d) ≡ true
unfolding get
has_key-get k [] c h = absurd (ground arith)
has_key-get k ((j, x) ∷ d) c h = ground (arith, has_key-get k d c)

any_verdict-map :
    (p : ComparisonVerdict → Bool) (f : Key → CaseComparison) (k : Key) (keys : List Key)
    → has_key k keys ≡ true
    → any_verdict p (map f keys) ≡ false
    → p (f k).verdict ≡ false
any_verdict-map p f k [] there none_ = absurd (ground arith)
any_verdict-map p f k (j ∷ keys) there none_ = elim (==-cases j k) [
  | inl (e, t) ↦ subst (λ i. p (f i).verdict ≡ false) e (ground arith)
  | inr (n, t) ↦ any_verdict-map p f k keys (ground arith) (ground arith)
]

-- No gate of the case has worsened in a way that the policy counts.
abbrev pub HasNoRegression : ComparisonPolicy → CaseVariantReport → CaseVariantReport → Type 0
HasNoRegression policy b c =
    (worsens b.hard_outcome c.hard_outcome ≡ false)
    × (policy.quality_regression ≡ true → worsens b.quality_outcome c.quality_outcome ≡ false)
    × (policy.pass_at_k_regression ≡ true → b.pass_at_k ≡ true → c.pass_at_k ≡ true)

classify-HasNoRegression :
    (policy : ComparisonPolicy) (b c : CaseVariantReport)
    → is_regression (classify b c policy).0 ≡ false
    → HasNoRegression policy b c
unfolding classify
classify-HasNoRegression policy b c r = (
  elim (Bool-cases (worsens b.hard_outcome c.hard_outcome)) [
    | inr fine ↦ fine
    | inl bad ↦ absurd (ground arith)
  ],
  λ counted. elim (Bool-cases (worsens b.quality_outcome c.quality_outcome)) [
    | inr fine ↦ fine
    | inl bad ↦ absurd (ground arith)
  ],
  λ counted held. elim (Bool-cases c.pass_at_k) [
    | inl fine ↦ fine
    | inr bad ↦ absurd (ground arith)
  ],
)

compare_case-HasNoRegression :
    (policy : ComparisonPolicy) (k : Key) (b c : CaseVariantReport)
    → is_regression (compare_case policy k (some b) (some c)).verdict ≡ false
    → is_inconclusive (compare_case policy k (some b) (some c)).verdict ≡ false
    → (is_non_comparable b.overall_outcome ≡ false)
      × (is_non_comparable c.overall_outcome ≡ false)
      × HasNoRegression policy b c
unfolding compare_case
compare_case-HasNoRegression policy k b c r i =
    elim (Bool-cases (is_non_comparable b.overall_outcome || is_non_comparable c.overall_outcome)) [
      | inl unknown ↦ absurd (ground arith)
      | inr known ↦ (ground arith, ground arith, classify-HasNoRegression policy b c (ground arith))
    ]

overall-comparable :
    (comparisons : List CaseComparison)
    → overall comparisons ≡ ComparisonOverall.comparable
    → (any_verdict is_regression comparisons ≡ false)
      × (any_verdict is_inconclusive comparisons ≡ false)
unfolding overall
overall-comparable comparisons h = (ground arith, ground arith)

comparisons_of-HasNoRegression :
    (policy : ComparisonPolicy) (before after : Dict Key CaseVariantReport) (k : Key)
    (b c : CaseVariantReport)
    → get k before ≡ some b
    → get k after ≡ some c
    → any_verdict is_regression (comparisons_of policy before after) ≡ false
    → any_verdict is_inconclusive (comparisons_of policy before after) ≡ false
    → (is_non_comparable b.overall_outcome ≡ false)
      × (is_non_comparable c.overall_outcome ≡ false)
      × HasNoRegression policy b c
unfolding comparisons_of
comparisons_of-HasNoRegression policy before after k b c found found' no_regression no_gap =
    let firsts = map (λ (entry : Key × CaseVariantReport). entry.0) before in
    let seconds = map (λ (entry : Key × CaseVariantReport). entry.0) after in
    let there : has_key k (sorted_keys (firsts ++ seconds)) ≡ true = ground (
      arith,
      has_key-sorted_keys k (firsts ++ seconds),
      has_key-append k firsts seconds,
      has_key-get k before b found,
    ) in
    let case = λ (key : Key). compare_case policy key (get key before) (get key after) in
    compare_case-HasNoRegression policy k b c
      (rw (found, found') at
        (any_verdict-map is_regression case k (sorted_keys (firsts ++ seconds)) there
          no_regression))
      (rw (found, found') at
        (any_verdict-map is_inconclusive case k (sorted_keys (firsts ++ seconds)) there no_gap))

-- A report is found comparable with its baseline only where the reports are of one suite and, for
-- every case variant that both have, both sides have enough evidence and no gate has worsened in a
-- way that the policy counts: the hard gate always, the quality gate and pass^k if it says so.
pub compare_report_revisions_sound :
    (current : ReportRevisionRecord) (baseline : EvalBaselineRecord)
    (baseline_report : ReportRevisionRecord) (answer : BaselineComparison)
    → compare_report_revisions current baseline baseline_report ≡ ok answer
    → answer.overall ≡ ComparisonOverall.comparable
    → (baseline_report.report_id ≡ baseline.report_id)
      × (baseline_report.revision ≡ baseline.report_revision)
      × (current.suite_id ≡ baseline_report.suite_id)
      × ((k : Key) (b c : CaseVariantReport)
          → get k (cases_of [] baseline_report.case_results) ≡ some b
          → get k (cases_of [] current.case_results) ≡ some c
          → (is_non_comparable b.overall_outcome ≡ false)
            × (is_non_comparable c.overall_outcome ≡ false)
            × HasNoRegression baseline.comparison_policy b c)
unfolding compare_report_revisions
compare_report_revisions_sound current baseline baseline_report answer h fine =
    let before = cases_of [] baseline_report.case_results in
    let after = cases_of [] current.case_results in
    let comparisons = comparisons_of baseline.comparison_policy before after in
    let all : overall comparisons ≡ ComparisonOverall.comparable = ground arith in
    let (no_regression, no_gap) = overall-comparable comparisons all in
    (
      ground (arith, ==_iff baseline_report.report_id baseline.report_id),
      ground (arith, ==ℕ_iff baseline_report.revision baseline.report_revision),
      ground (arith, ==_iff current.suite_id baseline_report.suite_id),
      λ k b c found found'.
          comparisons_of-HasNoRegression baseline.comparison_policy before after k b c found found'
            no_regression no_gap,
    )
