-- ===== src/Run/Resolution.antt =====
-- m_agent/_resolution.py: what an application may do with a WAITING Run.
use m_agent.Base.{
  String, ◌≡◌, ◌↔◌, ◌⊎◌, sym, subst, Bool, true, false, Option, none, some, List, [], ◌∷◌, ◌==◌,
  ◌==ℕ◌, ◌||◌, ℕ, arith, String_eq, Result, ok, err, if◌then◌else◌, ==_iff,
}
use m_agent.Errors.{Error, resolution_not_allowed}
use m_agent.Run.Records.{RunRecord}
use text.Mathlib.Text.{starts_with}

pub data ResolutionAction : Type 0 where
  retry_step confirm_step fail_run cancel_run continue_run : ResolutionAction

-- `result` comes with `confirm_step`; `reason` is kept by the application only.
pub record RunResolution : Type 0 where
  pub action : ResolutionAction
  pub result : Option String
  pub reason : Option String
  pub waiting_step_id : Option String

-- `RunResolution.retry_step`, `.confirm_step`, `.fail_run` and `.cancel_run`
abbrev pub retry_step_of : Option String → RunResolution
retry_step_of waiting_step_id = record {
  action = retry_step;
  result = none;
  reason = none;
  waiting_step_id = waiting_step_id;
}

abbrev pub confirm_step_of : String → Option String → RunResolution
confirm_step_of result waiting_step_id = record {
  action = confirm_step;
  result = some result;
  reason = none;
  waiting_step_id = waiting_step_id;
}

abbrev pub fail_run_of : Option String → Option String → RunResolution
fail_run_of reason waiting_step_id = record {
  action = fail_run;
  result = none;
  reason = reason;
  waiting_step_id = waiting_step_id;
}

abbrev pub cancel_run_of : Option String → Option String → RunResolution
cancel_run_of reason waiting_step_id = record {
  action = cancel_run;
  result = none;
  reason = reason;
  waiting_step_id = waiting_step_id;
}

abbrev index : ResolutionAction → ℕ
index retry_step = 0
index confirm_step = 1
index fail_run = 2
index cancel_run = 3
index continue_run = 4

-- `action in actions`
abbrev contains : List ResolutionAction → ResolutionAction → Bool
contains [] action = false
contains (a ∷ rest) action = (index a ==ℕ index action) || contains rest action

-- The reasons of m_agent/_runner.py.
unfoldable pub reason_definition_unavailable : String
reason_definition_unavailable = "DEFINITION_UNAVAILABLE"

unfoldable pub reason_uncertain_non_idempotent : String
reason_uncertain_non_idempotent = "UNCERTAIN_NON_IDEMPOTENT"

-- `REASON_POLICY_RESOLUTION_REQUIRED + ":"`
unfoldable pub policy_prefix : String
policy_prefix = "POLICY_RESOLUTION_REQUIRED:"

unfoldable pub allowed_for_uncertain_non_idempotent : List ResolutionAction
allowed_for_uncertain_non_idempotent = retry_step ∷ confirm_step ∷ fail_run ∷ cancel_run ∷ []

unfoldable pub allowed_for_definition_unavailable : List ResolutionAction
allowed_for_definition_unavailable = fail_run ∷ cancel_run ∷ []

unfoldable pub allowed_for_policy_resolution : List ResolutionAction
allowed_for_policy_resolution = continue_run ∷ fail_run ∷ cancel_run ∷ []

abbrev pub for_reason : Option String → List ResolutionAction
for_reason none = []
for_reason (some reason) =
    if reason == reason_uncertain_non_idempotent
    then allowed_for_uncertain_non_idempotent
    else if reason == reason_definition_unavailable
    then allowed_for_definition_unavailable
    else if starts_with reason policy_prefix
    then allowed_for_policy_resolution
    else []

unfoldable pub allowed_resolutions : RunRecord → List ResolutionAction
allowed_resolutions run = for_reason run.waiting_reason

unfoldable pub require_allowed : RunRecord → ResolutionAction → Result Error (Unit {0})
unfolding allowed_resolutions
require_allowed run action =
    if contains (allowed_resolutions run) action then ok tt else err resolution_not_allowed

-- The reason is one that the Runner writes.
abbrev pub IsKnown : String → Type 0
IsKnown reason =
    (reason ≡ reason_uncertain_non_idempotent)
    ⊎ ((reason ≡ reason_definition_unavailable) ⊎ (starts_with reason policy_prefix ≡ true))

abbrev decide : Option String → ResolutionAction → Result Error (Unit {0})
decide reason action =
    if contains (for_reason reason) action then ok tt else err resolution_not_allowed

abbrev AllowedFor : Option String → String → Type 0
AllowedFor w reason =
    ((decide w fail_run ≡ ok tt) ↔ IsKnown reason)
    × ((decide w cancel_run ≡ ok tt) ↔ IsKnown reason)
    × ((decide w retry_step ≡ ok tt) ↔ (reason ≡ reason_uncertain_non_idempotent))
    × ((decide w confirm_step ≡ ok tt) ↔ (reason ≡ reason_uncertain_non_idempotent))
    × (decide w continue_run ≡ ok tt → starts_with reason policy_prefix ≡ true)

for_reason-AllowedFor : (reason : String) → AllowedFor (some reason) reason
unfolding allowed_for_uncertain_non_idempotent allowed_for_definition_unavailable
    allowed_for_policy_resolution
for_reason-AllowedFor reason =
    let uncertain = ==_iff reason reason_uncertain_non_idempotent in
    let unavailable = ==_iff reason reason_definition_unavailable in
    (
      ground (arith, uncertain, unavailable),
      ground (arith, uncertain, unavailable),
      ground (arith, uncertain, unavailable),
      ground (arith, uncertain, unavailable),
      ground (arith, uncertain, unavailable),
    )

-- What may be done with a Run that waits for a reason. Failing and cancelling are allowed exactly
-- where the reason is known; retrying and confirming a step only where its effect is uncertain;
-- going on only where a policy asked.
pub require_allowed_by_reason :
    (run : RunRecord) (reason : String)
    → run.waiting_reason ≡ some reason
    → ((require_allowed run fail_run ≡ ok tt) ↔ IsKnown reason)
      × ((require_allowed run cancel_run ≡ ok tt) ↔ IsKnown reason)
      × ((require_allowed run retry_step ≡ ok tt) ↔ (reason ≡ reason_uncertain_non_idempotent))
      × ((require_allowed run confirm_step ≡ ok tt) ↔ (reason ≡ reason_uncertain_non_idempotent))
      × (require_allowed run continue_run ≡ ok tt → starts_with reason policy_prefix ≡ true)
unfolding require_allowed allowed_resolutions allowed_for_uncertain_non_idempotent
    allowed_for_definition_unavailable allowed_for_policy_resolution
require_allowed_by_reason run reason waits =
    subst (λ w. AllowedFor w reason) (sym waits) (for_reason-AllowedFor reason)
