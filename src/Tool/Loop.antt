-- ===== src/Tool/Loop.antt =====
-- `_run_tool_step` (m_agent/_runner.py): what a Tool Step finds in the store, and its attempts.
use m_agent.Base.{
  ℕ, zero, suc, String, Bool, true, false, Option, none, some, List, [], ◌∷◌, ◌&&◌, ◌||◌, not, ◌==◌,
  is_some, length, String_eq, if◌then◌else◌,
}
use m_agent.Base.Exec.{Exec, ◌>>=◌, ◌>>◌, pure, lift, on_first}
use m_agent.Errors.{Error}
use m_agent.Run.Snapshot.{ToolEffect, RetryPolicy, DefinitionSnapshot}
use m_agent.Run.Records.{
  RunRecord, StepAttempt, StepStatus, FailureClassification, permanent, failed as step_failed,
}
use m_agent.Run.Store.Leases.{RunLease}
use m_agent.Run.Store.Steps.{get_attempts}
use m_agent.Control.{Action, Schedule, Services, from, awaiting}
use m_agent.Tool.{ToolCall, ToolOutcome, frozen_tool_effect, should_retry, recovery_replay_allowed}
use m_agent.Tool.Attempt.{Tools, ToolStep, done, again, fail_run, record_failed_step}
use m_agent.Tool.Pass.{World, attempt}

-- The Run and the outcome that a step comes to; `none` is for no fuel left.
abbrev pub Finished : Type 0
Finished = Option (RunRecord × Option ToolOutcome)

module _ {D : Type 0} (w : ToolStep D) where
  -- `while True`: the attempts of a step, with the schedule of each by its number.
  unfoldable pub attempts : (ℕ → Schedule) → ℕ → ℕ → RunRecord → Exec Error World Finished
  unfolding attempt
  attempts m zero attempt_count run = pure none
  attempts m (suc fuel) attempt_count run = do
    pass ← attempt w (m (suc attempt_count)) (suc attempt_count) run
    elim pass as (λ _. Exec Error World Finished) [
      | done final outcome ↦ pure (some (final, outcome))
      | again run' ↦ attempts m fuel (suc attempt_count) run'
    ]

  -- `_record_failed_step` and `_fail_run`, before any attempt.
  unfoldable pub give_up : Schedule → RunRecord → Action Finished
  unfolding record_failed_step fail_run
  give_up m run = do
    record_failed_step w (m 0) run
    final ← fail_run w.services (from 1 m) run w.lease
    pure (some (final, none))

-- The attempts of the step.
abbrev pub of_step : String → List StepAttempt → List StepAttempt
of_step step_id [] = []
of_step step_id (x ∷ xs) =
    let rest = of_step step_id xs in if x.step_id == step_id then x ∷ rest else rest

abbrev last_or : StepAttempt → List StepAttempt → StepAttempt
last_or x [] = x
last_or x (y ∷ ys) = last_or y ys

abbrev is_failed : StepStatus → Bool
is_failed step_failed = true
is_failed _ = false

abbrev classified : Option FailureClassification → FailureClassification
classified none = permanent
classified (some classification) = classification

-- The last attempt failed and may not be made again.
abbrev may_not_retry : StepAttempt → Option RetryPolicy → ℕ → Option ToolEffect → Bool
may_not_retry x policy count effect =
    is_failed x.status && not (should_retry (classified x.classification) policy count effect)

-- Whether the attempts that are there end the step at once.
unfoldable pub is_spent :
    Option RetryPolicy → Option ToolEffect → Bool → Bool → List StepAttempt → Bool
unfolding should_retry recovery_replay_allowed
is_spent policy effect recovery_replay explicit_resolution [] = false
is_spent policy effect recovery_replay explicit_resolution (x ∷ xs) =
    let count = length (x ∷ xs) in
    not (is_some effect)
    || (not explicit_resolution
        && (if recovery_replay
            then not (recovery_replay_allowed policy count)
            else may_not_retry (last_or x xs) policy count effect))

-- As many passes as the policy allows attempts, and one.
unfoldable pub enough_fuel : Option RetryPolicy → ℕ
enough_fuel none = 1
enough_fuel (some policy) = suc policy.max_attempts

abbrev pub policy_of : Option DefinitionSnapshot → Option RetryPolicy
policy_of none = none
policy_of (some snapshot) = snapshot.retry_policy

-- `step_id` is the one that is given, or a fresh one.
abbrev pub step_of :
    {D : Type 0} → Services D → Tools D → RunRecord → D → RunLease → ToolCall → String → ToolStep D
step_of services tools run definition lease call step_id = record {
  services = services;
  tools = tools;
  definition = definition;
  lease = lease;
  call = call;
  step_id = step_id;
  policy = policy_of run.snapshot;
  effect = frozen_tool_effect run.snapshot call.tool_name;
}

module _ {D : Type 0} (services : Services D) (tools : Tools D) where
  unfoldable pub run_tool_step :
      Schedule
      → (ℕ → Schedule)
      → RunRecord
      → D
      → RunLease
      → ToolCall
      → String
      → Bool
      → Bool
      → Exec Error World Finished
  unfolding awaiting give_up attempts is_spent
  run_tool_step m n run definition lease call step_id recovery_replay explicit_resolution = do
    on_first (lift (services.assert_contract run definition))
    let w = step_of services tools run definition lease call step_id
    found ←
        on_first
          (awaiting services.codec (m 0) (λ s. (get_attempts services.codec run.run_id s, s)))
    let persisted = of_step step_id found
    if is_spent w.policy w.effect recovery_replay explicit_resolution persisted
        then on_first (give_up w (from 1 m) run)
        else attempts w n (enough_fuel w.policy) (length persisted) run
