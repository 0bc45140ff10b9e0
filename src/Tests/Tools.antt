-- ===== src/Tests/Tools.antt =====
-- A Tool Step at concrete inputs: a call that fails and is made again.
use m_agent.Base.{
  ℕ, zero, suc, ◌+◌, ◌≤◌, ◌<◌, ◌≡◌, ◌⊎◌, refl, true, false, Option, none, some, [], ◌∷◌, is_some,
  arith, ok,
}
use m_agent.Base.Exec.{pure}
use m_agent.Base.Dict.{get, put}
use m_agent.Run.Store.{empty, require_current, check_lease_if}
use m_agent.Run.Store.Leases.{acquire_lease, assert_lease, is_held_by_other}
use m_agent.Run.Store.Lifecycle.{create_run, transition_run}
use m_agent.Run.Store.Steps.{get_attempts, record_step, record_attempt, record_checkpoint}
use m_agent.Run.Store.Calls.{perform_all}
use m_agent.Run.Store.Transitions.{advance}
use m_agent.Run.Payload.{snapshot_metadata}
use m_agent.Control.{member, Schedule, to_status}
use m_agent.Run.Records.{RunRecord}
use m_agent.Run.Status.{waiting}
use m_agent.Run.Resolution.{reason_uncertain_non_idempotent}
use m_agent.Run.Snapshot.{RetryPolicy, non_idempotent}
use m_agent.Run.Records.{transient, uncertain}
use m_agent.Run.Failure.{step_failure, classify_exception}
use m_agent.Tool.{
  ToolCall, ToolOutcome, success, Invocation, returned, raised, frozen_tool_effect,
  has_payload_shape, should_retry, is_non_idempotent,
}
use m_agent.Tool.Attempt.{Tools}
use m_agent.Tool.Retries.{IsTransient}
use m_agent.Tool.Loop.{Finished, enough_fuel, run_tool_step, policy_of}
use m_agent.Tool.Step.{run_tool_step_terminates, run_tool_step_calls}
use m_agent.Tool.Held.{run_tool_step_waits}
use m_agent.Tests.Sample.{snapshot_1}
use m_agent.Tests.Control.{services_1, running_1, running_store, lease_1, holding}

-- Nobody else calls, and the clock stands still.
abbrev still_1 : Schedule
still_1 n = record { others = []; now = 31; updated_at = 31 }

abbrev call_1 : ToolCall
call_1 = record { call_id = "call-1"; tool_name = "search"; arguments = "{}" }

abbrev outcome_1 : ToolOutcome
outcome_1 = record {
  status = success;
  call_id = "call-1";
  tool_name = "search";
  result = some "found";
  code = none;
  message = none;
}

-- The first call fails for the moment, the second succeeds.
abbrev answer_1 : ℕ → ToolCall → Invocation
answer_1 zero call = raised (step_failure transient "rate_limited" "try later")
answer_1 (suc n) call = returned outcome_1

abbrev tools_1 : Tools (Unit {0})
tools_1 = record {
  attempt_id = λ n. "attempt";
  has_tool = λ definition name. true;
  answer = answer_1;
  type_name = λ e. "Error";
  unclassified = λ name. name;
  dump_outcome = λ outcome. "outcome";
  request_gate = λ run definition lease call. pure run;
  final_gate = λ run definition lease call step_id attempt_id. pure run;
  outcome_gate = λ run definition lease outcome step_id attempt_id. pure run;
}

step_1_finishes :
    (run_tool_step services_1 tools_1 still_1
      (λ n. still_1)
      running_1
      tt
      lease_1
      call_1
      "step-1"
      false
      false
      (holding running_store ("run-1" ∷ []), 0)).0
    ≡ ok (some (running_1, some outcome_1))
unfolding run_tool_step get_attempts get put perform_all transition_run require_current
    acquire_lease create_run empty check_lease_if enough_fuel advance assert_lease record_step
    record_attempt frozen_tool_effect classify_exception has_payload_shape should_retry
    record_checkpoint is_held_by_other member snapshot_metadata
step_1_finishes = refl

abbrev finished_1 : Finished
finished_1 = some (running_1, some outcome_1)

run_tool_step_terminates_example : is_some finished_1 ≡ true
run_tool_step_terminates_example =
    run_tool_step_terminates services_1 tools_1 still_1 (λ n. still_1) running_1 tt lease_1 call_1
      "step-1" false false (holding running_store ("run-1" ∷ [])) 0 finished_1 step_1_finishes

run_tool_step_calls_example :
    let after =
      (run_tool_step services_1 tools_1 still_1
        (λ n. still_1)
        running_1
        tt
        lease_1
        call_1
        "step-1"
        false
        false
        (holding running_store ("run-1" ∷ []), 0)).1.1 in
    (0 ≤ after)
    × ((after ≤ 1)
        ⊎ ((p : RetryPolicy) × (policy_of running_1.snapshot ≡ some p)
            × (after ≤ 0 + p.max_attempts)))
    × ((i : ℕ) → 0 ≤ i → i < after → IsTransient (answer_1 i call_1) ⊎ (suc i ≡ after))
run_tool_step_calls_example =
    run_tool_step_calls services_1 tools_1 still_1 (λ n. still_1) running_1 tt lease_1 call_1
      "step-1" false false (holding running_store ("run-1" ∷ [])) 0

-- The same tool, declared NON_IDEMPOTENT, fails in a way that leaves its effect open.
abbrev running_2 : RunRecord
running_2 = record running_1 {
  snapshot = some (record snapshot_1 {
    tool_declarations = record { name = "search"; effect = non_idempotent } ∷ [];
  });
}

abbrev tools_2 : Tools (Unit {0})
tools_2 = record tools_1 {
  answer = λ n call. raised (step_failure uncertain "upstream_down" "no answer");
}

abbrev waiting_2 : RunRecord
waiting_2 =
    advance running_1
      (record (to_status waiting "w") {
        waiting_reason = some reason_uncertain_non_idempotent;
        waiting_step_id = some "step-1";
      })
      31

step_2_waits :
    (run_tool_step services_1 tools_2 still_1
      (λ n. still_1)
      running_2
      tt
      lease_1
      call_1
      "step-1"
      false
      false
      (holding running_store ("run-1" ∷ []), 0)).0
    ≡ ok (some (waiting_2, none))
unfolding run_tool_step get_attempts get put perform_all transition_run require_current
    acquire_lease create_run empty check_lease_if enough_fuel advance assert_lease record_step
    record_attempt frozen_tool_effect classify_exception has_payload_shape should_retry
    record_checkpoint is_held_by_other member snapshot_metadata
step_2_waits = refl

step_2_calls :
    0
    < (run_tool_step services_1 tools_2 still_1
        (λ n. still_1)
        running_2
        tt
        lease_1
        call_1
        "step-1"
        false
        false
        (holding running_store ("run-1" ∷ []), 0)).1.1
unfolding run_tool_step get_attempts get put perform_all transition_run require_current
    acquire_lease create_run empty check_lease_if enough_fuel advance assert_lease record_step
    record_attempt frozen_tool_effect classify_exception has_payload_shape should_retry
    record_checkpoint is_held_by_other member snapshot_metadata
step_2_calls = omega arith

non_idempotent_2 : is_non_idempotent (frozen_tool_effect running_2.snapshot "search") ≡ true
unfolding frozen_tool_effect
non_idempotent_2 = refl

run_tool_step_waits_example :
    (◌≡◌ {A = Option ToolOutcome} none none) × (waiting_2.status ≡ waiting)
run_tool_step_waits_example =
    run_tool_step_waits services_1 tools_2 still_1 (λ n. still_1) running_2 tt lease_1 call_1
      "step-1" false false (holding running_store ("run-1" ∷ [])) 0 non_idempotent_2 0 waiting_2
      none (omega arith) step_2_calls refl step_2_waits
