-- ===== src/Tool/Attempt.antt =====
-- One pass of the loop of `_run_tool_step` (m_agent/_runner.py): a Step Attempt from the safe
-- boundary before it to its outcome. The state is that of the Runner with the number of calls of
-- tools that have been dispatched. The policies are an interface.
use m_agent.Base.{ℕ, String, Bool, Option, none, some, not, ◌==◌, String_eq, if◌then◌else◌}
use m_agent.Base.Exec.{Exec, ◌>>=◌, ◌>>◌, pure, modify}
use m_agent.Errors.{Error}
use m_agent.Run.Status.{RunStatus_eq, running, waiting, failed}
use m_agent.Run.Snapshot.{ToolEffect, RetryPolicy}
use m_agent.Run.Records.{
  RunRecord, StepRecord, StepAttempt, StepStatus, tool, running as step_running,
  succeeded as step_succeeded, failed as step_failed,
}
use m_agent.Run.Failure.{AdapterException, Failure}
use m_agent.Run.Resolution.{reason_uncertain_non_idempotent}
use m_agent.Run.Store.Leases.{RunLease, assert_lease, release_lease}
use m_agent.Run.Store.Lifecycle.{transition_run}
use m_agent.Run.Store.Steps.{record_step, record_attempt, record_checkpoint}
use m_agent.Control.{
  RunnerState, Action, Moment, Schedule, Services, from, awaiting, publish, publish_status,
  step_started, attempt_failed, step_completed, discard, to_status,
}
use m_agent.Control.Cancel.{maybe_cancel}
use m_agent.Tool.{ToolCall, ToolOutcome, Invocation}

-- What a Tool Step calls: the tools of a definition `D`, `_enforce_policy` at its three gates, the
-- names of exception types, and the serialization of an outcome. `answer n` is what the n-th call
-- comes to.
pub record Tools (D : Type 0) : Type 0 where
  pub attempt_id : ℕ → String
  pub has_tool : D → String → Bool
  pub answer : ℕ → ToolCall → Invocation
  pub type_name : Error → String
  pub unclassified : String → String
  pub dump_outcome : ToolOutcome → String
  pub request_gate : RunRecord → D → RunLease → ToolCall → Exec Error RunnerState RunRecord
  pub final_gate :
      RunRecord → D → RunLease → ToolCall → String → String → Exec Error RunnerState RunRecord
  pub outcome_gate :
      RunRecord → D → RunLease → ToolOutcome → String → String → Exec Error RunnerState RunRecord

-- What a Tool Step works on: the policy and the effect are those of the snapshot.
pub record ToolStep (D : Type 0) : Type 0 where
  pub services : Services D
  pub tools : Tools D
  pub definition : D
  pub lease : RunLease
  pub call : ToolCall
  pub step_id : String
  pub policy : Option RetryPolicy
  pub effect : Option ToolEffect

-- Before the call: the Run may have stopped.
pub data Ready : Type 0 where
  stopped : RunRecord → Ready
  ready : RunRecord → Ready

-- In the `try`, before the call.
pub data Authorization : Type 0 where
  halt : RunRecord → Authorization
  allow : RunRecord → Authorization
  deny : AdapterException → Authorization

-- What the `try` comes to.
pub data Tried : Type 0 where
  halted : RunRecord → Tried
  came : RunRecord → ToolOutcome → Tried
  threw : RunRecord → AdapterException → Tried

-- The end of a pass: the step is done, or there is another attempt.
pub data Pass : Type 0 where
  done : RunRecord → Option ToolOutcome → Pass
  again : RunRecord → Pass

abbrev pub step_record : String → String → StepStatus → Moment → StepRecord
step_record run_id step_id status moment = record {
  step_id = step_id;
  run_id = run_id;
  step_type = tool;
  status = status;
  error_code = none;
  created_at = moment.now;
}

abbrev pub attempt_record : String → String → String → StepStatus → Moment → StepAttempt
attempt_record run_id step_id attempt_id status moment = record {
  attempt_id = attempt_id;
  step_id = step_id;
  run_id = run_id;
  status = status;
  output = none;
  error = none;
  classification = none;
  error_code = none;
  model_purpose = none;
  usage = none;
  created_at = moment.now;
}

-- `_fail_run` without an error code
unfoldable pub fail_run :
    {D : Type 0} → Services D → Schedule → RunRecord → RunLease → Action RunRecord
unfolding awaiting publish_status
fail_run services m run lease = do
  result ← awaiting services.codec (m 0) (
      transition_run services.codec run.run_id run.version (to_status failed lease.owner) (m 0).now
        (m 0).updated_at)
  awaiting services.codec (m 1) (release_lease run.run_id lease.owner result.version)
  publish_status run.run_id failed
  pure result

module _ {D : Type 0} (w : ToolStep D) where
  abbrev keep_step : Moment → RunRecord → StepStatus → Action StepRecord
  keep_step moment run status = awaiting w.services.codec moment (
      record_step (step_record run.run_id w.step_id status moment) run.version (some w.lease.owner)
        moment.now)

  abbrev keep_attempt : Moment → RunRecord → StepAttempt → Action StepAttempt
  keep_attempt moment run attempt =
      awaiting w.services.codec moment
        (record_attempt w.services.codec attempt run.version (some w.lease.owner) moment.now)

  -- `_record_failed_step`
  unfoldable pub record_failed_step : Moment → RunRecord → Action (Unit {0})
  unfolding awaiting
  record_failed_step moment run = do _ ← keep_step moment run step_failed; pure tt

  -- `_record_failed_attempt`
  unfoldable pub record_failed_attempt : Moment → RunRecord → Failure → String → Action (Unit {0})
  unfolding awaiting publish
  record_failed_attempt moment run failure attempt_id = do
    _ ←
        keep_attempt moment run
          (record (attempt_record run.run_id w.step_id attempt_id step_failed moment) {
            error = some failure.message;
            classification = some failure.classification;
            error_code = some failure.error_code;
          })
    publish (attempt_failed run.run_id w.step_id attempt_id tool)

  -- `_enter_waiting_uncertain`
  unfoldable pub enter_waiting_uncertain : Moment → RunRecord → Action RunRecord
  unfolding awaiting discard publish_status
  enter_waiting_uncertain moment run = do
    result ← awaiting w.services.codec moment (
        transition_run w.services.codec run.run_id run.version
          (record (to_status waiting w.lease.owner) {
            waiting_reason = some reason_uncertain_non_idempotent;
            waiting_step_id = some w.step_id;
          })
          moment.now moment.updated_at)
    modify (λ r. record r { cancel_events = discard run.run_id r.cancel_events })
    publish_status run.run_id waiting
    pure result

  -- `_checkpoint_tool_outcome`
  unfoldable pub checkpoint_tool_outcome :
      Schedule → RunRecord → ToolOutcome → String → Action (Unit {0})
  unfolding awaiting publish
  checkpoint_tool_outcome m run outcome attempt_id = do
    _ ← keep_step (m 0) run step_succeeded
    _ ←
        keep_attempt (m 1) run
          (record (attempt_record run.run_id w.step_id attempt_id step_succeeded (m 1)) {
            output = some (w.tools.dump_outcome outcome);
          })
    _ ← awaiting w.services.codec (m 2) (
        record_checkpoint w.services.codec
          (record {
            run_id = run.run_id;
            step_id = w.step_id;
            attempt_id = attempt_id;
            step_type = tool;
            output = w.tools.dump_outcome outcome;
            created_at = (m 2).now;
          })
          run.version (some w.lease.owner) (m 2).now)
    publish (step_completed run.run_id w.step_id attempt_id tool)

  -- From the safe boundary to the records of the attempt that is about to be dispatched.
  unfoldable pub prepare : Schedule → RunRecord → String → Action Ready
  unfolding maybe_cancel awaiting publish
  prepare m run attempt_id = do
    cancelled ← maybe_cancel w.services (from 0 m) run w.lease
    elim cancelled as (λ _. Action Ready) [
      | some final ↦ pure (stopped final)
      | none ↦ do
        awaiting w.services.codec (m 2)
            (assert_lease run.run_id run.version w.lease.owner (m 2).now)
        gated ← w.tools.request_gate run w.definition w.lease w.call
        if not (gated.status == running) then pure (stopped gated) else (do
          publish (step_started gated.run_id w.step_id attempt_id tool)
          _ ← keep_step (m 3) gated step_running
          _ ←
              keep_attempt (m 4) gated
                (attempt_record gated.run_id w.step_id attempt_id step_running (m 4))
          pure (ready gated))
    ]
