-- ===== src/Tool/Pass.antt =====
-- One pass of the loop of `_run_tool_step` (m_agent/_runner.py): authorization, the call, what its
-- outcome means, and whether there is another attempt.
use m_agent.Base.{
  ℕ, suc, String, Bool, true, false, Option, none, some, ◌&&◌, not, ◌==◌, is_some, String_eq,
  Result, ok, err, if◌then◌else◌,
}
use m_agent.Base.Exec.{Exec, ◌>>=◌, ◌>>◌, pure, raise, lift, gets, catch, on_first}
use m_agent.Errors.{Error, stale_run_version, lease_not_held}
use m_agent.Run.Status.{RunStatus_eq, running}
use m_agent.Run.Records.{RunRecord, permanent}
use m_agent.Run.Failure.{
  AdapterException, step_failure, other_exception, Failure, classify_exception,
}
use m_agent.Run.Store.Leases.{assert_lease}
use m_agent.Control.{RunnerState, Action, Schedule, from, awaiting, cancel_requested}
use m_agent.Control.Cancel.{maybe_cancel}
use m_agent.Tool.{
  ToolOutcome, Invocation, returned, raised, has_payload_shape, is_non_idempotent, is_uncertain,
  should_retry,
}
use m_agent.Tool.Attempt.{
  ToolStep, Ready, stopped, ready, Authorization, halt, allow, deny, Tried, halted, came, threw,
  Pass, done, again, fail_run, record_failed_step, record_failed_attempt, enter_waiting_uncertain,
  checkpoint_tool_outcome, prepare,
}

-- The state of the Runner, and the number of the calls that have been dispatched.
abbrev pub World : Type 0
World = RunnerState × ℕ

module _ {D : Type 0} (w : ToolStep D) where
  -- What is checked right before the call.
  unfoldable pub authorize : Schedule → RunRecord → String → Action Authorization
  unfolding awaiting maybe_cancel
  authorize m run attempt_id =
      if not (w.tools.has_tool w.definition w.call.tool_name)
      then pure (deny (other_exception "RuntimeError"))
      else if not (is_some w.effect)
      then pure (
          deny (
            step_failure permanent "FROZEN_TOOL_DECLARATION_UNAVAILABLE"
              "frozen snapshot has no unique declaration"))
      else (do
        awaiting w.services.codec (m 0)
            (assert_lease run.run_id run.version w.lease.owner (m 0).now)
        cancelled ← maybe_cancel w.services (from 1 m) run w.lease
        elim cancelled as (λ _. Action Authorization) [
          | some final ↦ pure (halt final)
          | none ↦ do
            lift (w.services.assert_contract run w.definition)
            gated ← w.tools.final_gate run w.definition w.lease w.call w.step_id attempt_id
            if gated.status == running then pure (allow gated) else pure (halt gated)
        ])

  -- `except (LeaseNotHeldError, StaleRunVersionError): raise`; any other error is a failure of the
  -- attempt.
  abbrev pub caught : {A : Type 0} → (AdapterException → A) → Result Error A → Action A
  caught f (ok a) = pure a
  caught f (err lease_not_held) = raise lease_not_held
  caught f (err stale_run_version) = raise stale_run_version
  caught f (err e) = pure (f (other_exception (w.tools.type_name e)))

  unfoldable pub authorized : Schedule → RunRecord → String → Action Authorization
  unfolding authorize
  authorized m run attempt_id = do result ← catch (authorize m run attempt_id); caught deny result

  -- The outcome belongs to the call.
  abbrev pub matches : ToolOutcome → Bool
  matches outcome = outcome.call_id == w.call.call_id && outcome.tool_name == w.call.tool_name

  abbrev pub gated_outcome : RunRecord → ToolOutcome → String → Action Tried
  gated_outcome run outcome attempt_id = do
    gated ← w.tools.outcome_gate run w.definition w.lease outcome w.step_id attempt_id
    if gated.status == running then pure (came gated outcome) else pure (halted gated)

  -- What the call came to is checked, and the policy has its say.
  unfoldable pub judge : RunRecord → String → Invocation → Action Tried
  judge run attempt_id (raised exception) = pure (threw run exception)
  judge run attempt_id (returned outcome) =
      if not (has_payload_shape outcome)
      then pure (threw run (other_exception "ValidationError"))
      else if not (matches outcome)
      then pure (threw run (other_exception "ValueError"))
      else (do result ← catch (gated_outcome run outcome attempt_id); caught (threw run) result)

  -- A failed attempt that is not left uncertain.
  abbrev pub retry_or_fail : Schedule → ℕ → RunRecord → Failure → Option RunRecord → Action Pass
  retry_or_fail m attempt_count run failure (some final) = pure (done final none)
  retry_or_fail m attempt_count run failure none =
      if should_retry failure.classification w.policy attempt_count w.effect
      then pure (again run)
      else (do
        record_failed_step w (m 0) run
        cancelled ← maybe_cancel w.services (from 1 m) run w.lease
        elim cancelled as (λ _. Action Pass) [
          | some final ↦ pure (done final none)
          | none ↦ do final ← fail_run w.services (from 3 m) run w.lease; pure (done final none)
        ])

  -- `if self._cancel_requested(run.run_id)`
  abbrev pub cancel_if_asked : Schedule → RunRecord → Bool → Action (Option RunRecord)
  cancel_if_asked m run false = pure none
  cancel_if_asked m run true = do
    record_failed_step w (m 0) run
    maybe_cancel w.services (from 1 m) run w.lease

  -- `except Exception`
  unfoldable pub fail_attempt : Schedule → ℕ → RunRecord → Failure → String → Action Pass
  unfolding record_failed_attempt record_failed_step enter_waiting_uncertain maybe_cancel
      cancel_requested fail_run
  fail_attempt m attempt_count run failure attempt_id = do
    record_failed_attempt w (m 0) run failure attempt_id
    if is_uncertain failure.classification && is_non_idempotent w.effect
        then (do
          record_failed_step w (m 1) run
          final ← enter_waiting_uncertain w (m 2) run
          pure (done final none))
        else (do
          asked ← gets (cancel_requested run.run_id)
          cancelled ← cancel_if_asked (from 3 m) run asked
          retry_or_fail (from 6 m) attempt_count run failure cancelled)

  unfoldable pub conclude : Schedule → ℕ → String → Tried → Action Pass
  unfolding fail_attempt checkpoint_tool_outcome
  conclude m attempt_count attempt_id (halted run) = pure (done run none)
  conclude m attempt_count attempt_id (came run outcome) = do
    checkpoint_tool_outcome w m run outcome attempt_id
    pure (done run (some outcome))
  conclude m attempt_count attempt_id (threw run exception) =
      fail_attempt m attempt_count run (classify_exception w.tools.unclassified exception)
        attempt_id

  -- `await tool.invoke(request)`
  unfoldable pub invoke : Exec Error World Invocation
  invoke (st, n) = (ok (w.tools.answer n w.call), (st, suc n))

  abbrev pub dispatch : Schedule → ℕ → String → RunRecord → Authorization → Exec Error World Pass
  dispatch m attempt_count attempt_id run (halt final) = pure (done final none)
  dispatch m attempt_count attempt_id run (deny exception) =
      on_first (conclude (from 8 m) attempt_count attempt_id (threw run exception))
  dispatch m attempt_count attempt_id run (allow run') = do
    invocation ← invoke
    tried ← on_first (judge run' attempt_id invocation)
    on_first (conclude (from 8 m) attempt_count attempt_id tried)

  abbrev pub proceed : Schedule → ℕ → String → Ready → Exec Error World Pass
  proceed m attempt_count attempt_id (stopped final) = pure (done final none)
  proceed m attempt_count attempt_id (ready run) = do
    authorization ← on_first (authorized (from 5 m) run attempt_id)
    dispatch m attempt_count attempt_id run authorization

  unfoldable pub attempt : Schedule → ℕ → RunRecord → Exec Error World Pass
  unfolding prepare authorized judge conclude invoke
  attempt m attempt_count run = do
    readied ← on_first (prepare w m run (w.tools.attempt_id attempt_count))
    proceed m attempt_count (w.tools.attempt_id attempt_count) readied
