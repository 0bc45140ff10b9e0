-- ===== src/Run/Store/Calls.antt =====
-- The mutating methods of a RunStore as values, and sequences of calls by any clients. A call that
-- raises is caught by its client, and the next call finds the store as the raise left it.
use m_agent.Base.{ℕ, String, Option, List, [], ◌∷◌, Result, ok, err}
use m_agent.Errors.{Error}
use m_agent.Run.Records.{RunRecord, StepRecord, StepAttempt, StepCheckpoint, PolicyDecisionRecord}
use m_agent.Run.Payload.{Serialization}
use m_agent.Run.Store.{RunStore}
use m_agent.Run.Store.Leases.{acquire_lease, release_lease, assert_lease, prepare_model_dispatch}
use m_agent.Run.Store.Lifecycle.{Transition, create_run, transition_run}
use m_agent.Run.Store.Steps.{
  record_step, record_attempt, reserve_model_attempt, record_checkpoint, record_policy_decision,
}

-- One method with its arguments, in the order of the method's model; the last of a lease method
-- and of a guarded write is the reading of the clock.
pub data Call : Type 0 where
  create : RunRecord → Call
  acquire : String → String → ℕ → ℕ → ℕ → Call
  release : String → String → ℕ → Call
  assert : String → ℕ → String → ℕ → Call
  prepare : String → ℕ → String → Result Error (Unit {0}) → ℕ → Call
  transition : String → ℕ → Transition → ℕ → ℕ → Call
  step : StepRecord → ℕ → Option String → ℕ → Call
  attempt : StepAttempt → ℕ → Option String → ℕ → Call
  reserve : StepRecord → StepAttempt → Option ℕ → Option ℕ → ℕ → String → ℕ → Call
  checkpoint : StepCheckpoint → ℕ → Option String → ℕ → Call
  decide : PolicyDecisionRecord → ℕ → Option String → ℕ → Call

-- The value that a call returns is dropped.
abbrev pub forget : {A : Type 0} → Result Error A × RunStore → Result Error (Unit {0}) × RunStore
forget (ok a, s) = (ok tt, s)
forget (err e, s) = (err e, s)

unfoldable pub perform : Serialization → Call → RunStore → Result Error (Unit {0}) × RunStore
perform p (create run) s = forget (create_run p run s)
perform p (acquire r owner ttl v now) s = forget (acquire_lease r owner ttl v now s)
perform p (release r owner v) s = forget (release_lease r owner v s)
perform p (assert r v owner now) s = forget (assert_lease r v owner now s)
perform p (prepare r v owner guard now) s = forget (prepare_model_dispatch r v owner guard now s)
perform p (transition r v t now updated_at) s = forget (transition_run p r v t now updated_at s)
perform p (step x v owner now) s = forget (record_step x v owner now s)
perform p (attempt a v owner now) s = forget (record_attempt p a v owner now s)
perform p (reserve x a run_max purpose_max v owner now) s =
    forget (reserve_model_attempt p x a run_max purpose_max v owner now s)
perform p (checkpoint c v owner now) s = forget (record_checkpoint p c v owner now s)
perform p (decide d v owner now) s = forget (record_policy_decision d v owner now s)

unfoldable pub perform_all : Serialization → List Call → RunStore → RunStore
unfolding perform
perform_all p [] s = s
perform_all p (call ∷ calls) s = perform_all p calls (perform p call s).1
