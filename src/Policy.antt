-- ===== src/Policy.antt =====
-- m_agent/_policy.py: what a policy decides; and `_enforce_policy` of `Runner` (m_agent/_runner.py),
-- which evaluates a gate, keeps the decision as evidence and lets the Run go on or not.
pub mod Gate
use m_agent.Base.{String, Bool, Option, none, some, ◌&&◌, ◌==◌, String_eq, if◌then◌else◌}
use m_agent.Base.Exec.{◌>>=◌, ◌>>◌, pure}
use m_agent.Run.Status.{RunStatus, rejected, failed, waiting}
use m_agent.Run.Snapshot.{PolicyIdentity}
use m_agent.Run.Records.{
  RunRecord, StepType, failed as step_failed, PolicyGate, PolicyAction, allow, reject,
  require_resolution, PolicyDecisionRecord, permanent,
}
use m_agent.Run.Payload.{Serialization}
use m_agent.Run.Resolution.{policy_prefix}
use m_agent.Run.Store.Leases.{RunLease, release_lease}
use m_agent.Run.Store.Lifecycle.{Transition, transition_run}
use m_agent.Run.Store.Steps.{record_step, record_attempt, record_policy_decision}
use Prim.Native.String.{◌++◌}
use m_agent.Control.{
  Action, Moment, Schedule, from, awaiting, publish, publish_status, attempt_failed, to_status,
}

pub record PolicyDecision : Type 0 where
  pub action : PolicyAction
  pub reason_code : String

-- `RunPolicy`: `evaluate` gives no decision where it raises or what it returns is no valid one. Of
-- a request the gate, the Run and the JSON text of the payload.
pub record RunPolicy : Type 0 where
  pub identity : PolicyIdentity
  pub evaluate : PolicyGate → String → String → Option PolicyDecision
  -- `policy_input_summary`, a digest
  pub input_summary : String → String

-- The step that the gate protects, where its call names one: `pending_tool_outcome` is the text
-- of an outcome that is held back.
pub record Protected : Type 0 where
  pub step_id : String
  pub step_type : StepType
  pub attempt_id : String
  pub pending_tool_outcome : Option String

abbrev pub same_policy : PolicyIdentity → PolicyIdentity → Bool
same_policy a b =
    a.policy_id == b.policy_id && a.version == b.version && a.fingerprint == b.fingerprint

abbrev pub frozen_identity : RunRecord → Option PolicyIdentity
frozen_identity run = elim run.snapshot [ none ↦ none | some s ↦ some s.policy_identity ]

abbrev pub identity_or : RunPolicy → Option PolicyIdentity → PolicyIdentity
identity_or policy none = policy.identity
identity_or policy (some identity) = identity

-- The `try`: the frozen identity, which is the policy's, and its decision.
unfoldable pub evaluate :
    RunPolicy → RunRecord → PolicyGate → String → Option (PolicyIdentity × PolicyDecision)
evaluate policy run gate payload = elim (frozen_identity run) [
  | none ↦ none
  | some identity ↦
      if same_policy policy.identity identity
      then (elim (policy.evaluate gate run.run_id payload) [
        | none ↦ none
        | some decision ↦ some (identity, decision)
      ])
      else none
]

module _ (codec : Serialization) (lease : RunLease) where
  -- A transition at which the Runner gives its lease back.
  unfoldable pub leave : Schedule → RunRecord → Transition → Action RunRecord
  unfolding awaiting publish_status
  leave m run t = do
    result ←
        awaiting codec (m 0)
          (transition_run codec run.run_id run.version t (m 0).now (m 0).updated_at)
    awaiting codec (m 1) (release_lease run.run_id lease.owner result.version)
    publish_status run.run_id t.status
    pure result

  -- `_record_failed_attempt` and `_record_failed_step`, where the gate protects a step
  unfoldable pub record_failure :
      Schedule → RunRecord → String → String → Option Protected → Action (Unit {0})
  unfolding awaiting publish
  record_failure m run code message none = pure tt
  record_failure m run code message (some step) = do
    _ ← awaiting codec (m 0) (
        record_attempt codec
          (record {
            attempt_id = step.attempt_id;
            step_id = step.step_id;
            run_id = run.run_id;
            status = step_failed;
            output = none;
            error = some message;
            classification = some permanent;
            error_code = some code;
            model_purpose = none;
            usage = none;
            created_at = (m 0).now;
          })
          run.version (some lease.owner) (m 0).now)
    publish (attempt_failed run.run_id step.step_id step.attempt_id step.step_type)
    _ ← awaiting codec (m 1) (
        record_step
          (record {
            step_id = step.step_id;
            run_id = run.run_id;
            step_type = step.step_type;
            status = step_failed;
            error_code = some code;
            created_at = (m 1).now;
          })
          run.version (some lease.owner) (m 1).now)
    pure tt

  -- `_record_pending_tool_outcome`, where an outcome is held back
  unfoldable pub record_pending : Moment → RunRecord → Option Protected → Action (Unit {0})
  unfolding awaiting
  record_pending moment run none = pure tt
  record_pending moment run (some step) =
      elim step.pending_tool_outcome as (λ _. Action (Unit {0})) [
        | none ↦ pure tt
        | some outcome ↦ do
          _ ← awaiting codec moment (
              record_attempt codec
                (record {
                  attempt_id = step.attempt_id;
                  step_id = step.step_id;
                  run_id = run.run_id;
                  status = step_failed;
                  output = some outcome;
                  error = some "policy outcome awaits explicit continuation";
                  classification = some permanent;
                  error_code = some "POLICY_OUTCOME_PENDING";
                  model_purpose = none;
                  usage = none;
                  created_at = moment.now;
                })
                run.version (some lease.owner) moment.now)
          pure tt
      ]

  -- `waiting_step_id or failed_step_id`: the empty text counts as none.
  abbrev pub step_of : Option Protected → Option String
  step_of none = none
  step_of (some step) = some step.step_id

  abbrev pub protected_step : Option String → Option Protected → Option String
  protected_step (some step_id) step = if step_id == "" then step_of step else some step_id
  protected_step none step = step_of step

  abbrev pub held : PolicyDecision → Option Protected → Option String → Transition
  held decision step waiting_step_id = record (to_status waiting lease.owner) {
    waiting_reason = some (policy_prefix ++ decision.reason_code);
    waiting_step_id = protected_step waiting_step_id step;
  }

  -- To REJECTED, or to FAILED after a fault.
  abbrev pub ended : RunStatus → String → Transition
  ended status code = record (to_status status lease.owner) { error_code = some code }

  -- What follows the decision once it is kept.
  unfoldable pub act_on :
      Schedule → RunRecord → PolicyDecision → Option Protected → Option String → Action RunRecord
  unfolding leave record_failure record_pending
  act_on m run decision step waiting_step_id = elim decision.action as (λ _. Action RunRecord) [
    | allow ↦ pure run
    | require_resolution ↦ do
      record_pending (m 0) run step
      leave (from 1 m) run (held decision step waiting_step_id)
    | reject ↦ do
      record_failure m run decision.reason_code "policy rejected the completed step result" step
      leave (from 2 m) run (ended rejected decision.reason_code)
  ]

  abbrev pub evidence :
      RunPolicy
      → RunRecord
      → PolicyGate
      → String
      → PolicyIdentity
      → PolicyDecision
      → Moment
      → PolicyDecisionRecord
  evidence policy run gate payload identity decision moment = record {
    run_id = run.run_id;
    gate = gate;
    action = decision.action;
    reason_code = decision.reason_code;
    policy_id = identity.policy_id;
    policy_version = identity.version;
    policy_fingerprint = identity.fingerprint;
    input_summary = policy.input_summary payload;
    created_at = moment.now;
  }

  -- The first await of a gate keeps the decision as evidence.
  abbrev pub keep_evidence : Moment → RunRecord → PolicyDecisionRecord → Action PolicyDecisionRecord
  keep_evidence moment run decision =
      awaiting codec moment
        (record_policy_decision decision run.version (some lease.owner) moment.now)

  -- `_enforce_policy`
  unfoldable pub enforce_policy :
      RunPolicy
      → Schedule
      → RunRecord
      → PolicyGate
      → String
      → Option Protected
      → Option String
      → Action RunRecord
  unfolding evaluate act_on leave record_failure awaiting
  enforce_policy policy m run gate payload step waiting_step_id =
      elim (evaluate policy run gate payload) as (λ _. Action RunRecord) [
        | none ↦ do
          _ ← keep_evidence (m 0) run (
              evidence policy run gate payload (identity_or policy (frozen_identity run))
                (record { action = reject; reason_code = "POLICY_ERROR" }) (m 0))
          record_failure (from 1 m) run "POLICY_ERROR" "policy implementation fault" step
          leave (from 3 m) run (ended failed "POLICY_ERROR")
        | some (identity, decision) ↦ do
          _ ← keep_evidence (m 0) run (evidence policy run gate payload identity decision (m 0))
          act_on (from 1 m) run decision step waiting_step_id
      ]
