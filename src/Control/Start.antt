-- ===== src/Control/Start.antt =====
-- `create_run`, `start_run`, `resume_run` and the readers of `Runner` (m_agent/_runner.py).
use m_agent.Base.{
  ℕ, String, Bool, false, Option, none, some, List, not, ◌==◌, String_eq, value_or, Result, ok, err,
  if◌then◌else◌,
}
use m_agent.Base.Exec.{◌>>=◌, ◌>>◌, pure, raise, lift, raise_if, modify}
use m_agent.Errors.{Error, definition_not_found, illegal_run_transition, value_error}
use m_agent.Run.Status.{RunStatus_eq, created, running, waiting, is_terminal}
use m_agent.Run.Records.{
  ConversationMessage, RunRecord, StepRecord, StepAttempt, StepCheckpoint, PolicyDecisionRecord,
}
use m_agent.Run.Resolution.{reason_definition_unavailable}
use m_agent.Run.Store.Leases.{RunLease, acquire_lease}
use m_agent.Run.Store.Lifecycle.{create_run as store_create_run}
use m_agent.Run.Store.Steps.{get_steps, get_attempts, get_checkpoints, get_policy_decisions}
use m_agent.Session.Store.{is_blank}
use m_agent.Control.{
  Action, Moment, Schedule, Services, from, awaiting, finally_do, on_error, get_existing_run,
  release_quietly, insert, discard, to_status, move,
}

-- `RunInspection`
pub record RunInspection : Type 0 where
  pub run : RunRecord
  pub steps : List StepRecord
  pub attempts : List StepAttempt
  pub checkpoints : List StepCheckpoint
  pub policy_decisions : List PolicyDecisionRecord

-- `run_id is not None and not run_id.strip()`
abbrev is_blank_id : Option String → Bool
is_blank_id none = false
is_blank_id (some run_id) = is_blank run_id

module _ {D : Type 0} (services : Services D) where
  -- The record that `create_run` persists; `fresh` is the id that is made where none is given.
  unfoldable pub created_record :
      D → String → Option String → List ConversationMessage → String → ℕ → RunRecord
  created_record definition input run_id history fresh now = record {
    run_id = value_or run_id fresh;
    definition_id = services.definition_id definition;
    definition_version = services.version definition;
    input = input;
    history = history;
    status = created;
    snapshot = some (services.frozen_snapshot definition);
    output = none;
    waiting_reason = none;
    waiting_step_id = none;
    error_code = none;
    version = 1;
    lease_owner = none;
    lease_expires_at = none;
    created_at = now;
    updated_at = now;
  }

  unfoldable pub create_run :
      Schedule
      → String
      → String
      → String
      → Option String
      → List ConversationMessage
      → String
      → Action RunRecord
  unfolding created_record awaiting
  create_run m definition_id version input run_id history fresh = do
    raise_if (is_blank_id run_id) value_error
    definition ← lift (services.resolve definition_id version)
    awaiting services.codec (m 0) (
        store_create_run services.codec
          (created_record definition input run_id history fresh (m 0).now))

  -- `_start_with_lease`
  unfoldable pub start_with_lease : Schedule → RunRecord → D → RunLease → Action RunRecord
  unfolding on_error release_quietly move
  start_with_lease m run definition lease = do
    on_error (lift (services.assert_contract run definition))
        (release_quietly services.codec (from 1 m) run.run_id lease.owner)
    gated ← services.enforce_input_policy run definition lease
    if not (gated.status == created) then pure gated else (do
      started ← move services.codec (m 0) run (to_status running lease.owner)
      services.execute_steps started definition lease)

  -- The Run is among the active advancers while the body runs.
  unfoldable pub advancing : {A : Type 0} → String → Action A → Action A
  unfolding insert discard finally_do
  advancing run_id body = do
    modify (λ r. record r { active_advancers = insert run_id r.active_advancers })
    finally_do body
        (modify (λ r. record r { active_advancers = discard run_id r.active_advancers }))

  -- `start_run` while the Run is being advanced.
  unfoldable pub acquire_and_start : Schedule → RunRecord → D → Action RunRecord
  unfolding awaiting start_with_lease
  acquire_and_start m run definition = do
    lease ←
        awaiting services.codec (m 0)
          (acquire_lease run.run_id services.owner services.lease_ttl run.version (m 0).now)
    start_with_lease (from 1 m) run definition lease

  unfoldable pub start_run : Schedule → String → Action RunRecord
  unfolding get_existing_run advancing acquire_and_start
  start_run m run_id = do
    run ← get_existing_run services.codec (m 0) run_id
    raise_if (not (run.status == created)) illegal_run_transition
    definition ← lift (services.resolve run.definition_id run.definition_version)
    lift (services.assert_contract run definition)
    advancing run_id (acquire_and_start (from 1 m) run definition)

  -- `_enter_waiting_definition_unavailable`
  unfoldable pub enter_waiting_definition_unavailable :
      Moment → RunRecord → RunLease → Action RunRecord
  unfolding move
  enter_waiting_definition_unavailable moment run lease =
      move services.codec moment run (record (to_status waiting lease.owner) {
        waiting_reason = some reason_definition_unavailable;
      })

  abbrev pub waits_for_definition : Option String → Bool
  waits_for_definition none = false
  waits_for_definition (some reason) = reason == reason_definition_unavailable

  -- `resume_run` of a Run whose missing definition is there again.
  unfoldable pub acquire_and_leave_waiting : Schedule → RunRecord → Action RunRecord
  unfolding awaiting move
  acquire_and_leave_waiting m run = do
    lease ←
        awaiting services.codec (m 0)
          (acquire_lease run.run_id services.owner services.lease_ttl run.version (m 0).now)
    started ← move services.codec (m 1) run (to_status running lease.owner)
    services.resume_running started lease

  unfoldable pub resume_waiting : Schedule → String → RunRecord → Result Error D → Action RunRecord
  unfolding advancing acquire_and_leave_waiting
  resume_waiting m run_id run (err definition_not_found) = pure run
  resume_waiting m run_id run (err e) = raise e
  resume_waiting m run_id run (ok definition) = do
    lift (services.assert_contract run definition)
    advancing run_id (acquire_and_leave_waiting m run)

  -- Before the lease: a definition that is there must be the one of the snapshot.
  abbrev check_contract : RunRecord → Result Error D → Action (Unit {0})
  check_contract run (err definition_not_found) = pure tt
  check_contract run (err e) = raise e
  check_contract run (ok definition) = lift (services.assert_contract run definition)

  abbrev resume_created : Schedule → RunRecord → RunLease → Result Error D → Action RunRecord
  resume_created m run lease (err definition_not_found) =
      enter_waiting_definition_unavailable (m 0) run lease
  resume_created m run lease (err e) = raise e
  resume_created m run lease (ok definition) = start_with_lease m run definition lease

  -- `resume_run` of a Run that is CREATED or RUNNING.
  unfoldable pub acquire_and_resume : Schedule → RunRecord → Result Error D → Action RunRecord
  unfolding awaiting start_with_lease enter_waiting_definition_unavailable
  acquire_and_resume m run definition = do
    (if run.status == created then pure tt else check_contract run definition)
    lease ←
        awaiting services.codec (m 0)
          (acquire_lease run.run_id services.owner services.lease_ttl run.version (m 0).now)
    if run.status == created
        then resume_created (from 1 m) run lease definition
        else services.resume_running run lease

  unfoldable pub resume_run : Schedule → String → Action RunRecord
  unfolding get_existing_run advancing resume_waiting acquire_and_resume
  resume_run m run_id = do
    run ← get_existing_run services.codec (m 0) run_id
    raise_if (is_terminal run.status) illegal_run_transition
    let definition = services.resolve run.definition_id run.definition_version
    if run.status == waiting
        then if not (waits_for_definition run.waiting_reason)
          then pure run
          else resume_waiting (from 1 m) run_id run definition
        else advancing run_id (acquire_and_resume (from 1 m) run definition)

  -- `get_run`
  unfoldable pub get_run : Moment → String → Action RunRecord
  unfolding get_existing_run
  get_run moment run_id = get_existing_run services.codec moment run_id

  unfoldable pub inspect_run : Schedule → String → Action RunInspection
  unfolding get_run awaiting
  inspect_run m run_id = do
    run ← get_run (m 0) run_id
    steps ← awaiting services.codec (m 1) (λ s. (ok (get_steps run_id s), s))
    attempts ← awaiting services.codec (m 2) (λ s. (get_attempts services.codec run_id s, s))
    checkpoints ← awaiting services.codec (m 3) (λ s. (get_checkpoints services.codec run_id s, s))
    decisions ← awaiting services.codec (m 4) (λ s. (ok (get_policy_decisions run_id s), s))
    pure (record {
      run = run;
      steps = steps;
      attempts = attempts;
      checkpoints = checkpoints;
      policy_decisions = decisions;
    })
