-- ===== src/Control/Resolve.antt =====
-- `resolve_run` of `Runner` (m_agent/_runner.py): the command of an application on a WAITING Run.
use m_agent.Base.{
  ℕ, String, Bool, true, false, Option, none, some, not, ◌==◌, ◌==ℕ◌, String_eq, Result, ok, err,
}
use m_agent.Base.Exec.{◌>>=◌, ◌>>◌, pure, lift, raise_if}
use m_agent.Errors.{
  Error, definition_not_found, illegal_run_transition, stale_run_version, resolution_not_allowed,
}
use m_agent.Run.Status.{RunStatus_eq, waiting, failed, cancelled}
use m_agent.Run.Records.{RunRecord}
use m_agent.Run.Resolution.{
  ResolutionAction, RunResolution, confirm_step, fail_run, cancel_run, require_allowed,
}
use m_agent.Run.Store.Leases.{RunLease, acquire_lease}
use m_agent.Control.{
  Action, Schedule, Services, from, awaiting, on_error, get_existing_run, release_quietly,
  terminate_run,
}

-- `resolution.waiting_step_id is not None and resolution.waiting_step_id != run.waiting_step_id`
abbrev pub targets_other : Option String → Option String → Bool
targets_other none recorded = false
targets_other (some step) none = true
targets_other (some step) (some recorded) = not (step == recorded)

-- `resolution.action is ResolutionAction.CONFIRM_STEP and not resolution.result`
abbrev pub lacks_result : ResolutionAction → Option String → Bool
lacks_result confirm_step none = true
lacks_result confirm_step (some result) = result == ""
lacks_result _ result = false

-- What is checked of the record, before the lease is acquired and after.
unfoldable pub check_target : RunRecord → RunResolution → Action (Unit {0})
unfolding require_allowed
check_target run resolution = do
  raise_if (not (run.status == waiting)) illegal_run_transition
  lift (require_allowed run resolution.action)
  raise_if (targets_other resolution.waiting_step_id run.waiting_step_id) resolution_not_allowed

-- The registry is asked for the exact definition; a missing one refuses the command.
abbrev require_exact : {D : Type 0} → Services D → RunRecord → Result Error D → Action (Unit {0})
require_exact services run (ok definition) = lift (services.assert_contract run definition)
require_exact services run (err definition_not_found) = lift (err resolution_not_allowed)
require_exact services run (err e) = lift (err e)

-- Failing and cancelling need no definition.
unfoldable pub require_definition :
    {D : Type 0} → Services D → RunRecord → ResolutionAction → Action (Unit {0})
require_definition services run fail_run = pure tt
require_definition services run cancel_run = pure tt
require_definition services run _ =
    require_exact services run (services.resolve run.definition_id run.definition_version)

abbrev pub settle :
    {D : Type 0}
    → Services D
    → Schedule
    → RunRecord
    → RunLease
    → RunResolution
    → ResolutionAction
    → Action RunRecord
settle services m run lease resolution fail_run = terminate_run services.codec m run lease failed
settle services m run lease resolution cancel_run =
    terminate_run services.codec m run lease cancelled
settle services m run lease resolution _ = services.go_on run lease resolution

-- Under the lease: the record is read again and checked again.
unfoldable pub carry_out :
    {D : Type 0} → Services D → Schedule → RunLease → String → RunResolution → ℕ → Action RunRecord
unfolding get_existing_run check_target terminate_run
carry_out services m lease run_id resolution expected_version = do
  run ← get_existing_run services.codec (m 0) run_id
  check_target run resolution
  raise_if (not (run.version ==ℕ expected_version)) stale_run_version
  settle services (from 1 m) run lease resolution resolution.action

unfoldable pub resolve_run :
    {D : Type 0} → Services D → Schedule → String → RunResolution → ℕ → Action RunRecord
unfolding get_existing_run check_target require_definition awaiting on_error carry_out
    release_quietly
resolve_run services m run_id resolution expected_version = do
  run ← get_existing_run services.codec (m 0) run_id
  check_target run resolution
  raise_if (lacks_result resolution.action resolution.result) resolution_not_allowed
  raise_if (not (run.version ==ℕ expected_version)) stale_run_version
  require_definition services run resolution.action
  lease ←
      awaiting services.codec (m 1)
        (acquire_lease run.run_id services.owner services.lease_ttl run.version (m 1).now)
  on_error (carry_out services (from 2 m) lease run_id resolution expected_version)
      (release_quietly services.codec (from 5 m) run_id lease.owner)
