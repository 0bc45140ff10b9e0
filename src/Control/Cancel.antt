-- ===== src/Control/Cancel.antt =====
-- `cancel_run` and `_maybe_cancel` of `Runner` (m_agent/_runner.py): cooperative cancellation.
use m_agent.Base.{
  ℕ, String, Option, none, some, ◌==◌, String_eq, value_or, Result, ok, err, if◌then◌else◌,
}
use m_agent.Base.Exec.{◌>>=◌, ◌>>◌, pure, raise, raise_if, gets, modify, catch}
use m_agent.Errors.{Error, illegal_run_transition, stale_run_version, lease_not_held}
use m_agent.Run.Status.{RunStatus_eq, running, waiting, cancelled, is_terminal}
use m_agent.Run.Records.{RunRecord}
use m_agent.Run.Resolution.{cancel_run_of}
use m_agent.Run.Store.Leases.{RunLease, acquire_lease, release_lease}
use m_agent.Run.Store.Lifecycle.{transition_run}
use m_agent.Control.{
  Action, Schedule, Services, from, awaiting, finally_do, get_existing_run, release_quietly,
  publish_status, member, discard, request_cancel, cancel_requested, to_status, is_stale,
}
use m_agent.Control.Resolve.{resolve_run}

module _ {D : Type 0} (services : Services D) where
  -- A request is registered; whoever advances the Run answers it at a safe boundary.
  unfoldable pub ask : Schedule → String → RunRecord → Option ℕ → Action RunRecord
  unfolding request_cancel get_existing_run
  ask m run_id run expected_version = do
    raise_if (is_stale expected_version run.version) stale_run_version
    request_cancel run_id
    get_existing_run services.codec (m 0) run_id

  -- Under the lease: the record is read again, and the Run ends.
  unfoldable pub finish : Schedule → RunLease → String → Option ℕ → Action RunRecord
  unfolding get_existing_run awaiting publish_status
  finish m lease run_id expected_version = do
    run ← get_existing_run services.codec (m 0) run_id
    raise_if (is_terminal run.status) illegal_run_transition
    raise_if (is_stale expected_version run.version) stale_run_version
    result ← awaiting services.codec (m 1) (
        transition_run services.codec run.run_id run.version (to_status cancelled lease.owner)
          (m 1).now (m 1).updated_at)
    publish_status run_id cancelled
    pure result

  abbrev pub with_lease :
      Schedule → String → RunRecord → Option ℕ → Result Error RunLease → Action RunRecord
  with_lease m run_id run expected_version (ok lease) =
      finally_do (finish m lease run_id expected_version)
        (release_quietly services.codec (from 2 m) run_id lease.owner)
  with_lease m run_id run expected_version (err lease_not_held) = ask m run_id run expected_version
  with_lease m run_id run expected_version (err e) = raise e

  -- A Run that nobody advances here and that does not run.
  unfoldable pub take_over : Schedule → String → RunRecord → Option ℕ → Action RunRecord
  unfolding awaiting ask finish finally_do release_quietly
  take_over m run_id run expected_version = do
    lease ← catch (
        awaiting services.codec (m 0)
          (acquire_lease run.run_id services.owner services.lease_ttl run.version (m 0).now))
    with_lease (from 1 m) run_id run expected_version lease

  -- A Run that runs, and that this Runner does not advance, is left alone.
  unfoldable pub refuse : RunRecord → Option ℕ → Action RunRecord
  refuse run expected_version = do
    raise_if (is_stale expected_version run.version) stale_run_version
    raise lease_not_held

  unfoldable pub cancel_run : Schedule → String → Option ℕ → Action RunRecord
  unfolding get_existing_run member ask refuse take_over resolve_run
  cancel_run m run_id expected_version = do
    run ← get_existing_run services.codec (m 0) run_id
    raise_if (is_terminal run.status) illegal_run_transition
    advancing ← gets (λ r. member run_id r.active_advancers)
    if run.status == waiting
        then resolve_run services (from 1 m) run_id (cancel_run_of none none)
            (value_or expected_version run.version)
        else if advancing
        then ask (from 1 m) run_id run expected_version
        else if run.status == running
        then refuse run expected_version
        else take_over (from 1 m) run_id run expected_version

  -- `_maybe_cancel`
  unfoldable pub maybe_cancel : Schedule → RunRecord → RunLease → Action (Option RunRecord)
  unfolding cancel_requested awaiting publish_status
  maybe_cancel m run lease = do
    requested ← gets (cancel_requested run.run_id)
    if requested
        then (do
          result ← awaiting services.codec (m 0) (
              transition_run services.codec run.run_id run.version (to_status cancelled lease.owner)
                (m 0).now (m 0).updated_at)
          awaiting services.codec (m 1) (release_lease run.run_id lease.owner result.version)
          modify (λ r. record r { cancel_events = discard run.run_id r.cancel_events })
          publish_status run.run_id cancelled
          pure (some result))
        else pure none
