-- ===== src/Control/Resolved.antt =====
-- A resolution that ends a WAITING Run, undisturbed.
use m_agent.Base.{
  ℕ, ◌+◌, ◌<◌, String, ◌≡◌, refl, false, Option, none, some, [], ◌∷◌, ◌++◌, arith, String_eq, ok,
}
use m_agent.Run.Status.{RunStatus, RunStatus_eq, waiting, validate_transition, allowed_transitions}
use m_agent.Run.Records.{RunRecord}
use m_agent.Run.Payload.{Serialization, IsLossless}
use m_agent.Run.Resolution.{
  ResolutionAction, RunResolution, retry_step, confirm_step, continue_run, fail_run, cancel_run,
  require_allowed, allowed_resolutions,
}
use m_agent.Run.Store.{RunStore}
use m_agent.Run.Store.Leases.{RunLease, is_held_by_other, acquire_lease, release_lease}
use m_agent.Run.Store.Lifecycle.{get_run, transition_run}
use m_agent.Run.Store.Calls.{perform_all}
use m_agent.Run.Store.Evolution.{with_lease}
use m_agent.Run.Store.Transitions.{advance}
use m_agent.Run.Store.Leased.{Only}
use m_agent.Control.{
  status_changed, RunnerState, Schedule, Services, from, awaiting, on_error, terminate_run,
  publish_status, to_status,
}
use m_agent.Control.Checks.{IsTarget}
use m_agent.Control.Calm.{IsCalm, get_existing_run-calm, smooth}
use m_agent.Control.Ends.{ended_from, moved_to}
use m_agent.Control.Resolve.{lacks_result, check_target, carry_out, resolve_run}
use m_agent.Control.Versions.{final_status, settle-final, require_definition-passes}

check_target-passes :
    (run : RunRecord) (resolution : RunResolution) (st : RunnerState)
    → IsTarget run resolution
    → check_target run resolution st ≡ (ok tt, st)
unfolding check_target
check_target-passes run resolution st target =
    ground (arith, target.waits, target.allowed, target.own_step)

-- What is checked does not depend on the lease.
IsTarget-with_lease :
    (run : RunRecord) (resolution : RunResolution) (owner : Option String) (expires_at : Option ℕ)
    → IsTarget run resolution
    → IsTarget (with_lease run owner expires_at) resolution
unfolding require_allowed allowed_resolutions
IsTarget-with_lease run resolution owner expires_at target = record {
  waits = target.waits;
  allowed = target.allowed;
  own_step = target.own_step;
}

final_status-legal :
    (action : ResolutionAction) (status : RunStatus)
    → final_status action ≡ some status
    → (validate_transition waiting status ≡ ok tt)
      × ((result : Option String) → lacks_result action result ≡ false)
unfolding validate_transition allowed_transitions
final_status-legal fail_run status e = (ground arith, λ result. refl)
final_status-legal cancel_run status e = (ground arith, λ result. refl)
final_status-legal retry_step status e = absurd (ground arith)
final_status-legal confirm_step status e = absurd (ground arith)
final_status-legal continue_run status e = absurd (ground arith)

terminate_run-calm :
    (p : Serialization) (m : Schedule) (run run' : RunRecord) (lease : RunLease)
    (status : RunStatus) (st : RunnerState)
    → IsCalm m
    → let moved =
        transition_run p run.run_id run.version
          (to_status status lease.owner)
          (m 0).now
          (m 0).updated_at
          st.store in
      let released = release_lease run.run_id lease.owner run'.version moved.1 in
      moved.0 ≡ ok run'
      → released.0 ≡ ok tt
      → terminate_run p m run lease status st ≡ (ok run', moved_to st released.1 run.run_id status)
unfolding terminate_run awaiting publish_status perform_all
terminate_run-calm p m run run' lease status st calm moved released =
    ground (arith, calm 0, calm 1, moved, released)

module _ {D : Type 0} (services : Services D) (lossless : IsLossless services.codec)
    (resolution : RunResolution) (status : RunStatus)
    (ends : final_status resolution.action ≡ some status) (m : Schedule) (calm : IsCalm m)
    (st : RunnerState) (run : RunRecord) (target : IsTarget run resolution) where
  carry_out-calm :
      (lease : RunLease) (s' : RunStore) (run' : RunRecord)
      → get_run services.codec run.run_id st.store ≡ ok (some run)
      → terminate_run services.codec (from 1 m) run lease status st
        ≡ (ok run', moved_to st s' run.run_id status)
      → carry_out services m lease run.run_id resolution run.version st
        ≡ (ok run', moved_to st s' run.run_id status)
  unfolding carry_out
  carry_out-calm lease s' run' seen ended = ground (
    arith,
    get_existing_run-calm services.codec (m 0) (calm 0) run.run_id st run seen,
    check_target-passes run resolution st target,
    settle-final services (from 1 m) run lease resolution resolution.action status st ends,
    ended,
  )

module _ {D : Type 0} (services : Services D) (lossless : IsLossless services.codec)
    (resolution : RunResolution) (status : RunStatus)
    (ends : final_status resolution.action ≡ some status) (m : Schedule) (calm : IsCalm m)
    (st : RunnerState) (run : RunRecord) (target : IsTarget run resolution) where
  -- A command that fails or cancels a WAITING Run, that the reason of the Run allows, that names
  -- its version and, where it names a step, the one the Run waits for, is carried out, if no other
  -- owner holds the lease, no other client intervenes and the lease outlasts the call: the record
  -- comes back FAILED or CANCELLED as the command says, with the next version; readers see it
  -- from then on, without a lease, and see every other Run as before. One update is published; the
  -- advancers and the events stay.
  pub resolve_run_ends :
      get_run services.codec run.run_id st.store ≡ ok (some run)
      → is_held_by_other run.lease_owner run.lease_expires_at services.owner (m 1).now ≡ false
      → (m 3).now < (m 1).now + services.lease_ttl
      → let (result, after) = resolve_run services m run.run_id resolution run.version st in
        let ended = ended_from services run (m 1).now (m 3).updated_at status in
        (result ≡ ok ended)
        × Only services.codec run.run_id st.store after.store (with_lease ended none none)
        × (after.active_advancers ≡ st.active_advancers)
        × (after.cancel_events ≡ st.cancel_events)
        × (after.updates ≡ st.updates ++ status_changed run.run_id status ∷ [])
  unfolding resolve_run awaiting on_error perform_all advance
  resolve_run_ends seen free in_time =
      let p = services.codec in
      let r = run.run_id in
      let (legal, complete) = final_status-legal resolution.action status ends in
      let leased = with_lease run (some services.owner) (some ((m 1).now + services.lease_ttl)) in
      let lease : RunLease = record {
        run_id = r;
        owner = services.owner;
        expires_at = (m 1).now + services.lease_ttl;
      } in
      let steps =
        smooth p lossless r services.owner services.lease_ttl (m 1).now (m 3).now (m 3).updated_at
          status st.store run seen free (rw target.waits legal) in_time in
      let s1 =
        (acquire_lease r services.owner services.lease_ttl run.version (m 1).now st.store).1 in
      let ended = ended_from services run (m 1).now (m 3).updated_at status in
      let carried =
        carry_out-calm services lossless resolution status ends (from 2 m) (λ n. calm (2 + n))
          (record st { store = s1 }) leased
          (IsTarget-with_lease run resolution (some services.owner)
            (some ((m 1).now + services.lease_ttl)) target)
          lease _ ended steps.leased
          (terminate_run-calm p (from 1 (from 2 m)) leased ended lease status
            (record st { store = s1 }) (λ n. calm (2 + (1 + n))) steps.moves steps.releases) in
      let made : resolve_run services m r resolution run.version st ≡ (ok ended, _) = ground (
        arith,
        calm 1,
        get_existing_run-calm p (m 0) (calm 0) r st run seen,
        check_target-passes run resolution st target,
        complete resolution.result,
        require_definition-passes services run st resolution.action status ends,
        steps.acquires,
        carried,
      ) in
      rw made (refl, steps.released, refl, refl, refl)
