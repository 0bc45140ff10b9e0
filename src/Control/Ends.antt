-- ===== src/Control/Ends.antt =====
-- A cancellation of a CREATED Run and a resolution that ends a WAITING Run, undisturbed.
use m_agent.Base.{
  ℕ, ◌+◌, ◌<◌, String, ◌≡◌, refl, false, Option, none, some, [], ◌∷◌, ◌++◌, arith, String_eq, ok,
}
use m_agent.Run.Status.{
  RunStatus, RunStatus_eq, created, cancelled, is_terminal, allowed_transitions,
  validate_transition,
}
use m_agent.Run.Records.{RunRecord}
use m_agent.Run.Payload.{Serialization, IsLossless}
use m_agent.Run.Store.{RunStore}
use m_agent.Run.Store.Leases.{RunLease, is_held_by_other, acquire_lease, release_lease}
use m_agent.Run.Store.Lifecycle.{get_run, transition_run}
use m_agent.Run.Store.Calls.{perform_all}
use m_agent.Run.Store.Evolution.{with_lease}
use m_agent.Run.Store.Transitions.{advance}
use m_agent.Run.Store.Leased.{Only}
use m_agent.Control.{
  status_changed, RunnerState, Schedule, Services, from, awaiting, finally_do, release_quietly,
  publish_status, member, to_status, is_stale,
}
use m_agent.Control.Calm.{IsCalm, get_existing_run-calm, smooth, released_store}
use m_agent.Control.Cancel.{finish, take_over, cancel_run}

pub release_quietly-calm :
    (p : Serialization) (m : Schedule) (r owner : String) (st : RunnerState) (run : RunRecord)
    → IsCalm m
    → get_run p r st.store ≡ ok (some run)
    → (release_lease r owner run.version st.store).0 ≡ ok tt
    → release_quietly p m r owner st
      ≡ (ok tt, record st { store = (release_lease r owner run.version st.store).1 })
unfolding release_quietly awaiting perform_all
release_quietly-calm p m r owner st run calm seen released =
    ground (arith, calm 0, calm 1, seen, released)

-- The record of a Run that is moved to `status` under a lease acquired at `now`.
abbrev pub ended_from : {D : Type 0} → Services D → RunRecord → ℕ → ℕ → RunStatus → RunRecord
ended_from services run now u status =
    advance (with_lease run (some services.owner) (some (now + services.lease_ttl)))
      (to_status status services.owner) u

-- The state when a Run has been moved to a status, and the update is published.
abbrev pub moved_to : RunnerState → RunStore → String → RunStatus → RunnerState
moved_to st s run_id status = record st {
  store = s;
  updates = st.updates ++ status_changed run_id status ∷ [];
}

module _ {D : Type 0} (services : Services D) (lossless : IsLossless services.codec) (m : Schedule)
    (calm : IsCalm m) (st : RunnerState) (run : RunRecord)
    (seen : get_run services.codec run.run_id st.store ≡ ok (some run)) where
  finish-calm :
      (expected_version : Option ℕ) (lease : RunLease) (s' : RunStore) (run' : RunRecord)
      → is_terminal run.status ≡ false
      → is_stale expected_version run.version ≡ false
      → transition_run services.codec run.run_id run.version
          (to_status cancelled lease.owner)
          (m 1).now
          (m 1).updated_at
          st.store
        ≡ (ok run', s')
      → finish services m lease run.run_id expected_version st
        ≡ (ok run', moved_to st s' run.run_id cancelled)
  unfolding finish awaiting publish_status perform_all
  finish-calm expected_version lease s' run' live current moved = ground (
    arith,
    calm 1,
    get_existing_run-calm services.codec (m 0) (calm 0) run.run_id st run seen,
    moved,
  )

module _ {D : Type 0} (services : Services D) (lossless : IsLossless services.codec) (m : Schedule)
    (calm : IsCalm m) (st : RunnerState) (run : RunRecord)
    (seen : get_run services.codec run.run_id st.store ≡ ok (some run)) where
  take_over-calm :
      (expected_version : Option ℕ)
      → run.status ≡ created
      → is_stale expected_version run.version ≡ false
      → (free : is_held_by_other run.lease_owner run.lease_expires_at services.owner (m 0).now
          ≡ false)
      → (legal : validate_transition run.status cancelled ≡ ok tt)
      → (in_time : (m 2).now < (m 0).now + services.lease_ttl)
      → take_over services m run.run_id run expected_version st ≡ (
        ok (ended_from services run (m 0).now (m 2).updated_at cancelled),
        moved_to st
            (released_store services.codec lossless run.run_id services.owner services.lease_ttl
              (m 0).now
              (m 2).now
              (m 2).updated_at
              cancelled
              st.store
              run
              seen
              free
              legal
              in_time)
            run.run_id
            cancelled,
      )
  unfolding take_over awaiting finally_do perform_all is_terminal advance
  take_over-calm expected_version fresh current free legal in_time =
      let p = services.codec in
      let r = run.run_id in
      let lease : RunLease = record {
        run_id = r;
        owner = services.owner;
        expires_at = (m 0).now + services.lease_ttl;
      } in
      let s1 =
        (acquire_lease r services.owner services.lease_ttl run.version (m 0).now st.store).1 in
      let s2 =
        (transition_run p r run.version (to_status cancelled services.owner) (m 2).now
          (m 2).updated_at s1).1 in
      let steps =
        smooth p lossless r services.owner services.lease_ttl (m 0).now (m 2).now (m 2).updated_at
          cancelled st.store run seen free legal in_time in
      let st1 = record st { store = s1 } in
      let ended = ended_from services run (m 0).now (m 2).updated_at cancelled in
      let finished : finish services (from 1 m) lease r expected_version st1
          ≡ (ok ended, moved_to st1 s2 r cancelled) =
        finish-calm services lossless (from 1 m) (λ n. calm (1 + n)) st1
          (with_lease run (some services.owner) (some ((m 0).now + services.lease_ttl)))
          steps.leased expected_version lease s2 ended (ground arith) current
          (ground (arith, steps.moves)) in
      let closed =
        release_quietly-calm p (from 2 (from 1 m)) r services.owner (moved_to st1 s2 r cancelled)
          ended (λ n. calm (1 + (2 + n))) steps.ended steps.releases in
      ground (arith, calm 0, steps.acquires, finished, closed)

module _ {D : Type 0} (services : Services D) (lossless : IsLossless services.codec) (m : Schedule)
    (calm : IsCalm m) (st : RunnerState) (run : RunRecord)
    (seen : get_run services.codec run.run_id st.store ≡ ok (some run)) where
  created_cancelled : run.status ≡ created → validate_transition run.status cancelled ≡ ok tt
  unfolding validate_transition allowed_transitions
  created_cancelled fresh = ground arith

  -- A CREATED Run that this Runner does not advance and whose lease no other owner holds is
  -- cancelled at once, if no other client intervenes, the version is the one that is expected
  -- where one is, and the lease outlasts the call. The record comes back CANCELLED with the next
  -- version; readers see it from then on, without a lease, and see every other Run as before. One
  -- update is published; the advancers and the events stay.
  pub cancel_run_created :
      (expected_version : Option ℕ)
      → run.status ≡ created
      → member run.run_id st.active_advancers ≡ false
      → is_stale expected_version run.version ≡ false
      → is_held_by_other run.lease_owner run.lease_expires_at services.owner (m 1).now ≡ false
      → (m 3).now < (m 1).now + services.lease_ttl
      → let (result, after) = cancel_run services m run.run_id expected_version st in
        let ended = ended_from services run (m 1).now (m 3).updated_at cancelled in
        (result ≡ ok ended)
        × Only services.codec run.run_id st.store after.store (with_lease ended none none)
        × (after.active_advancers ≡ st.active_advancers)
        × (after.cancel_events ≡ st.cancel_events)
        × (after.updates ≡ st.updates ++ status_changed run.run_id cancelled ∷ [])
  unfolding cancel_run is_terminal
  cancel_run_created expected_version fresh idle current free in_time =
      let legal = created_cancelled fresh in
      let steps =
        smooth services.codec lossless run.run_id services.owner services.lease_ttl (m 1).now
          (m 3).now (m 3).updated_at cancelled st.store run seen free legal in_time in
      let taken =
        take_over-calm services lossless (from 1 m) (λ n. calm (1 + n)) st run seen expected_version
          fresh current free legal in_time in
      let made : cancel_run services m run.run_id expected_version st
          ≡ take_over services (from 1 m) run.run_id run expected_version st =
        ground
          (arith, get_existing_run-calm services.codec (m 0) (calm 0) run.run_id st run seen) in
      rw (made, taken) (refl, steps.released, refl, refl, refl)
