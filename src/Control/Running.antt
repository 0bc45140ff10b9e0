-- ===== src/Control/Running.antt =====
-- Cancelling a RUNNING Run, undisturbed: a request to whoever advances it, answered at a boundary.
use m_agent.Base.{
  ℕ, ◌+◌, String, ◌≡◌, refl, true, false, Option, none, some, List, [], ◌∷◌, ◌++◌, arith, ◌==◌,
  String_eq, ok, err, Bool-cases, inl, inr, if◌then◌else◌,
}
use m_agent.Errors.{stale_run_version, lease_not_held}
use m_agent.Run.Status.{
  RunStatus_eq, running, cancelled, is_terminal, terminal_statuses, validate_transition,
  allowed_transitions,
}
use m_agent.Run.Records.{RunRecord}
use m_agent.Run.Payload.{IsLossless}
use m_agent.Run.Store.{holds_lease}
use m_agent.Run.Store.Leases.{RunLease, release_lease}
use m_agent.Run.Store.Lifecycle.{get_run, transition_run}
use m_agent.Run.Store.Calls.{perform_all}
use m_agent.Run.Store.Evolution.{with_lease}
use m_agent.Run.Store.Transitions.{advance, transition_run-advance}
use m_agent.Run.Store.Leased.{Only, Only-trans, release_lease-Only}
use m_agent.Control.{
  status_changed, RunnerState, Schedule, Services, awaiting, publish_status, member, insert,
  discard, request_cancel, cancel_requested, to_status, is_stale,
}
use m_agent.Control.Calm.{IsCalm, get_existing_run-calm}
use m_agent.Control.Cancel.{ask, refuse, cancel_run, maybe_cancel}
use m_agent.Control.Cancelled.{member-insert}

pub member-discard : (x : String) (ys : List String) → member x (discard x ys) ≡ false
unfolding member discard
member-discard x [] = refl
member-discard x (y ∷ ys) = elim (Bool-cases (y == x)) [
  | inl same ↦ ground (arith, member-discard x ys)
  | inr other ↦ ground (arith, member-discard x ys)
]

module _ {D : Type 0} (services : Services D) (m : Schedule) (calm : IsCalm m) (st : RunnerState)
    (run : RunRecord) (seen : get_run services.codec run.run_id st.store ≡ ok (some run)) where
  -- If no other client intervenes, cancelling a RUNNING Run never changes the store: a version
  -- that is not the expected one is refused; where this Runner advances the Run, the request is
  -- registered and the record comes back as it is; otherwise the call is refused.
  pub cancel_run_running :
      (expected_version : Option ℕ)
      → run.status ≡ running
      → cancel_run services m run.run_id expected_version st ≡ (
          if is_stale expected_version run.version
          then (err stale_run_version, st)
          else if member run.run_id st.active_advancers
          then (ok run, record st { cancel_events = insert run.run_id st.cancel_events })
          else (err lease_not_held, st))
  unfolding cancel_run ask refuse request_cancel is_terminal terminal_statuses
  cancel_run_running expected_version runs =
      let asked = record st { cancel_events = insert run.run_id st.cancel_events } in
      ground (
        arith,
        get_existing_run-calm services.codec (m 0) (calm 0) run.run_id st run seen,
        get_existing_run-calm services.codec (m 1) (calm 1) run.run_id asked run seen,
      )

module _ {D : Type 0} (services : Services D) (lossless : IsLossless services.codec) (m : Schedule)
    (calm : IsCalm m) (st : RunnerState) (run : RunRecord) (lease : RunLease)
    (seen : get_run services.codec run.run_id st.store ≡ ok (some run)) where
  maybe_cancel-ends :
      run.status ≡ running
      → holds_lease run.lease_owner run.lease_expires_at lease.owner (m 0).now ≡ true
      → run.lease_owner ≡ some lease.owner
      → member run.run_id st.cancel_events ≡ true
      → let (result, after) = maybe_cancel services m run lease st in
        let ended = advance run (to_status cancelled lease.owner) (m 0).updated_at in
        (result ≡ ok (some ended))
        × Only services.codec run.run_id st.store after.store (with_lease ended none none)
        × (member run.run_id after.cancel_events ≡ false)
  unfolding maybe_cancel awaiting perform_all cancel_requested publish_status advance
      validate_transition allowed_transitions
  maybe_cancel-ends runs held own asked =
      let p = services.codec in
      let r = run.run_id in
      let t = to_status cancelled lease.owner in
      let ended = advance run t (m 0).updated_at in
      let (moves, seen', frame) =
        transition_run-advance p lossless r run.version t (m 0).now (m 0).updated_at st.store run
          seen refl held (rw runs refl) in
      let s' = (transition_run p r run.version t (m 0).now (m 0).updated_at st.store).1 in
      let (releases, released) =
        release_lease-Only p r s' ended seen' lease.owner (run.version + 1) refl own in
      let s'' = (release_lease r lease.owner (run.version + 1) s').1 in
      let made : maybe_cancel services m run lease st ≡ (
        ok (some ended),
        record st {
          store = s'';
          cancel_events = discard r st.cancel_events;
          updates = st.updates ++ status_changed r cancelled ∷ [];
        },
      ) =
        ground (arith, calm 0, calm 1, asked, moves, releases) in
      rw made (
        refl,
        Only-trans p r st.store s' s'' ended (with_lease ended none none) (seen', frame) released,
        member-discard r st.cancel_events,
      )

-- A cancellation of a RUNNING Run that this Runner advances under its lease is answered at the next
-- safe boundary, if no other client intervenes and the version is the one that is expected where
-- one is: the check there returns the record, CANCELLED and of the next version; readers see it from
-- then on, without a lease, and see every other Run as before; and the event is gone.
pub cancel_run-maybe_cancel :
    {D : Type 0} (services : Services D)
    → IsLossless services.codec
    → (m : Schedule) → IsCalm m
    → (boundary : Schedule) → IsCalm boundary
    → (st : RunnerState) (run : RunRecord) (lease : RunLease) (expected_version : Option ℕ)
    → get_run services.codec run.run_id st.store ≡ ok (some run)
    → run.status ≡ running
    → member run.run_id st.active_advancers ≡ true
    → is_stale expected_version run.version ≡ false
    → run.lease_owner ≡ some lease.owner
    → holds_lease run.lease_owner run.lease_expires_at lease.owner (boundary 0).now ≡ true
    → let (registered, asked) = cancel_run services m run.run_id expected_version st in
      let (answer, after) = maybe_cancel services boundary run lease asked in
      let ended = advance run (to_status cancelled lease.owner) (boundary 0).updated_at in
      (registered ≡ ok run)
      × (answer ≡ ok (some ended))
      × Only services.codec run.run_id st.store after.store (with_lease ended none none)
      × (member run.run_id after.cancel_events ≡ false)
cancel_run-maybe_cancel services lossless m calm boundary quiet st run lease expected_version seen
      runs advanced current own held =
    let asked = record st { cancel_events = insert run.run_id st.cancel_events } in
    let made : cancel_run services m run.run_id expected_version st ≡ (ok run, asked) =
      ground (arith, cancel_run_running services m calm st run seen expected_version runs) in
    let (answer, ended, gone) =
      maybe_cancel-ends services lossless boundary quiet asked run lease seen runs held own
        (member-insert run.run_id st.cancel_events) in
    rw made (refl, answer, ended, gone)
