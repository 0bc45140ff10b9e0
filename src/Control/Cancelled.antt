-- ===== src/Control/Cancelled.antt =====
-- What a cancellation that returns has done, whatever other clients do between the awaits.
use m_agent.Base.{
  ℕ, ◌+◌, String, ◌≡◌, refl, true, Option, none, some, List, ◌==◌, ◌==ℕ◌, ==ℕ_iff, ==_refl, arith,
  ◌⊎◌, inl, inr, ok, err, String_eq, Bool-cases, Result-cases,
}
use m_agent.Errors.{Error, lease_not_held}
use m_agent.Run.Status.{RunStatus_eq, running, waiting, cancelled, is_terminal}
use m_agent.Run.Records.{RunRecord}
use m_agent.Run.Resolution.{cancel_run_of}
use m_agent.Run.Store.Leases.{RunLease, acquire_lease}
use m_agent.Run.Store.Lifecycle.{transition_run}
use m_agent.Run.Store.Calls.{perform_all}
use m_agent.Run.Store.Returns.{transition_run-Returned}
use m_agent.Control.{
  RunnerState, Action, Schedule, Services, from, awaiting, finally_do, release_quietly, member,
  insert, request_cancel, to_status, is_stale,
}
use m_agent.Control.Checks.{at_moment, get_existing_run-cases}
use m_agent.Control.Cancel.{ask, finish, with_lease, take_over, refuse, cancel_run}
use m_agent.Control.Versions.{resolve_run_on_version}

pub member-insert : (x : String) (ys : List String) → member x (insert x ys) ≡ true
unfolding member insert
member-insert x ys = elim (Bool-cases (member x ys)) [
  | inl there ↦ ground arith
  | inr fresh ↦ ground (arith, ==_refl x)
]

module _ {D : Type 0} (services : Services D) (run_id : String) where
  -- The event of the Run is set.
  abbrev IsAsked : RunnerState → Type 0
  IsAsked st = member run_id st.cancel_events ≡ true

  ask-IsAsked :
      (m : Schedule) (run run' : RunRecord) (v : Option ℕ) (st : RunnerState)
      → (ask services m run_id run v st).0 ≡ ok run'
      → IsAsked (ask services m run_id run v st).1
  unfolding ask request_cancel
  ask-IsAsked m run run' v st h = elim (Bool-cases (is_stale v run.version)) [
    | inl stale ↦ absurd (ground arith)
    | inr current ↦
        let st' = record st { cancel_events = insert run_id st.cancel_events } in
        elim (get_existing_run-cases services.codec (m 0) run_id st') [
          | inr (e, raises) ↦ absurd (ground arith)
          | inl (again, seen, returns) ↦ ground (arith, member-insert run_id st.cancel_events)
        ]
  ]

  finish-returns :
      (m : Schedule) (lease : RunLease) (v : ℕ) (st : RunnerState) (run' : RunRecord)
      → (finish services m lease run_id (some v) st).0 ≡ ok run'
      → (run'.version ≡ v + 1) × (run'.status ≡ cancelled)
  unfolding finish awaiting
  finish-returns m lease v st run' h =
      elim (get_existing_run-cases services.codec (m 0) run_id st) [
        | inr (e, raises) ↦ absurd (ground arith)
        | inl (run, seen, returns) ↦ elim (Bool-cases (is_terminal run.status)) [
          | inl ended ↦ absurd (ground arith)
          | inr live ↦ elim (Bool-cases (run.version ==ℕ v)) [
            | inr stale ↦ absurd (ground arith)
            | inl current ↦
                let s =
                  perform_all services.codec (m 1).others
                    (at_moment services.codec (m 0) st).store in
                let moved =
                  transition_run services.codec run.run_id run.version
                    (to_status cancelled lease.owner) (m 1).now (m 1).updated_at s in
                elim (Result-cases moved.0) [
                  | inr (e, refused) ↦ absurd (ground arith)
                  | inl (result, done) ↦
                      let made =
                        transition_run-Returned services.codec run.run_id run.version
                          (to_status cancelled lease.owner) (m 1).now (m 1).updated_at s run'
                          (ground arith) in
                      (ground (arith, made.version, (==ℕ_iff run.version v).0 current), made.status)
                ]
          ]
        ]
      ]

  finally_do-returns :
      (body : Action RunRecord) (last : Action (Unit {0})) (st : RunnerState) (run' : RunRecord)
      → (finally_do body last st).0 ≡ ok run'
      → (body st).0 ≡ ok run'
  unfolding finally_do
  finally_do-returns body last st run' h = elim (Result-cases (last (body st).1).0) [
    | inl (a, e) ↦ ground arith
    | inr (e, raises) ↦ absurd (ground arith)
  ]

  -- The Run has ended at the next version, or the request is registered.
  abbrev IsDone : ℕ → RunRecord → RunnerState → Type 0
  IsDone v run' after = ((run'.version ≡ v + 1) × (run'.status ≡ cancelled)) ⊎ IsAsked after

  module _ (v : ℕ) (run' : RunRecord) where
    with_lease-refused :
        (m : Schedule) (run : RunRecord) (e : Error) (st : RunnerState)
        → (with_lease services m run_id run (some v) (err e) st).0 ≡ ok run'
        → IsAsked (with_lease services m run_id run (some v) (err e) st).1
    with_lease-refused m run lease_not_held st h = ask-IsAsked m run run' (some v) st h
    with_lease-refused m run e st h = absurd (ground arith)

    take_over-IsDone :
        (m : Schedule) (run : RunRecord) (st : RunnerState)
        → (take_over services m run_id run (some v) st).0 ≡ ok run'
        → IsDone v run' (take_over services m run_id run (some v) st).1
    unfolding take_over awaiting
    take_over-IsDone m run st h =
        let acquired =
          acquire_lease run.run_id services.owner services.lease_ttl run.version (m 0).now
            (perform_all services.codec (m 0).others st.store) in
        let st' = record st { store = acquired.1 } in
        elim (Result-cases acquired.0) [
          | inr (e, refused) ↦
              inr (rw refused (with_lease-refused (from 1 m) run e st' (rw refused at h)))
          | inl (lease, leased) ↦ inl (
              finish-returns (from 1 m) lease v st' run' (
                finally_do-returns (finish services (from 1 m) lease run_id (some v))
                  (release_quietly services.codec (from 2 (from 1 m)) run_id lease.owner) st' run'
                  (rw leased at h)))
        ]

    refuse-raises :
        (run : RunRecord) (st : RunnerState) → (refuse services run (some v) st).0 ≡ ok run' → ⊥
    unfolding refuse
    refuse-raises run st h = elim (Bool-cases (run.version ==ℕ v)) [
      | inl current ↦ ground arith
      | inr stale ↦ ground arith
    ]

    -- Whatever other clients do while it is under way, a cancellation that names a version and
    -- returns has either ended the Run: the record that comes back is CANCELLED and of the version
    -- after the one named; or it has registered the request for whoever advances the Run.
    pub cancel_run_on_version :
        (m : Schedule) (st : RunnerState)
        → let (result, after) = cancel_run services m run_id (some v) st in
          result ≡ ok run'
          → ((run'.version ≡ v + 1) × (run'.status ≡ cancelled))
            ⊎ (member run_id after.cancel_events ≡ true)
    unfolding cancel_run
    cancel_run_on_version m st h =
        let st' = at_moment services.codec (m 0) st in
        elim (get_existing_run-cases services.codec (m 0) run_id st) [
          | inr (e, raises) ↦ absurd (ground arith)
          | inl (run, seen, returns) ↦ elim (Bool-cases (is_terminal run.status)) [
            | inl ended ↦ absurd (ground arith)
            | inr live ↦ elim (Bool-cases (run.status == waiting)) [
              | inl waits ↦
                  let (_, _, _, _, version, status) =
                    resolve_run_on_version services run_id (cancel_run_of none none) v cancelled
                      refl run' (from 1 m) st' (ground arith) in
                  inl (version, status)
              | inr other ↦ elim (Bool-cases (member run_id st'.active_advancers)) [
                | inl advanced ↦
                    let asks : cancel_run services m run_id (some v) st
                        ≡ ask services (from 1 m) run_id run (some v) st' =
                      ground arith in
                    inr (rw asks (ask-IsAsked (from 1 m) run run' (some v) st' (rw asks at h)))
                | inr idle ↦ elim (Bool-cases (run.status == running)) [
                  | inl runs ↦ absurd (refuse-raises run st' (ground arith))
                  | inr still ↦
                      let takes : cancel_run services m run_id (some v) st
                          ≡ take_over services (from 1 m) run_id run (some v) st' =
                        ground arith in
                      rw takes (take_over-IsDone (from 1 m) run st' (rw takes at h))
                ]
              ]
            ]
          ]
        ]
