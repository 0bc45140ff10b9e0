-- ===== src/Control/Versions.antt =====
-- Whatever other clients do between the awaits, a command acts on the version that its caller saw.
use m_agent.Base.{
  ℕ, ◌+◌, String, ◌≡◌, refl, Option, none, some, ◌==ℕ◌, ==ℕ_iff, arith, inl, inr, ok, String_eq,
  Bool-cases, Result-cases,
}
use m_agent.Run.Status.{RunStatus, waiting, failed, cancelled}
use m_agent.Run.Records.{RunRecord}
use m_agent.Run.Payload.{Serialization}
use m_agent.Run.Resolution.{
  ResolutionAction, RunResolution, retry_step, confirm_step, fail_run, cancel_run, continue_run,
}
use m_agent.Run.Store.Leases.{RunLease, acquire_lease, release_lease}
use m_agent.Run.Store.Lifecycle.{get_run, transition_run}
use m_agent.Run.Store.Calls.{perform_all}
use m_agent.Run.Store.Returns.{transition_run-Returned}
use m_agent.Control.{
  RunnerState, Action, Schedule, Services, from, awaiting, on_error, release_quietly, terminate_run,
  to_status,
}
use m_agent.Control.Resolve.{lacks_result, settle, require_definition, carry_out, resolve_run}
use m_agent.Control.Checks.{at_moment, get_existing_run-cases, check_target-cases}

module _ (p : Serialization) (m : Schedule) (run : RunRecord) (lease : RunLease)
    (status : RunStatus) (st : RunnerState) (run' : RunRecord) where
  terminate_run-transition :
      (terminate_run p m run lease status st).0 ≡ ok run'
      → (transition_run p run.run_id run.version
          (to_status status lease.owner)
          (m 0).now
          (m 0).updated_at
          (perform_all p (m 0).others st.store)).0
        ≡ ok run'
  unfolding terminate_run awaiting
  terminate_run-transition h =
      let moved =
        transition_run p run.run_id run.version (to_status status lease.owner) (m 0).now
          (m 0).updated_at (perform_all p (m 0).others st.store) in
      elim (Result-cases moved.0) [
        | inr (e, raises) ↦ absurd (ground arith)
        | inl (result, returns) ↦
            elim (Result-cases
              (release_lease run.run_id lease.owner result.version
                (perform_all p (m 1).others moved.1)).0) [
                  | inr (e, raises) ↦ absurd (ground arith)
                  | inl (done, released) ↦ ground arith
                ]
      ]

  terminate_run-returns :
      (terminate_run p m run lease status st).0 ≡ ok run'
      → (run'.version ≡ run.version + 1) × (run'.status ≡ status)
  terminate_run-returns h =
      let made =
        transition_run-Returned p run.run_id run.version (to_status status lease.owner) (m 0).now
          (m 0).updated_at (perform_all p (m 0).others st.store) run'
          (terminate_run-transition h) in
      (made.version, made.status)

-- The status in which an action ends a Run, if it ends it.
abbrev pub final_status : ResolutionAction → Option RunStatus
final_status fail_run = some failed
final_status cancel_run = some cancelled
final_status _ = none

module _ {D : Type 0} (services : Services D) where
  pub settle-final :
      (m : Schedule) (run : RunRecord) (lease : RunLease) (resolution : RunResolution)
      (action : ResolutionAction) (status : RunStatus) (st : RunnerState)
      → final_status action ≡ some status
      → settle services m run lease resolution action st
        ≡ terminate_run services.codec m run lease status st
  settle-final m run lease resolution fail_run status st ends = ground arith
  settle-final m run lease resolution cancel_run status st ends = ground arith
  settle-final m run lease resolution retry_step status st ends = absurd (ground arith)
  settle-final m run lease resolution confirm_step status st ends = absurd (ground arith)
  settle-final m run lease resolution continue_run status st ends = absurd (ground arith)

  pub require_definition-passes :
      (run : RunRecord) (st : RunnerState) (action : ResolutionAction) (status : RunStatus)
      → final_status action ≡ some status
      → require_definition services run action st ≡ (ok tt, st)
  unfolding require_definition
  require_definition-passes run st fail_run status e = refl
  require_definition-passes run st cancel_run status e = refl
  require_definition-passes run st retry_step status e = absurd (ground arith)
  require_definition-passes run st confirm_step status e = absurd (ground arith)
  require_definition-passes run st continue_run status e = absurd (ground arith)

  module _ (run_id : String) (resolution : RunResolution) (v : ℕ) (status : RunStatus)
      (ends : final_status resolution.action ≡ some status) (run' : RunRecord) where
    carry_out-returns :
        (m : Schedule) (lease : RunLease) (st : RunnerState)
        → (carry_out services m lease run_id resolution v st).0 ≡ ok run'
        → (run'.version ≡ v + 1) × (run'.status ≡ status)
    unfolding carry_out
    carry_out-returns m lease st h = elim (get_existing_run-cases services.codec (m 0) run_id st) [
      | inr (e, raises) ↦ absurd (ground arith)
      | inl (run, seen, returns) ↦
          let st' = at_moment services.codec (m 0) st in
          elim (check_target-cases run resolution st') [
            | inr (e, refused) ↦ absurd (ground arith)
            | inl (target, passed) ↦ elim (Bool-cases (run.version ==ℕ v)) [
              | inr stale ↦ absurd (ground arith)
              | inl current ↦
                  let (version, ended) =
                    terminate_run-returns services.codec (from 1 m) run lease status st' run' (
                      ground (
                        arith,
                        settle-final (from 1 m) run lease resolution resolution.action status st'
                            ends,
                      )) in
                  (ground (arith, (==ℕ_iff run.version v).0 current), ended)
            ]
          ]
    ]

    on_error-returns :
        (body : Action RunRecord) (last : Action (Unit {0})) (st : RunnerState)
        → (on_error body last st).0 ≡ ok run'
        → (body st).0 ≡ ok run'
    unfolding on_error
    on_error-returns body last st h = elim (Result-cases (body st).0) [
      | inl (a, e) ↦ ground arith
      | inr (e, raises) ↦ elim (Result-cases (last (body st).1).0) [
        | inl (a, e) ↦ absurd (ground arith)
        | inr (e', raises') ↦ absurd (ground arith)
      ]
    ]

    -- Whatever other clients do while it is under way, a command that fails or cancels a Run and
    -- returns acted on the version that its caller named: the Run was WAITING at that version, the
    -- record that comes back is the next version, and its status is FAILED or CANCELLED as the
    -- command says.
    pub resolve_run_on_version :
        (m : Schedule) (st : RunnerState)
        → (resolve_run services m run_id resolution v st).0 ≡ ok run'
        → (run : RunRecord) × (get_run services.codec run_id
              (at_moment services.codec (m 0) st).store
            ≡ ok (some run))
          × (run.status ≡ waiting)
          × (run.version ≡ v)
          × (run'.version ≡ v + 1)
          × (run'.status ≡ status)
    unfolding resolve_run awaiting
    resolve_run_on_version m st h =
        let st' = at_moment services.codec (m 0) st in
        elim (get_existing_run-cases services.codec (m 0) run_id st) [
          | inr (e, raises) ↦ absurd (ground arith)
          | inl (run, seen, returns) ↦ elim (check_target-cases run resolution st') [
            | inr (e, refused) ↦ absurd (ground arith)
            | inl (target, passed) ↦
                elim (Bool-cases (lacks_result resolution.action resolution.result)) [
                  | inl lacks ↦ absurd (ground arith)
                  | inr complete ↦ elim (Bool-cases (run.version ==ℕ v)) [
                    | inr stale ↦ absurd (ground arith)
                    | inl current ↦
                        let acquired =
                          acquire_lease run.run_id services.owner services.lease_ttl run.version
                            (m 1).now (perform_all services.codec (m 1).others st'.store) in
                        elim (Result-cases acquired.0) [
                          | inr (e, refused) ↦ absurd (
                              ground (
                                arith,
                                require_definition-passes run st' resolution.action status ends,
                              ))
                          | inl (lease, leased) ↦
                              let st'' = record st' { store = acquired.1 } in
                              let done = carry_out-returns (from 2 m) lease st'' (
                                on_error-returns
                                  (carry_out services (from 2 m) lease run_id resolution v)
                                  (release_quietly services.codec (from 5 m) run_id lease.owner)
                                  st''
                                  (ground (
                                    arith,
                                    require_definition-passes run st' resolution.action status ends,
                                  ))) in
                              (
                                run,
                                seen,
                                target.waits,
                                (==ℕ_iff run.version v).0 current,
                                done.0,
                                done.1,
                              )
                        ]
                  ]
                ]
          ]
        ]
