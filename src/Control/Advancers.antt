-- ===== src/Control/Advancers.antt =====
-- The active advancers: whatever the steps that advance a Run do or raise, and whatever other
-- clients do, starting and resuming a Run take it off the set when they are through.
use m_agent.Base.{
  String, ◌≡◌, false, arith, ◌==◌, String_eq, inl, inr, Result, ok, err, Bool-cases, Result-cases,
}
use m_agent.Errors.{Error, definition_not_found}
use m_agent.Run.Status.{RunStatus_eq, created, waiting, is_terminal}
use m_agent.Run.Records.{RunRecord}
use m_agent.Control.{RunnerState, Action, Schedule, Services, from, finally_do, member, insert}
use m_agent.Control.Checks.{at_moment, get_existing_run-cases}
use m_agent.Control.Start.{
  advancing, acquire_and_start, start_run, waits_for_definition, acquire_and_leave_waiting,
  resume_waiting, acquire_and_resume, resume_run,
}
use m_agent.Control.Running.{member-discard}

-- The Run is not among the active advancers.
abbrev pub IsLeft : String → RunnerState → Type 0
IsLeft run_id st = member run_id st.active_advancers ≡ false

module _ {D : Type 0} (services : Services D) (run_id : String) where
  advancing-IsLeft :
      (body : Action RunRecord) (st : RunnerState)
      → IsLeft run_id (advancing services run_id body st).1
  unfolding advancing finally_do
  advancing-IsLeft body st =
      let ran = body (record st { active_advancers = insert run_id st.active_advancers }) in
      member-discard run_id ran.1.active_advancers

  start_run-IsLeft :
      (m : Schedule) (st : RunnerState)
      → IsLeft run_id st
      → IsLeft run_id (start_run services m run_id st).1
  unfolding start_run
  start_run-IsLeft m st left =
      let st' = at_moment services.codec (m 0) st in
      elim (get_existing_run-cases services.codec (m 0) run_id st) [
        | inr (e, raises) ↦ ground arith
        | inl (run, seen, returns) ↦ elim (Bool-cases (run.status == created)) [
          | inr other ↦ ground arith
          | inl fresh ↦
              elim (Result-cases (services.resolve run.definition_id run.definition_version)) [
                | inr (e, missing) ↦ ground arith
                | inl (definition, found) ↦
                    elim (Result-cases (services.assert_contract run definition)) [
                      | inr (e, differs) ↦ ground arith
                      | inl (done, same) ↦ ground (
                        arith,
                        advancing-IsLeft (acquire_and_start services (from 1 m) run definition) st',
                      )
                    ]
              ]
        ]
      ]

  resume_waiting-IsLeft :
      (m : Schedule) (run : RunRecord) (definition : Result Error D) (st : RunnerState)
      → IsLeft run_id st
      → IsLeft run_id (resume_waiting services m run_id run definition st).1
  unfolding resume_waiting
  resume_waiting-IsLeft m run (err definition_not_found) st left = left
  resume_waiting-IsLeft m run (err e) st left = ground arith
  resume_waiting-IsLeft m run (ok definition) st left =
      elim (Result-cases (services.assert_contract run definition)) [
        | inr (e, differs) ↦ ground arith
        | inl (done, same) ↦
            ground (arith, advancing-IsLeft (acquire_and_leave_waiting services m run) st)
      ]

  resume_run-IsLeft :
      (m : Schedule) (st : RunnerState)
      → IsLeft run_id st
      → IsLeft run_id (resume_run services m run_id st).1
  unfolding resume_run
  resume_run-IsLeft m st left =
      let st' = at_moment services.codec (m 0) st in
      elim (get_existing_run-cases services.codec (m 0) run_id st) [
        | inr (e, raises) ↦ ground arith
        | inl (run, seen, returns) ↦
            let definition = services.resolve run.definition_id run.definition_version in
            elim (Bool-cases (is_terminal run.status)) [
              | inl ended ↦ ground arith
              | inr live ↦ elim (Bool-cases (run.status == waiting)) [
                | inr other ↦ ground (
                  arith,
                  advancing-IsLeft (acquire_and_resume services (from 1 m) run definition) st',
                )
                | inl waits ↦ elim (Bool-cases (waits_for_definition services run.waiting_reason)) [
                  | inr resolvable ↦ ground arith
                  | inl unavailable ↦
                      ground (arith, resume_waiting-IsLeft (from 1 m) run definition st' left)
                ]
              ]
            ]
      ]

  -- When `start_run` or `resume_run` is through, whether it returns or raises, the Run is not among
  -- the active advancers if it was not before: whatever the steps that advance a Run do to the
  -- state or raise, and whatever other clients do between the awaits.
  pub advancers_cleared :
      (m : Schedule) (st : RunnerState)
      → IsLeft run_id st
      → IsLeft run_id (start_run services m run_id st).1
        × IsLeft run_id (resume_run services m run_id st).1
  advancers_cleared m st left = (start_run-IsLeft m st left, resume_run-IsLeft m st left)
