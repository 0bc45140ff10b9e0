-- ===== src/Control/Checks.antt =====
-- The reads and the checks of the control entries: what they let pass, and that they change
-- nothing themselves.
use m_agent.Base.{
  String, ◌≡◌, false, some, arith, ◌==◌, ==_iff, ◌⊎◌, inl, inr, ok, err, String_eq, Bool-cases,
  Option-cases, Result-cases,
}
use m_agent.Errors.{Error, run_not_found, illegal_run_transition, resolution_not_allowed}
use m_agent.Run.Status.{RunStatus_eq, waiting}
use m_agent.Run.Records.{RunRecord}
use m_agent.Run.Payload.{Serialization}
use m_agent.Run.Resolution.{RunResolution, require_allowed}
use m_agent.Run.Store.Lifecycle.{get_run}
use m_agent.Run.Store.Calls.{perform_all}
use m_agent.Control.{RunnerState, Moment, awaiting, get_existing_run}
use m_agent.Control.Resolve.{targets_other, check_target}

-- The state when the others have made their calls.
abbrev pub at_moment : Serialization → Moment → RunnerState → RunnerState
at_moment p moment st = record st { store = perform_all p moment.others st.store }

module _ (p : Serialization) (moment : Moment) (run_id : String) (st : RunnerState) where
  pub get_existing_run-cases :
      ((run : RunRecord) × (get_run p run_id (at_moment p moment st).store ≡ ok (some run))
        × (get_existing_run p moment run_id st ≡ (ok run, at_moment p moment st)))
      ⊎ ((e : Error) × (get_existing_run p moment run_id st ≡ (err e, at_moment p moment st)))
  unfolding get_existing_run awaiting
  get_existing_run-cases = elim (Result-cases (get_run p run_id (at_moment p moment st).store)) [
    | inr (e, raises) ↦ inr (e, ground arith)
    | inl (seen, returns) ↦ elim (Option-cases seen) [
      | inl missing ↦ inr (run_not_found, ground arith)
      | inr (run, found) ↦ inl (run, ground arith, ground arith)
    ]
  ]

-- The Run waits, and the command is one that it allows and for the step it waits for.
pub record IsTarget (run : RunRecord) (resolution : RunResolution) : Type 0 where
  pub waits : run.status ≡ waiting
  pub allowed : require_allowed run resolution.action ≡ ok tt
  pub own_step : targets_other resolution.waiting_step_id run.waiting_step_id ≡ false

module _ (run : RunRecord) (resolution : RunResolution) (st : RunnerState) where
  pub check_target-cases :
      (IsTarget run resolution × (check_target run resolution st ≡ (ok tt, st)))
      ⊎ ((e : Error) × (check_target run resolution st ≡ (err e, st)))
  unfolding check_target
  check_target-cases = elim (Bool-cases (run.status == waiting)) [
    | inr other ↦ inr (illegal_run_transition, ground arith)
    | inl waits ↦ elim (Result-cases (require_allowed run resolution.action)) [
      | inr (e, refused) ↦ inr (e, ground arith)
      | inl (done, allowed) ↦
          elim (Bool-cases (targets_other resolution.waiting_step_id run.waiting_step_id)) [
            | inl other ↦ inr (resolution_not_allowed, ground arith)
            | inr own ↦ inl (
              record {
                waits = (==_iff run.status waiting).0 waits;
                allowed = allowed;
                own_step = own;
              },
              ground arith,
            )
          ]
    ]
  ]
