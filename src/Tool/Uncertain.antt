-- ===== src/Tool/Uncertain.antt =====
-- An UNCERTAIN failure of a NON_IDEMPOTENT tool: the Run waits for the application.
use m_agent.Base.{
  ℕ, suc, String, true, none, some, ◌≡◌, sym, subst, arith, inl, inr, Result, ok, err, Result-cases,
}
use m_agent.Errors.{Error}
use m_agent.Run.Status.{waiting}
use m_agent.Run.Records.{RunRecord}
use m_agent.Run.Failure.{
  AdapterException, step_failure, other_exception, Failure, classify_exception,
}
use m_agent.Run.Resolution.{reason_uncertain_non_idempotent}
use m_agent.Run.Store.Lifecycle.{transition_run}
use m_agent.Run.Store.Calls.{perform_all}
use m_agent.Run.Store.Returns.{transition_run-Returned}
use m_agent.Control.{RunnerState, Moment, Schedule, from, awaiting, to_status}
use m_agent.Tool.{Invocation, returned, raised, is_non_idempotent, is_uncertain}
use m_agent.Tool.Attempt.{
  ToolStep, Ready, stopped, ready, Authorization, halt, allow, deny, Tried, threw, Pass, done,
  record_failed_step, record_failed_attempt, enter_waiting_uncertain, prepare,
}
use m_agent.Tool.Pass.{
  World, authorized, judge, invoke, fail_attempt, conclude, dispatch, proceed, attempt,
}

-- The call raised a failure that its adapter calls UNCERTAIN.
abbrev pub IsUncertain : Invocation → Type 0
IsUncertain (raised (step_failure c code message)) = is_uncertain c ≡ true
IsUncertain _ = ⊥

-- The step ended without an outcome, and the Run is WAITING.
abbrev pub IsHeld : Pass → Type 0
IsHeld pass = (final : RunRecord) × (pass ≡ done final none) × (final.status ≡ waiting)

module _ {D : Type 0} (w : ToolStep D) where
  enter_waiting_uncertain-status :
      (moment : Moment) (run final : RunRecord) (st : RunnerState)
      → (enter_waiting_uncertain w moment run st).0 ≡ ok final
      → final.status ≡ waiting
  unfolding enter_waiting_uncertain awaiting
  enter_waiting_uncertain-status moment run final st h =
      let t = record (to_status waiting w.lease.owner) {
        waiting_reason = some reason_uncertain_non_idempotent;
        waiting_step_id = some w.step_id;
      } in
      let s = perform_all w.services.codec moment.others st.store in
      let moved =
        transition_run w.services.codec run.run_id run.version t moment.now moment.updated_at s in
      elim (Result-cases moved.0) [
        | inr (e, raises) ↦ absurd (ground arith)
        | inl (result, returns) ↦
            (transition_run-Returned w.services.codec run.run_id run.version t moment.now
              moment.updated_at s final (ground arith)).status
      ]

  fail_attempt-IsHeld :
      (m : Schedule) (count : ℕ) (run : RunRecord) (failure : Failure) (attempt_id : String)
      (st : RunnerState) (pass : Pass)
      → is_uncertain failure.classification ≡ true
      → is_non_idempotent w.effect ≡ true
      → (fail_attempt w m count run failure attempt_id st).0 ≡ ok pass
      → IsHeld pass
  unfolding fail_attempt
  fail_attempt-IsHeld m count run failure attempt_id st pass uncertain effect h =
      let kept = record_failed_attempt w (m 0) run failure attempt_id st in
      elim (Result-cases kept.0) [
        | inr (e, raises) ↦ absurd (ground arith)
        | inl (u, returns) ↦
            let step = record_failed_step w (m 1) run kept.1 in
            elim (Result-cases step.0) [
              | inr (e, raises) ↦ absurd (ground arith)
              | inl (u', e) ↦
                  let waits = enter_waiting_uncertain w (m 2) run step.1 in
                  elim (Result-cases waits.0) [
                    | inr (e', raises) ↦ absurd (ground arith)
                    | inl (final, e') ↦ (
                      final,
                      ground arith,
                      enter_waiting_uncertain-status (m 2) run final step.1 e',
                    )
                  ]
            ]
      ]

  conclude-IsHeld :
      (m : Schedule) (count : ℕ) (attempt_id : String) (run : RunRecord) (x : AdapterException)
      (st : RunnerState) (pass : Pass)
      → IsUncertain (raised x)
      → is_non_idempotent w.effect ≡ true
      → (conclude w m count attempt_id (threw run x) st).0 ≡ ok pass
      → IsHeld pass
  unfolding conclude classify_exception
  conclude-IsHeld m count attempt_id run (step_failure c code message) st pass uncertain effect h =
      fail_attempt-IsHeld m count run
        (classify_exception w.tools.unclassified (step_failure c code message)) attempt_id st pass
        uncertain effect h
  conclude-IsHeld m count attempt_id run (other_exception name) st pass uncertain effect h =
      absurd uncertain

  module _ (effect : is_non_idempotent w.effect ≡ true) (count n : ℕ)
      (uncertain : IsUncertain (w.tools.answer n w.call)) where
    -- If the pass dispatched the call and returns, the Run waits.
    abbrev pub Holds : Result Error Pass × World → Type 0
    Holds result = result.1.1 ≡ suc n → (pass : Pass) → result.0 ≡ ok pass → IsHeld pass

    idle-Holds : (result : Result Error Pass) (st : RunnerState) → Holds (result, (st, n))
    idle-Holds result st called pass h = absurd (omega arith)

    raised-Holds : (e : Error) (st : RunnerState) (k : ℕ) → Holds (err e, (st, k))
    raised-Holds e st k called pass h = absurd (ground arith)

    judged-IsHeld :
        (m : Schedule) (attempt_id : String) (run : RunRecord) (invocation : Invocation)
        (st : RunnerState) (tried : Tried) (pass : Pass)
        → IsUncertain invocation
        → (judge w run attempt_id invocation st).0 ≡ ok tried
        → (conclude w m count attempt_id tried (judge w run attempt_id invocation st).1).0 ≡ ok pass
        → IsHeld pass
    unfolding judge
    judged-IsHeld m attempt_id run (returned outcome) st tried pass sure e h = absurd sure
    judged-IsHeld m attempt_id run (raised x) st tried pass sure e h =
        let same : threw run x ≡ tried = ground arith in
        conclude-IsHeld m count attempt_id run x st pass sure effect
          (subst (λ t. (conclude w m count attempt_id t st).0 ≡ ok pass) (sym same) h)

    dispatch-Holds :
        (m : Schedule) (attempt_id : String) (run : RunRecord) (authorization : Authorization)
        (st : RunnerState)
        → Holds (dispatch w m count attempt_id run authorization (st, n))
    unfolding invoke
    dispatch-Holds m attempt_id run (halt final) st = idle-Holds (ok (done final none)) st
    dispatch-Holds m attempt_id run (deny x) st =
        let ended = conclude w (from 8 m) count attempt_id (threw run x) st in
        idle-Holds ended.0 ended.1
    dispatch-Holds m attempt_id run (allow run') st =
        let judged = judge w run' attempt_id (w.tools.answer n w.call) st in
        elim (Result-cases judged.0) [
          | inr (e, raises) ↦
              let made : dispatch w m count attempt_id run (allow run') (st, n)
                  ≡ (err e, (judged.1, suc n)) =
                ground arith in
              subst Holds (sym made) (raised-Holds e judged.1 (suc n))
          | inl (tried, returns) ↦
              let ended = conclude w (from 8 m) count attempt_id tried judged.1 in
              let made : dispatch w m count attempt_id run (allow run') (st, n)
                  ≡ (ended.0, (ended.1, suc n)) =
                ground arith in
              subst Holds (sym made) (λ called pass h.
                judged-IsHeld (from 8 m) attempt_id run' (w.tools.answer n w.call) st tried pass
                  uncertain returns h)
        ]

    proceed-Holds :
        (m : Schedule) (attempt_id : String) (is_ready : Ready) (st : RunnerState)
        → Holds (proceed w m count attempt_id is_ready (st, n))
    proceed-Holds m attempt_id (stopped final) st = idle-Holds (ok (done final none)) st
    proceed-Holds m attempt_id (ready run) st =
        let checked = authorized w (from 5 m) run attempt_id st in
        elim (Result-cases checked.0) [
          | inr (e, raises) ↦
              let made : proceed w m count attempt_id (ready run) (st, n)
                  ≡ (err e, (checked.1, n)) =
                ground arith in
              subst Holds (sym made) (raised-Holds e checked.1 n)
          | inl (authorization, returns) ↦
              let made : proceed w m count attempt_id (ready run) (st, n)
                  ≡ dispatch w m count attempt_id run authorization (checked.1, n) =
                ground arith in
              subst Holds (sym made) (dispatch-Holds m attempt_id run authorization checked.1)
        ]

    pub attempt-Holds :
        (m : Schedule) (run : RunRecord) (st : RunnerState) → Holds (attempt w m count run (st, n))
    unfolding attempt
    attempt-Holds m run st =
        let attempt_id = w.tools.attempt_id count in
        let readied = prepare w m run attempt_id st in
        elim (Result-cases readied.0) [
          | inr (e, raises) ↦
              let made : attempt w m count run (st, n) ≡ (err e, (readied.1, n)) = ground arith in
              subst Holds (sym made) (raised-Holds e readied.1 n)
          | inl (is_ready, returns) ↦
              let made : attempt w m count run (st, n)
                  ≡ proceed w m count attempt_id is_ready (readied.1, n) =
                ground arith in
              subst Holds (sym made) (proceed-Holds m attempt_id is_ready readied.1)
        ]
