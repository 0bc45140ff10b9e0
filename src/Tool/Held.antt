-- ===== src/Tool/Held.antt =====
-- A Tool Step that ends with the Run in the hands of the application.
use m_agent.Base.{
  ℕ, zero, suc, ◌≤◌, ◌<◌, String, Bool, true, Option, none, some, ◌≡◌, sym, subst, arith, length,
  inl, inr, ◌==ℕ◌, ==ℕ_iff, Result, ok, err, Bool-cases, Result-cases,
}
use m_agent.Errors.{Error}
use m_agent.Run.Status.{waiting}
use m_agent.Run.Records.{RunRecord}
use m_agent.Run.Store.Leases.{RunLease}
use m_agent.Run.Store.Steps.{get_attempts}
use m_agent.Control.{RunnerState, Schedule, Services, from, awaiting}
use m_agent.Tool.{ToolCall, ToolOutcome, is_non_idempotent, frozen_tool_effect}
use m_agent.Tool.Attempt.{Tools, ToolStep, done, again}
use m_agent.Tool.Pass.{World, attempt}
use m_agent.Tool.Passes.{attempt-IsPass}
use m_agent.Tool.Bounded.{Pass-cases}
use m_agent.Tool.Uncertain.{IsUncertain, attempt-Holds}
use m_agent.Tool.Loop.{
  Finished, attempts, give_up, of_step, is_spent, enough_fuel, step_of, run_tool_step,
}

-- A step that dispatched the `i`-th call, which was UNCERTAIN, and returns, left the Run WAITING.
abbrev IsLeftWaiting : {D : Type 0} → ToolStep D → ℕ → Result Error Finished × World → Type 0
IsLeftWaiting w n result =
    (i : ℕ) (final : RunRecord) (outcome : Option ToolOutcome)
    → n ≤ i
    → i < result.1.1
    → IsUncertain (w.tools.answer i w.call)
    → result.0 ≡ ok (some (final, outcome))
    → (outcome ≡ none) × (final.status ≡ waiting)

module _ {D : Type 0} (w : ToolStep D) (effect : is_non_idempotent w.effect ≡ true) where
  attempts-IsLeftWaiting :
      (m : ℕ → Schedule) (fuel count n : ℕ) (run : RunRecord) (st : RunnerState)
      → IsLeftWaiting w n (attempts w m fuel count run (st, n))
  unfolding attempts
  attempts-IsLeftWaiting m zero count n run st =
      λ i final outcome low high uncertain h. absurd (ground arith)
  attempts-IsLeftWaiting m (suc fuel) count n run st =
      let result = attempt w (m (suc count)) (suc count) run (st, n) in
      let pass = attempt-IsPass w (suc count) n (m (suc count)) run st in
      let held = λ (i : ℕ) (first : n ≡ i) (uncertain : IsUncertain (w.tools.answer i w.call)).
        attempt-Holds w effect (suc count) n
          (subst (λ k. IsUncertain (w.tools.answer k w.call)) (sym first) uncertain) (m (suc count))
          run st in
      elim (Pass-cases result.0) [
        | inl (e, raises) ↦
            let made : attempts w m (suc fuel) count run (st, n) ≡ (err e, result.1) =
              ground arith in
            subst (IsLeftWaiting w n) (sym made)
              (λ i final outcome low high uncertain h. absurd (ground arith))
        | inr (inl (final', outcome', returns)) ↦
            let made : attempts w m (suc fuel) count run (st, n)
                ≡ (ok (some (final', outcome')), result.1) =
              ground arith in
            subst (IsLeftWaiting w n) (sym made) (λ i final outcome low high uncertain h.
              elim pass.calls [
                | inl no_call ↦ absurd (omega arith)
                | inr (one, _) ↦
                    let (final'', same, waits) =
                      held i (omega arith) uncertain one (done final' outcome') returns in
                    (ground arith, ground arith)
              ])
        | inr (inr (run', goes_on)) ↦
            let made : attempts w m (suc fuel) count run (st, n)
                ≡ attempts w m fuel (suc count) run' result.1 =
              ground arith in
            let rest = attempts-IsLeftWaiting m fuel (suc count) result.1.1 run' result.1.0 in
            subst (IsLeftWaiting w n) (sym made) (λ i final outcome low high uncertain h.
              elim pass.calls [
                | inl no_call ↦ rest i final outcome (omega arith) high uncertain h
                | inr (one, _) ↦ elim (Bool-cases (n ==ℕ i)) [
                  | inr later ↦ rest i final outcome (ground arith) high uncertain h
                  | inl first ↦
                      let (final'', same, waits) =
                        held i ((==ℕ_iff n i).0 first) uncertain one (again run') goes_on in
                      absurd (ground arith)
                ]
              ])
      ]

module _ {D : Type 0} (services : Services D) (tools : Tools D) (m : Schedule) (each : ℕ → Schedule)
    (run : RunRecord) (definition : D) (lease : RunLease) (call : ToolCall) (step_id : String)
    (recovery_replay explicit_resolution : Bool) (st : RunnerState) (n : ℕ) where
  abbrev held_step : ToolStep D
  held_step = step_of services tools run definition lease call step_id

  abbrev held_run : Result Error Finished × World
  held_run =
      run_tool_step services tools m each run definition lease call step_id recovery_replay
        explicit_resolution (st, n)

  idle-IsLeftWaiting :
      (result : Result Error Finished) (st' : RunnerState)
      → IsLeftWaiting held_step n (result, (st', n))
  idle-IsLeftWaiting result st' i final outcome low high uncertain h = absurd (omega arith)

  -- If a call of a NON_IDEMPOTENT tool in a step raises a failure that its adapter calls UNCERTAIN,
  -- and the step raises nothing, then the Run comes back WAITING and without an outcome, whatever
  -- the policies and other clients do, and also where a cancellation has been requested.
  pub run_tool_step_waits :
      is_non_idempotent (frozen_tool_effect run.snapshot call.tool_name) ≡ true
      → (i : ℕ) (final : RunRecord) (outcome : Option ToolOutcome)
      → let (result, after) =
          run_tool_step services tools m each run definition lease call step_id recovery_replay
            explicit_resolution
            (st, n) in
        n ≤ i
        → i < after.1
        → IsUncertain (tools.answer i call)
        → result ≡ ok (some (final, outcome))
        → (outcome ≡ none) × (final.status ≡ waiting)
  unfolding run_tool_step
  run_tool_step_waits effect = elim (Result-cases (services.assert_contract run definition)) [
    | inr (e, differs) ↦
        let made : held_run ≡ (err e, (st, n)) = ground arith in
        subst (IsLeftWaiting held_step n) (sym made) (idle-IsLeftWaiting (err e) st)
    | inl (u, same) ↦
        let found =
          awaiting services.codec (m 0) (λ s. (get_attempts services.codec run.run_id s, s)) st in
        elim (Result-cases found.0) [
          | inr (e, raises) ↦
              let made : held_run ≡ (err e, (found.1, n)) = ground arith in
              subst (IsLeftWaiting held_step n) (sym made) (idle-IsLeftWaiting (err e) found.1)
          | inl (all, returns) ↦
              let persisted = of_step step_id all in
              elim (Bool-cases (
                is_spent held_step.policy held_step.effect recovery_replay explicit_resolution
                  persisted)) [
                    | inl spent ↦
                        let ended = give_up held_step (from 1 m) run found.1 in
                        let made : held_run ≡ (ended.0, (ended.1, n)) = ground arith in
                        subst (IsLeftWaiting held_step n) (sym made)
                          (idle-IsLeftWaiting ended.0 ended.1)
                    | inr open' ↦
                        let made : held_run
                            ≡ attempts held_step each (enough_fuel held_step.policy)
                                (length persisted) run (found.1, n) =
                          ground arith in
                        subst (IsLeftWaiting held_step n) (sym made) (
                          attempts-IsLeftWaiting held_step effect each
                            (enough_fuel held_step.policy) (length persisted) n run found.1)
                  ]
        ]
  ]
