-- ===== src/Tool/Step.antt =====
-- `_run_tool_step` as a whole: it ends, and when it may call a tool again.
use m_agent.Base.{
  ℕ, suc, ◌+◌, ◌≤◌, ◌<◌, String, Bool, true, Option, none, some, ◌≡◌, sym, subst, arith, is_some,
  length, ◌⊎◌, inl, inr, ◌==ℕ◌, ==ℕ_iff, Result, ok, err, Bool-cases, Result-cases,
}
use m_agent.Errors.{Error}
use m_agent.Run.Snapshot.{RetryPolicy}
use m_agent.Run.Records.{RunRecord}
use m_agent.Run.Store.Leases.{RunLease}
use m_agent.Run.Store.Steps.{get_attempts}
use m_agent.Control.{RunnerState, Schedule, Services, from, awaiting}
use m_agent.Tool.{ToolCall}
use m_agent.Tool.Attempt.{Tools, ToolStep, fail_run, record_failed_step}
use m_agent.Tool.Pass.{World}
use m_agent.Tool.Retries.{IsTransient}
use m_agent.Tool.Bounded.{IsLimited, IsEnough, once, attempts-IsLimited}
use m_agent.Tool.Loop.{
  Finished, attempts, give_up, of_step, is_spent, enough_fuel, step_of, run_tool_step, policy_of,
}

enough_fuel-IsEnough :
    (policy : Option RetryPolicy) (count : ℕ) → IsEnough policy (enough_fuel policy) count
unfolding enough_fuel
enough_fuel-IsEnough none count = (omega arith, λ p e. absurd (ground arith))
enough_fuel-IsEnough (some q) count =
    (omega arith, λ p e. (let same : q ≡ p = ground arith in ground arith))

module _ {D : Type 0} (w : ToolStep D) where
  give_up-finishes :
      (m : Schedule) (run : RunRecord) (st : RunnerState) (r : Finished)
      → (give_up w m run st).0 ≡ ok r
      → is_some r ≡ true
  unfolding give_up
  give_up-finishes m run st r h =
      let kept = record_failed_step w (m 0) run st in
      elim (Result-cases kept.0) [
        | inr (e, raises) ↦ absurd (ground arith)
        | inl (u, returns) ↦
            elim (Result-cases (fail_run w.services (from 1 m) run w.lease kept.1).0) [
              | inr (e, raises) ↦ absurd (ground arith)
              | inl (final, e) ↦ ground arith
            ]
      ]

  no_calls :
      (count n : ℕ) (result : Result Error Finished) (st : RunnerState)
      → ((r : Finished) → result ≡ ok r → is_some r ≡ true)
      → IsLimited w count n (result, (st, n))
  no_calls count n result st finishes = record {
    finishes = finishes;
    bounded = once w count n n (omega arith) (omega arith);
  }

module _ {D : Type 0} (services : Services D) (tools : Tools D) (m : Schedule) (each : ℕ → Schedule)
    (run : RunRecord) (definition : D) (lease : RunLease) (call : ToolCall) (step_id : String)
    (recovery_replay explicit_resolution : Bool) (st : RunnerState) (n : ℕ) where
  abbrev this_step : ToolStep D
  this_step = step_of services tools run definition lease call step_id

  abbrev this_run : Result Error Finished × World
  this_run =
      run_tool_step services tools m each run definition lease call step_id recovery_replay
        explicit_resolution (st, n)

  run_tool_step-IsLimited : (count : ℕ) × IsLimited this_step count n this_run
  unfolding run_tool_step
  run_tool_step-IsLimited = elim (Result-cases (services.assert_contract run definition)) [
    | inr (e, differs) ↦
        let made : this_run ≡ (err e, (st, n)) = ground arith in
        (
          0,
          subst (IsLimited this_step 0 n) (sym made)
              (no_calls this_step 0 n (err e) st (λ r h. absurd (ground arith))),
        )
    | inl (u, same) ↦
        let found =
          awaiting services.codec (m 0) (λ s. (get_attempts services.codec run.run_id s, s)) st in
        elim (Result-cases found.0) [
          | inr (e, raises) ↦
              let made : this_run ≡ (err e, (found.1, n)) = ground arith in
              (
                0,
                subst (IsLimited this_step 0 n) (sym made)
                    (no_calls this_step 0 n (err e) found.1 (λ r h. absurd (ground arith))),
              )
          | inl (all, returns) ↦
              let persisted = of_step step_id all in
              elim (Bool-cases (
                is_spent this_step.policy this_step.effect recovery_replay explicit_resolution
                  persisted)) [
                    | inl spent ↦
                        let ended = give_up this_step (from 1 m) run found.1 in
                        let made : this_run ≡ (ended.0, (ended.1, n)) = ground arith in
                        (
                          0,
                          subst (IsLimited this_step 0 n) (sym made) (
                              no_calls this_step 0 n ended.0 ended.1
                                (give_up-finishes this_step (from 1 m) run found.1)),
                        )
                    | inr open' ↦
                        let made : this_run
                            ≡ attempts this_step each (enough_fuel this_step.policy)
                                (length persisted) run (found.1, n) =
                          ground arith in
                        (
                          length persisted,
                          subst (IsLimited this_step (length persisted) n) (sym made) (
                              attempts-IsLimited this_step each (enough_fuel this_step.policy)
                                (length persisted) n run found.1
                                (enough_fuel-IsEnough this_step.policy (length persisted))),
                        )
                  ]
        ]
  ]

  -- The loop of a Tool Step ends: with as many passes as the policy allows attempts, and one, a
  -- step that raises nothing comes to a Run and an outcome, whatever the tool, the policies and
  -- other clients do.
  pub run_tool_step_terminates :
      (finished : Finished)
      → (run_tool_step services tools m each run definition lease call step_id recovery_replay
          explicit_resolution
          (st, n)).0
        ≡ ok finished
      → is_some finished ≡ true
  run_tool_step_terminates finished h = (run_tool_step-IsLimited.1).finishes finished h

  -- A tool is called again only after its adapter called the failure TRANSIENT: in one step, every
  -- call but the last raised such a failure, so an UNCERTAIN one is never replayed; and there are
  -- at most as many calls as the frozen policy allows attempts, one without a policy.
  pub run_tool_step_calls :
      let after =
        (run_tool_step services tools m each run definition lease call step_id recovery_replay
          explicit_resolution
          (st, n)).1.1 in
      (n ≤ after)
      × ((after ≤ suc n)
          ⊎ ((p : RetryPolicy) × (policy_of run.snapshot ≡ some p) × (after ≤ n + p.max_attempts)))
      × ((i : ℕ) → n ≤ i → i < after → IsTransient (tools.answer i call) ⊎ (suc i ≡ after))
  run_tool_step_calls =
      let bounded = (run_tool_step-IsLimited.1).bounded in
      (
        bounded.grows,
        elim bounded.few [ inl few ↦ inl few | inr (p, is_p, few) ↦ inr (p, is_p, omega arith) ],
        λ i low high. elim (Bool-cases (suc i ==ℕ this_run.1.1)) [
          | inl last ↦ inr ((==ℕ_iff (suc i) this_run.1.1).0 last)
          | inr early ↦ inl (bounded.transients i low (ground arith))
        ],
      )
