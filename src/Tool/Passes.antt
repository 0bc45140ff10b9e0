-- ===== src/Tool/Passes.antt =====
-- What one pass of the loop of a Tool Step dispatches, and why there is another.
use m_agent.Base.{
  ℕ, suc, ◌<◌, String, true, false, Option, none, some, ◌≡◌, refl, sym, subst, arith, ◌==◌,
  String_eq, ◌⊎◌, inl, inr, Result, ok, err, Bool-cases, Result-cases,
}
use m_agent.Errors.{Error, stale_run_version, lease_not_held}
use m_agent.Run.Status.{RunStatus_eq, running}
use m_agent.Run.Records.{RunRecord}
use m_agent.Run.Snapshot.{RetryPolicy}
use m_agent.Run.Failure.{AdapterException, other_exception}
use m_agent.Control.{RunnerState, Schedule, from}
use m_agent.Tool.{ToolOutcome, Invocation, returned, raised, has_payload_shape}
use m_agent.Tool.Attempt.{
  ToolStep, Ready, stopped, ready, Authorization, halt, allow, deny, Tried, threw, Pass, done,
  again, prepare,
}
use m_agent.Tool.Pass.{
  World, caught, matches, gated_outcome, authorized, judge, invoke, conclude, dispatch, proceed,
  attempt,
}
use m_agent.Tool.Retries.{may_retry, conclude-again, may_retry-exception, IsTransient}

module _ {D : Type 0} (w : ToolStep D) (count : ℕ) where
  bare-no_retry :
      (run : RunRecord) (name : String)
      → may_retry w count (threw run (other_exception name)) ≡ false
  bare-no_retry run name =
      elim (Bool-cases (may_retry w count (threw run (other_exception name)))) [
        | inr final ↦ final
        | inl retried ↦ absurd ((may_retry-exception w count run (other_exception name) retried).0)
      ]

  caught-no_retry :
      (run : RunRecord) (r : Result Error Tried) (tried : Tried) (st : RunnerState)
      → ((t : Tried) → r ≡ ok t → may_retry w count t ≡ false)
      → (caught w (threw run) r st).0 ≡ ok tried
      → may_retry w count tried ≡ false
  caught-no_retry run (ok t) tried st calm h = ground (arith, calm t refl)
  caught-no_retry run (err lease_not_held) tried st calm h = absurd (ground arith)
  caught-no_retry run (err stale_run_version) tried st calm h = absurd (ground arith)
  caught-no_retry run (err e) tried st calm h =
      ground (arith, bare-no_retry run (w.tools.type_name e))

  gated_outcome-no_retry :
      (run : RunRecord) (outcome : ToolOutcome) (attempt_id : String) (st : RunnerState) (t : Tried)
      → (gated_outcome w run outcome attempt_id st).0 ≡ ok t
      → may_retry w count t ≡ false
  gated_outcome-no_retry run outcome attempt_id st t h =
      let gate = w.tools.outcome_gate run w.definition w.lease outcome w.step_id attempt_id st in
      elim (Result-cases gate.0) [
        | inr (e, raises) ↦ absurd (ground arith)
        | inl (gated, returns) ↦ elim (Bool-cases (gated.status == running)) [
          | inl runs ↦ ground arith
          | inr other ↦ ground arith
        ]
      ]

  -- Only what the call itself raised may be tried again.
  judge-returned :
      (run : RunRecord) (outcome : ToolOutcome) (attempt_id : String) (st : RunnerState) (t : Tried)
      → (judge w run attempt_id (returned outcome) st).0 ≡ ok t
      → may_retry w count t ≡ false
  unfolding judge
  judge-returned run outcome attempt_id st t h = elim (Bool-cases (has_payload_shape outcome)) [
    | inr malformed ↦ ground (arith, bare-no_retry run "ValidationError")
    | inl shaped ↦ elim (Bool-cases (matches w outcome)) [
      | inr foreign ↦ ground (arith, bare-no_retry run "ValueError")
      | inl own ↦
          let gated = gated_outcome w run outcome attempt_id st in
          caught-no_retry run gated.0 t gated.1
            (λ t' e. gated_outcome-no_retry run outcome attempt_id st t' e) (ground arith)
    ]
  ]

  -- Another attempt is allowed after this call.
  abbrev pub Retried : Invocation → Type 0
  Retried invocation =
      IsTransient invocation × ((p : RetryPolicy) × (w.policy ≡ some p) × (count < p.max_attempts))

  judge-Retried :
      (run : RunRecord) (attempt_id : String) (invocation : Invocation) (st : RunnerState)
      (t : Tried)
      → (judge w run attempt_id invocation st).0 ≡ ok t
      → may_retry w count t ≡ true
      → Retried invocation
  unfolding judge
  judge-Retried run attempt_id (returned outcome) st t h again' =
      absurd (cc (judge-returned run outcome attempt_id st t h))
  judge-Retried run attempt_id (raised x) st t h again' =
      let same : threw run x ≡ t = ground arith in
      may_retry-exception w count run x
        (subst (λ t'. may_retry w count t' ≡ true) (sym same) again')

-- The policy allows an attempt after `count` of them.
abbrev pub Allows : Option RetryPolicy → ℕ → Type 0
Allows policy count = (p : RetryPolicy) × (policy ≡ some p) × (count < p.max_attempts)

module _ {D : Type 0} (w : ToolStep D) (count n : ℕ) where
  -- At most one call is dispatched; where there is another pass, the policy allows it, and a call
  -- that was dispatched raised a TRANSIENT failure.
  pub record IsPass (result : Result Error Pass × World) : Type 0 where
    pub allowed : (run' : RunRecord) → result.0 ≡ ok (again run') → Allows w.policy count
    pub calls :
        (result.1.1 ≡ n)
        ⊎ ((result.1.1 ≡ suc n)
            × ((run' : RunRecord)
                → result.0 ≡ ok (again run')
                → IsTransient (w.tools.answer n w.call)))

  no_call :
      (result : Result Error Pass) (st : RunnerState)
      → ((run' : RunRecord) → result ≡ ok (again run') → Allows w.policy count)
      → IsPass (result, (st, n))
  no_call result st allowed = record { allowed = allowed; calls = inl refl }

  one_call :
      (result : Result Error Pass) (st : RunnerState)
      → ((run' : RunRecord) → result ≡ ok (again run') → Retried w count (w.tools.answer n w.call))
      → IsPass (result, (st, suc n))
  one_call result st retried = record {
    allowed = λ run' h. (retried run' h).1;
    calls = inr (refl, λ run' h. (retried run' h).0);
  }

  conclude-Allows :
      (m : Schedule) (attempt_id : String) (run run' : RunRecord) (x : AdapterException)
      (st : RunnerState)
      → (conclude w m count attempt_id (threw run x) st).0 ≡ ok (again run')
      → Allows w.policy count
  conclude-Allows m attempt_id run run' x st h =
      (may_retry-exception w count run x
        (conclude-again w m count attempt_id (threw run x) run' st h)).1

  dispatch-IsPass :
      (m : Schedule) (attempt_id : String) (run : RunRecord) (authorization : Authorization)
      (st : RunnerState)
      → IsPass (dispatch w m count attempt_id run authorization (st, n))
  unfolding invoke
  dispatch-IsPass m attempt_id run (halt final) st =
      no_call (ok (done final none)) st (λ run' h. absurd (ground arith))
  dispatch-IsPass m attempt_id run (deny x) st =
      let ended = conclude w (from 8 m) count attempt_id (threw run x) st in
      no_call ended.0 ended.1 (λ run' h. conclude-Allows (from 8 m) attempt_id run run' x st h)
  dispatch-IsPass m attempt_id run (allow run') st =
      let judged = judge w run' attempt_id (w.tools.answer n w.call) st in
      elim (Result-cases judged.0) [
        | inr (e, raises) ↦
            let made : dispatch w m count attempt_id run (allow run') (st, n)
                ≡ (err e, (judged.1, suc n)) =
              ground arith in
            subst IsPass (sym made) (one_call (err e) judged.1 (λ run'' h. absurd (ground arith)))
        | inl (tried, returns) ↦
            let ended = conclude w (from 8 m) count attempt_id tried judged.1 in
            let made : dispatch w m count attempt_id run (allow run') (st, n)
                ≡ (ended.0, (ended.1, suc n)) =
              ground arith in
            subst IsPass (sym made) (
              one_call ended.0 ended.1 (λ run'' h.
                judge-Retried w count run' attempt_id (w.tools.answer n w.call) st tried returns
                  (conclude-again w (from 8 m) count attempt_id tried run'' judged.1 h)))
      ]

  proceed-IsPass :
      (m : Schedule) (attempt_id : String) (is_ready : Ready) (st : RunnerState)
      → IsPass (proceed w m count attempt_id is_ready (st, n))
  proceed-IsPass m attempt_id (stopped final) st =
      no_call (ok (done final none)) st (λ run' h. absurd (ground arith))
  proceed-IsPass m attempt_id (ready run) st =
      let checked = authorized w (from 5 m) run attempt_id st in
      elim (Result-cases checked.0) [
        | inr (e, raises) ↦
            let made : proceed w m count attempt_id (ready run) (st, n) ≡ (err e, (checked.1, n)) =
              ground arith in
            subst IsPass (sym made) (no_call (err e) checked.1 (λ run' h. absurd (ground arith)))
        | inl (authorization, returns) ↦
            let made : proceed w m count attempt_id (ready run) (st, n)
                ≡ dispatch w m count attempt_id run authorization (checked.1, n) =
              ground arith in
            subst IsPass (sym made) (dispatch-IsPass m attempt_id run authorization checked.1)
      ]

  pub attempt-IsPass :
      (m : Schedule) (run : RunRecord) (st : RunnerState) → IsPass (attempt w m count run (st, n))
  unfolding attempt
  attempt-IsPass m run st =
      let attempt_id = w.tools.attempt_id count in
      let readied = prepare w m run attempt_id st in
      elim (Result-cases readied.0) [
        | inr (e, raises) ↦
            let made : attempt w m count run (st, n) ≡ (err e, (readied.1, n)) = ground arith in
            subst IsPass (sym made) (no_call (err e) readied.1 (λ run' h. absurd (ground arith)))
        | inl (is_ready, returns) ↦
            let made : attempt w m count run (st, n)
                ≡ proceed w m count attempt_id is_ready (readied.1, n) =
              ground arith in
            subst IsPass (sym made) (proceed-IsPass m attempt_id is_ready readied.1)
      ]
