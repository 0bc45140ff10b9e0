-- ===== src/Tool/Retries.antt =====
-- What makes the loop of a Tool Step go on.
use m_agent.Base.{
  ℕ, ◌<◌, String, Bool, true, false, Option, none, some, ◌≡◌, refl, arith, ◌&&◌, String_eq, inl,
  inr, ok, Bool-cases, Option-cases, Result-cases,
}
use m_agent.Run.Records.{RunRecord, FailureClassification, permanent}
use m_agent.Run.Snapshot.{ToolEffect, RetryPolicy}
use m_agent.Run.Failure.{
  AdapterException, step_failure, other_exception, Failure, classify_exception,
}
use m_agent.Control.{RunnerState, Schedule, from, cancel_requested}
use m_agent.Control.Cancel.{maybe_cancel}
use m_agent.Tool.{Invocation, raised, is_transient, is_uncertain, is_non_idempotent, should_retry}
use m_agent.Tool.Attempt.{
  ToolStep, Tried, halted, came, threw, again, fail_run, record_failed_step, record_failed_attempt,
  enter_waiting_uncertain, checkpoint_tool_outcome,
}
use m_agent.Tool.Pass.{retry_or_fail, cancel_if_asked, fail_attempt, conclude}

-- A retry needs a TRANSIENT failure and an attempt that the policy still allows.
pub should_retry-transient :
    (c : FailureClassification) (policy : Option RetryPolicy) (count : ℕ)
    (effect : Option ToolEffect)
    → should_retry c policy count effect ≡ true
    → (is_transient c ≡ true) × ((p : RetryPolicy) × (policy ≡ some p) × (count < p.max_attempts))
unfolding should_retry
should_retry-transient c none count effect h = absurd (ground arith)
should_retry-transient c (some p) count effect h = (ground arith, (p, refl, ground arith))

module _ {D : Type 0} (w : ToolStep D) where
  -- The try failed in a way that may be tried again.
  abbrev pub may_retry : ℕ → Tried → Bool
  may_retry count (threw run x) =
      should_retry (classify_exception w.tools.unclassified x).classification w.policy count
        w.effect
  may_retry count _ = false

  retry_or_fail-again :
      (m : Schedule) (count : ℕ) (run run' : RunRecord) (failure : Failure)
      (cancelled : Option RunRecord) (st : RunnerState)
      → (retry_or_fail w m count run failure cancelled st).0 ≡ ok (again run')
      → should_retry failure.classification w.policy count w.effect ≡ true
  retry_or_fail-again m count run run' failure (some final) st h = absurd (ground arith)
  retry_or_fail-again m count run run' failure none st h =
      elim (Bool-cases (should_retry failure.classification w.policy count w.effect)) [
        | inl retried ↦ retried
        | inr over ↦
            let kept = record_failed_step w (m 0) run st in
            let asked = maybe_cancel w.services (from 1 m) run w.lease kept.1 in
            let ended = fail_run w.services (from 3 m) run w.lease asked.1 in
            elim (Result-cases kept.0) [
              | inr (e, raises) ↦ absurd (ground arith)
              | inl (u, returns) ↦ elim (Result-cases asked.0) [
                | inr (e, raises) ↦ absurd (ground arith)
                | inl (cancelled, answered) ↦ elim (Option-cases cancelled) [
                  | inr (final, e) ↦ absurd (ground arith)
                  | inl e ↦ elim (Result-cases ended.0) [
                    | inr (e', raises) ↦ absurd (ground arith)
                    | inl (final, e') ↦ absurd (ground arith)
                  ]
                ]
              ]
            ]
      ]

  fail_attempt-again :
      (m : Schedule) (count : ℕ) (run run' : RunRecord) (failure : Failure) (attempt_id : String)
      (st : RunnerState)
      → (fail_attempt w m count run failure attempt_id st).0 ≡ ok (again run')
      → should_retry failure.classification w.policy count w.effect ≡ true
  unfolding fail_attempt
  fail_attempt-again m count run run' failure attempt_id st h =
      let kept = record_failed_attempt w (m 0) run failure attempt_id st in
      elim (Result-cases kept.0) [
        | inr (e, raises) ↦ absurd (ground arith)
        | inl (u, returns) ↦
            elim (Bool-cases (is_uncertain failure.classification && is_non_idempotent w.effect)) [
              | inl uncertain ↦
                  let step = record_failed_step w (m 1) run kept.1 in
                  let waits = enter_waiting_uncertain w (m 2) run step.1 in
                  elim (Result-cases step.0) [
                    | inr (e, raises) ↦ absurd (ground arith)
                    | inl (u', e) ↦ elim (Result-cases waits.0) [
                      | inr (e', raises) ↦ absurd (ground arith)
                      | inl (final, e') ↦ absurd (ground arith)
                    ]
                  ]
              | inr known ↦
                  let asked =
                    cancel_if_asked w (from 3 m) run (cancel_requested run.run_id kept.1) kept.1 in
                  elim (Result-cases asked.0) [
                    | inr (e, raises) ↦ absurd (ground arith)
                    | inl (cancelled, answered) ↦
                        retry_or_fail-again (from 6 m) count run run' failure cancelled asked.1
                          (ground arith)
                  ]
            ]
      ]

  pub conclude-again :
      (m : Schedule) (count : ℕ) (attempt_id : String) (tried : Tried) (run' : RunRecord)
      (st : RunnerState)
      → (conclude w m count attempt_id tried st).0 ≡ ok (again run')
      → may_retry count tried ≡ true
  unfolding conclude
  conclude-again m count attempt_id (halted run) run' st h = absurd (ground arith)
  conclude-again m count attempt_id (came run outcome) run' st h =
      elim (Result-cases (checkpoint_tool_outcome w m run outcome attempt_id st).0) [
        | inr (e, raises) ↦ absurd (ground arith)
        | inl (u, returns) ↦ absurd (ground arith)
      ]
  conclude-again m count attempt_id (threw run x) run' st h =
      fail_attempt-again m count run run' (classify_exception w.tools.unclassified x) attempt_id st
        h

-- The call raised a failure that its adapter calls TRANSIENT.
abbrev pub IsTransient : Invocation → Type 0
IsTransient (raised (step_failure c code message)) = is_transient c ≡ true
IsTransient _ = ⊥

module _ {D : Type 0} (w : ToolStep D) where
  pub may_retry-exception :
      (count : ℕ) (run : RunRecord) (x : AdapterException)
      → may_retry w count (threw run x) ≡ true
      → IsTransient (raised x)
        × ((p : RetryPolicy) × (w.policy ≡ some p) × (count < p.max_attempts))
  unfolding classify_exception
  may_retry-exception count run (step_failure c code message) h =
      should_retry-transient c w.policy count w.effect h
  may_retry-exception count run (other_exception name) h =
      absurd (ground (arith, should_retry-transient permanent w.policy count w.effect h))
