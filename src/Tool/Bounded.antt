-- ===== src/Tool/Bounded.antt =====
-- The loop of a Tool Step ends, and what it may dispatch until then.
use m_agent.Base.{
  ℕ, zero, suc, ◌+◌, ◌≤◌, ◌<◌, true, Option, some, ◌≡◌, refl, sym, subst, arith, is_some, ◌⊎◌, inl,
  inr, Result, ok, err, ◌==ℕ◌, ==ℕ_iff, Bool-cases,
}
use m_agent.Errors.{Error}
use m_agent.Run.Snapshot.{RetryPolicy}
use m_agent.Run.Records.{RunRecord}
use m_agent.Control.{RunnerState, Schedule}
use m_agent.Tool.{ToolOutcome}
use m_agent.Tool.Attempt.{ToolStep, Pass, done, again}
use m_agent.Tool.Pass.{World, attempt}
use m_agent.Tool.Retries.{IsTransient}
use m_agent.Tool.Passes.{IsPass, attempt-IsPass}
use m_agent.Tool.Loop.{Finished, attempts}

-- Fuel for the attempts that the policy allows after `count` of them.
abbrev pub IsEnough : Option RetryPolicy → ℕ → ℕ → Type 0
IsEnough policy fuel count =
    (0 < fuel) × ((p : RetryPolicy) → policy ≡ some p → p.max_attempts ≤ fuel + count)

-- What is dispatched while the number of calls goes from `n` to `n'`, after `count` attempts.
pub record IsBounded {D : Type 0} (w : ToolStep D) (count n n' : ℕ) : Type 0 where
  pub grows : n ≤ n'
  pub few :
      (n' ≤ suc n) ⊎ ((p : RetryPolicy) × (w.policy ≡ some p) × (n' + count ≤ n + p.max_attempts))
  -- Every call but the last raised a TRANSIENT failure.
  pub transients : (i : ℕ) → n ≤ i → suc i < n' → IsTransient (w.tools.answer i w.call)

pub Pass-cases :
    (r : Result Error Pass)
    → ((e : Error) × (r ≡ err e))
      ⊎ (((run : RunRecord) × (outcome : Option ToolOutcome) × (r ≡ ok (done run outcome)))
          ⊎ ((run : RunRecord) × (r ≡ ok (again run))))
Pass-cases (err e) = inl (e, refl)
Pass-cases (ok (done run outcome)) = inr (inl (run, outcome, refl))
Pass-cases (ok (again run)) = inr (inr (run, refl))

module _ {D : Type 0} (w : ToolStep D) where
  pub once : (count n n' : ℕ) → n ≤ n' → n' ≤ suc n → IsBounded w count n n'
  once count n n' grows few = record {
    grows = grows;
    few = inl few;
    transients = λ i low high. absurd (omega arith);
  }

  pass-IsBounded :
      (count n : ℕ) (result : Result Error Pass × World)
      → IsPass w (suc count) n result
      → IsBounded w count n result.1.1
  pass-IsBounded count n result pass = elim pass.calls [
    | inl none_made ↦ once count n result.1.1 (omega arith) (omega arith)
    | inr (one, _) ↦ once count n result.1.1 (omega arith) (omega arith)
  ]

  -- A pass that is followed by others.
  chain :
      (count n n' : ℕ) (result : Result Error Pass × World) (run' : RunRecord)
      → IsPass w (suc count) n result
      → result.0 ≡ ok (again run')
      → IsBounded w (suc count) result.1.1 n'
      → IsBounded w count n n'
  chain count n n' result run' pass goes_on rest =
      let (p, is_p, room) = pass.allowed run' goes_on in
      elim pass.calls [
        | inl none_made ↦ record {
          grows = ground (arith, rest.grows);
          few = elim rest.few [
            | inl few ↦ inr (p, is_p, omega arith)
            | inr (q, is_q, few) ↦ inr (q, is_q, omega arith)
          ];
          transients = λ i low high. rest.transients i (omega arith) high;
        }
        | inr (one, transient) ↦ record {
          grows = omega (arith, rest.grows);
          few = elim rest.few [
            | inl few ↦ inr (p, is_p, omega arith)
            | inr (q, is_q, few) ↦ inr (q, is_q, omega arith)
          ];
          transients = λ i low high. elim (Bool-cases (n ==ℕ i)) [
            | inl first ↦
                subst (λ k. IsTransient (w.tools.answer k w.call)) ((==ℕ_iff n i).0 first)
                  (transient run' goes_on)
            | inr later ↦ rest.transients i (ground (arith, one)) high
          ];
        }
      ]

  -- The outcome of the loop, and what it has dispatched.
  pub record IsLimited (count n : ℕ) (result : Result Error Finished × World) : Type 0 where
    pub finishes : (r : Finished) → result.0 ≡ ok r → is_some r ≡ true
    pub bounded : IsBounded w count n result.1.1

  pub attempts-IsLimited :
      (m : ℕ → Schedule) (fuel count n : ℕ) (run : RunRecord) (st : RunnerState)
      → IsEnough w.policy fuel count
      → IsLimited count n (attempts w m fuel count run (st, n))
  unfolding attempts
  attempts-IsLimited m zero count n run st (positive, _) = absurd (omega arith)
  attempts-IsLimited m (suc fuel) count n run st (positive, enough) =
      let result = attempt w (m (suc count)) (suc count) run (st, n) in
      let pass = attempt-IsPass w (suc count) n (m (suc count)) run st in
      elim (Pass-cases result.0) [
        | inl (e, raises) ↦
            let made : attempts w m (suc fuel) count run (st, n) ≡ (err e, result.1) =
              ground arith in
            subst (IsLimited count n) (sym made) (record {
              finishes = λ r h. absurd (ground arith);
              bounded = pass-IsBounded count n result pass;
            })
        | inr (inl (final, outcome, returns)) ↦
            let made : attempts w m (suc fuel) count run (st, n)
                ≡ (ok (some (final, outcome)), result.1) =
              ground arith in
            subst (IsLimited count n) (sym made) (record {
              finishes = λ r h. ground arith;
              bounded = pass-IsBounded count n result pass;
            })
        | inr (inr (run', goes_on)) ↦
            let made : attempts w m (suc fuel) count run (st, n)
                ≡ attempts w m fuel (suc count) run' result.1 =
              ground arith in
            let (p, is_p, room) = pass.allowed run' goes_on in
            let rest = attempts-IsLimited m fuel (suc count) result.1.1 run' result.1.0 (
              (let most = enough p is_p in omega arith),
              λ q is_q. (let most = enough q is_q in omega arith),
            ) in
            subst (IsLimited count n) (sym made) (record {
              finishes = rest.finishes;
              bounded =
                  chain count n (attempts w m fuel (suc count) run' result.1).1.1 result run' pass
                    goes_on rest.bounded;
            })
      ]
