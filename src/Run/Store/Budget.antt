-- ===== src/Run/Store/Budget.antt =====
-- `reserve_model_attempt`: the budgets are checked and taken in one step.
use m_agent.Base.{
  ℕ, ◌+◌, ◌≤◌, String, ◌≡◌, refl, Bool, true, false, Option, none, some, [], ◌∷◌, ◌++◌, arith,
  String_eq, inl, inr, ==_refl, length, keep, length-keep_snoc, Result, ok, Bool-cases,
}
use m_agent.Base.Dict.{get_or, get-put}
use m_agent.Errors.{Error}
use m_agent.Run.Snapshot.{ModelPurpose}
use m_agent.Run.Records.{StepRecord, StepAttempt}
use m_agent.Run.Payload.{Serialization, StoredAttempt, split_attempt}
use m_agent.Run.Store.{RunStore}
use m_agent.Run.Store.Guard.{require_current-cases, check_lease-cases}
use m_agent.Run.Store.Steps.{
  ModelPurpose_eq, is_reservation, is_model_attempt, is_purpose_attempt, is_exhausted,
  budget_exhausted, default_attempts, put_step, append_attempt, reserve_if, reserve_model_attempt,
}

-- The number of model attempts of a Run, and of those with a purpose.
abbrev pub model_attempts : String → RunStore → ℕ
model_attempts r s = length (keep is_model_attempt (get_or r s.attempts []))

abbrev pub purpose_attempts : String → Option ModelPurpose → RunStore → ℕ
purpose_attempts r purpose s = length (keep (is_purpose_attempt purpose) (get_or r s.attempts []))

-- A maximum that is given is not exceeded.
abbrev pub IsWithin : Option ℕ → ℕ → Type 0
IsWithin none count = Unit
IsWithin (some maximum) count = count ≤ maximum

is_exhausted-IsWithin :
    (maximum : Option ℕ) (count : ℕ)
    → is_exhausted maximum count ≡ false
    → IsWithin maximum (count + 1)
unfolding is_exhausted
is_exhausted-IsWithin none count h = tt
is_exhausted-IsWithin (some maximum) count h = ground arith

module _ (p : Serialization) (step : StepRecord) (attempt : StepAttempt)
    (run_max purpose_max : Option ℕ) (v : ℕ) (owner : String) (now : ℕ) (s : RunStore) where
  abbrev reserved : Result Error Bool × RunStore
  reserved = reserve_model_attempt p step attempt run_max purpose_max v owner now s

  get_or-default :
      get_or attempt.run_id (default_attempts attempt.run_id s).attempts []
      ≡ get_or attempt.run_id s.attempts []
  unfolding default_attempts
  get_or-default = ground (
    arith,
    get-put attempt.run_id attempt.run_id (get_or attempt.run_id s.attempts []) s.attempts,
    ==_refl attempt.run_id,
  )

  get_or-append :
      (s' : RunStore) (stored : StoredAttempt)
      → get_or attempt.run_id (append_attempt attempt.run_id stored s').attempts []
        ≡ get_or attempt.run_id s'.attempts [] ++ stored ∷ []
  unfolding append_attempt
  get_or-append s' stored = ground (
    arith,
    get-put attempt.run_id attempt.run_id (get_or attempt.run_id s'.attempts [] ++ stored ∷ [])
        s'.attempts,
    ==_refl attempt.run_id,
  )

  abbrev shut : Bool
  shut =
      budget_exhausted run_max purpose_max attempt.model_purpose
        (get_or attempt.run_id s.attempts [])

  abbrev outcome : Result Error Bool × RunStore
  outcome =
      reserve_if shut step attempt (split_attempt p attempt).0 (default_attempts attempt.run_id s)

  -- A call that returns has passed its checks.
  reserve_model_attempt-returned :
      (b : Bool) → reserved.0 ≡ ok b → (is_reservation step attempt ≡ true) × (reserved ≡ outcome)
  unfolding reserve_model_attempt
  reserve_model_attempt-returned b h = elim (Bool-cases (is_reservation step attempt)) [
    | inr misfit ↦ absurd (ground arith)
    | inl fit ↦ elim (require_current-cases attempt.run_id v s) [
      | inr (e, raises) ↦ absurd (ground arith)
      | inl (stored, c) ↦ elim (check_lease-cases stored now s owner) [
        | inr raises ↦ absurd (ground arith)
        | inl (held, returns) ↦ (fit, ground (arith, get_or-default))
      ]
    ]
  ]

  abbrev stored : StoredAttempt
  stored = (split_attempt p attempt).0

  stored-counts :
      is_reservation step attempt ≡ true
      → (is_model_attempt stored ≡ true) × (is_purpose_attempt attempt.model_purpose stored ≡ true)
  unfolding is_reservation is_model_attempt is_purpose_attempt split_attempt
  stored-counts fit = (ground arith, ground (arith, ModelPurpose_eq.equal_iff))

  outcome-refused : shut ≡ true → outcome ≡ (ok false, default_attempts attempt.run_id s)
  outcome-refused e = ground arith

  outcome-taken :
      shut ≡ false
      → (outcome.0 ≡ ok true)
        × (get_or attempt.run_id outcome.1.attempts []
            ≡ get_or attempt.run_id s.attempts [] ++ stored ∷ [])
  unfolding put_step
  outcome-taken e = ground (
    arith,
    get_or-append (put_step step (default_attempts attempt.run_id s)) stored,
    get_or-default,
  )

  budget_exhausted-IsWithin :
      shut ≡ false
      → IsWithin run_max (model_attempts attempt.run_id s + 1)
        × IsWithin purpose_max (purpose_attempts attempt.run_id attempt.model_purpose s + 1)
  unfolding budget_exhausted
  budget_exhausted-IsWithin e = (
    is_exhausted-IsWithin run_max _ (ground arith),
    is_exhausted-IsWithin purpose_max _ (ground arith),
  )

  abbrev AttemptsAfter : Type 0
  AttemptsAfter =
      get_or attempt.run_id reserved.1.attempts []
      ≡ get_or attempt.run_id s.attempts [] ++ stored ∷ []

  reserve_model_attempt-taken :
      reserved.0 ≡ ok true → (shut ≡ false) × (is_reservation step attempt ≡ true) × AttemptsAfter
  reserve_model_attempt-taken h =
      let (fit, e) = reserve_model_attempt-returned true h in
      elim (Bool-cases shut) [
        | inl full ↦ absurd (ground (arith, e, h, outcome-refused full))
        | inr free ↦ (free, fit, rw e ((outcome-taken free).1))
      ]

  -- Where a reservation returns true, the attempts of the Run are exactly those before, in their
  -- order, and after them the one that is reserved; there is one more model attempt, and neither the
  -- number of these nor that of those with the same purpose exceeds its maximum.
  pub reserve_model_attempt-IsWithin :
      reserved.0 ≡ ok true
      → AttemptsAfter
        × (model_attempts attempt.run_id reserved.1 ≡ model_attempts attempt.run_id s + 1)
        × IsWithin run_max (model_attempts attempt.run_id reserved.1)
        × IsWithin purpose_max (purpose_attempts attempt.run_id attempt.model_purpose reserved.1)
  reserve_model_attempt-IsWithin h =
      let (free, fit, after) = reserve_model_attempt-taken h in
      let (is_model, is_purpose) = stored-counts fit in
      let (run_bound, purpose_bound) = budget_exhausted-IsWithin free in
      let runs = length-keep_snoc is_model_attempt (get_or attempt.run_id s.attempts []) stored in
      let purposes =
        length-keep_snoc (is_purpose_attempt attempt.model_purpose)
          (get_or attempt.run_id s.attempts []) stored in
      rw (after, runs, purposes, is_model, is_purpose) (refl, refl, run_bound, purpose_bound)

  -- It returns false only where a maximum is already reached, and then records nothing.
  reserve_model_attempt-refuses :
      reserved.0 ≡ ok false
      → (shut ≡ true)
        × (get_or attempt.run_id reserved.1.attempts [] ≡ get_or attempt.run_id s.attempts [])
        × (reserved.1.steps ≡ s.steps)
  unfolding default_attempts
  reserve_model_attempt-refuses h =
      let (fit, e) = reserve_model_attempt-returned false h in
      elim (Bool-cases shut) [
        | inr free ↦ absurd (ground (arith, e, h, outcome-taken free))
        | inl full ↦
            (full, rw (e, outcome-refused full) get_or-default, rw (e, outcome-refused full) refl)
      ]
