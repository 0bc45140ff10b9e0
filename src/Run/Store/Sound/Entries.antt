-- ===== src/Run/Store/Sound/Entries.antt =====
-- Steps, attempts, reservations, checkpoints and policy decisions: they leave every Run as it is.
use m_agent.Base.{
  ℕ, String, ◌≡◌, refl, ◌⊎◌, Bool, true, false, Option, some, [], arith, inl, inr, Bool-cases,
  ==-cases, String_eq, pair_eq, Result, ok, err,
}
use m_agent.Base.Dict.{get, get_or}
use m_agent.Errors.{Error, lease_not_held, value_error}
use m_agent.Run.Records.{StepRecord, StepAttempt, StepCheckpoint, PolicyDecisionRecord}
use m_agent.Run.Payload.{
  Bytes, Field, Field_eq, Fields, Serialization, StoredRun, StoredAttempt, run_input, run_output,
  run_snapshot, run_history, attempt_output, attempt_error, checkpoint_output, split_attempt,
  split_checkpoint, attempt_to_record, checkpoint_to_record,
}
use m_agent.Run.Store.{RunStore, require_current, check_lease_if, put_fields, put_payloads}
use m_agent.Run.Store.Steps.{
  record_step, record_attempt, reserve_model_attempt, record_checkpoint, record_policy_decision,
  is_reservation, budget_exhausted, default_attempts, reserve_if, put_step, append_attempt,
}
use m_agent.Run.Store.Reads.{overlay, get-put_fields, get-put_fields_ne}
use m_agent.Run.Store.Guard.{require_current-cases, check_lease_if-cases, check_lease-cases}
use m_agent.Run.Store.Invariant.{IsValid, IsRunField, SamePayloads, get_run_frame, IsValid-payloads}
use m_agent.Run.Store.Evolution.{Sound, Sound-by, Sound-unchanged, Evolves-same}

-- The fields that a list of writes touches are none of a record's own.
abbrev IsEntry : Fields → Type 0
IsEntry fields =
    (field : Field)
    → IsRunField field
    → (before : Option Bytes) → overlay field fields before ≡ before

module _ (p : Serialization) (s s' : RunStore) (r : String) (stored : StoredRun)
    (fields : Fields) where
  same_payloads :
      s'.payloads ≡ put_fields r fields s.payloads
      → IsEntry fields
      → (q : String) → SamePayloads q s s'
  same_payloads written entry q field own = elim (==-cases r q) [
    | inl (e, _) ↦ rw (written, ← e, get-put_fields r field fields s.payloads) (entry field own _)
    | inr (n, _) ↦ rw (written, get-put_fields_ne r q field fields s.payloads n) refl
  ]

  entry-Sound :
      {A : Type 0} (a : A)
      → get r s.runs ≡ some stored
      → s'.runs ≡ s.runs
      → s'.payloads ≡ put_fields r fields s.payloads
      → IsEntry fields
      → IsValid p s
      → Sound p s (ok a, s')
  entry-Sound a found runs written entry valid = record {
    atomic = λ e h. cc;
    valid =
        IsValid-payloads p s s' r stored found runs (same_payloads written entry)
          (λ q field n. rw (written, get-put_fields_ne r q field fields s.payloads n) refl) valid;
    evolves =
        Evolves-same p s s'
          (λ q. get_run_frame p s s' q (rw runs refl) (same_payloads written entry q));
  }

attempt-IsEntry : (p : Serialization) (a : StepAttempt) → IsEntry (split_attempt p a).1
unfolding split_attempt
attempt-IsEntry p a run_input own before = ground arith
attempt-IsEntry p a run_output own before = ground arith
attempt-IsEntry p a run_snapshot own before = ground arith
attempt-IsEntry p a run_history own before = ground arith
attempt-IsEntry p a (attempt_output x) own before = absurd own
attempt-IsEntry p a (attempt_error x) own before = absurd own
attempt-IsEntry p a (checkpoint_output x) own before = absurd own

checkpoint-IsEntry : (p : Serialization) (c : StepCheckpoint) → IsEntry (split_checkpoint p c).1
unfolding split_checkpoint
checkpoint-IsEntry p c run_input own before = refl
checkpoint-IsEntry p c run_output own before = refl
checkpoint-IsEntry p c run_snapshot own before = refl
checkpoint-IsEntry p c run_history own before = refl
checkpoint-IsEntry p c (attempt_output x) own before = absurd own
checkpoint-IsEntry p c (attempt_error x) own before = absurd own
checkpoint-IsEntry p c (checkpoint_output x) own before = absurd own

module _ {A : Type 0} (p : Serialization) (s : RunStore) (valid : IsValid p s) (r : String) (v : ℕ)
    (writer : Option String) (now : ℕ) (call : Result Error A × RunStore) where
  -- What a method with the usual checks does before them, and after them.
  abbrev Goes : Fields → Type 0
  Goes fields =
      (stored : StoredRun)
      → require_current r v s ≡ (ok stored, s)
      → check_lease_if stored writer now s ≡ (ok tt, s)
      → ((a : A) × (call.0 ≡ ok a))
        × (call.1.runs ≡ s.runs)
        × (call.1.payloads ≡ put_fields r fields s.payloads)

  abbrev Stops : Type 0
  Stops =
      (e : Error)
      → (require_current r v s ≡ (err e, s))
        ⊎ ((stored : StoredRun) × (require_current r v s ≡ (ok stored, s))
            × (check_lease_if stored writer now s ≡ (err e, s)))
      → call ≡ (err e, s)

  guarded-Sound : (fields : Fields) → IsEntry fields → Stops → Goes fields → Sound p s call
  guarded-Sound fields entry stops goes = elim (require_current-cases r v s) [
    | inr (e, raises) ↦ Sound-unchanged p s call (err e) (stops e (inl raises)) valid
    | inl (stored, c) ↦ elim (check_lease_if-cases stored now s writer) [
      | inr raises ↦
          Sound-unchanged p s call (err lease_not_held)
            (stops lease_not_held (inr (stored, c.returns, raises))) valid
      | inl (lease, returns) ↦
          let ((a, result), runs, payloads) = goes stored c.returns returns in
          Sound-by p s call (ok a, call.1) (ground arith)
            (entry-Sound p s call.1 r stored fields a c.found runs payloads entry valid)
    ]
  ]

no-IsEntry : IsEntry []
no-IsEntry f own before = refl

-- A reservation returns, and touches neither a Run nor a payload.
reserve_if-frame :
    (shut : Bool) (step : StepRecord) (a : StepAttempt) (stored : StoredAttempt) (r : String)
    (s : RunStore)
    → let (result, s') = reserve_if shut step a stored (default_attempts r s) in
      (b : Bool) × (result ≡ ok b) × (s'.runs ≡ s.runs) × (s'.payloads ≡ put_fields r [] s.payloads)
unfolding default_attempts put_step append_attempt put_fields
reserve_if-frame true step a stored r s = (false, refl, refl, refl)
reserve_if-frame false step a stored r s = (true, refl, refl, refl)

module _ (p : Serialization) (v : ℕ) (now : ℕ) (s : RunStore) (valid : IsValid p s) where
  pub record_step-Sound :
      (step : StepRecord) (writer : Option String) → Sound p s (record_step step v writer now s)
  unfolding record_step put_fields
  record_step-Sound step writer =
      guarded-Sound p s valid step.run_id v writer now (record_step step v writer now s) []
        no-IsEntry (λ e h. ground arith)
        λ stored c l. ((step, ground arith), ground arith, ground arith)

  pub record_policy_decision-Sound :
      (d : PolicyDecisionRecord) (writer : Option String)
      → Sound p s (record_policy_decision d v writer now s)
  unfolding record_policy_decision put_fields
  record_policy_decision-Sound d writer =
      guarded-Sound p s valid d.run_id v writer now (record_policy_decision d v writer now s) []
        no-IsEntry (λ e h. ground arith)
        λ stored c l. ((d, ground arith), ground arith, ground arith)

  pub record_attempt-Sound :
      (a : StepAttempt) (writer : Option String) → Sound p s (record_attempt p a v writer now s)
  unfolding record_attempt put_payloads
  record_attempt-Sound a writer =
      guarded-Sound p s valid a.run_id v writer now (record_attempt p a v writer now s)
        (split_attempt p a).1 (attempt-IsEntry p a) (λ e h. ground arith)
        λ stored c l. (
          (attempt_to_record (split_attempt p a).0 a.output a.error, ground arith),
          ground arith,
          ground arith,
        )

  pub record_checkpoint-Sound :
      (k : StepCheckpoint) (writer : Option String)
      → Sound p s (record_checkpoint p k v writer now s)
  unfolding record_checkpoint put_payloads
  record_checkpoint-Sound k writer =
      guarded-Sound p s valid k.run_id v writer now (record_checkpoint p k v writer now s)
        (split_checkpoint p k).1 (checkpoint-IsEntry p k) (λ e h. ground arith)
        λ stored c l. (
          (checkpoint_to_record (split_checkpoint p k).0 k.output, ground arith),
          ground arith,
          ground arith,
        )

  pub reserve_model_attempt-Sound :
      (step : StepRecord) (a : StepAttempt) (run_max purpose_max : Option ℕ) (owner : String)
      → Sound p s (reserve_model_attempt p step a run_max purpose_max v owner now s)
  unfolding reserve_model_attempt
  reserve_model_attempt-Sound step a run_max purpose_max owner =
      elim (Bool-cases (is_reservation step a)) [
        | inr misfit ↦ Sound-unchanged p s _ (err value_error) (ground arith) valid
        | inl fit ↦ elim (require_current-cases a.run_id v s) [
          | inr (e, raises) ↦ Sound-unchanged p s _ (err e) (ground arith) valid
          | inl (stored, c) ↦ elim (check_lease-cases stored now s owner) [
            | inr raises ↦ Sound-unchanged p s _ (err lease_not_held) (ground arith) valid
            | inl (held, returns) ↦
                let shut =
                  budget_exhausted run_max purpose_max a.model_purpose
                    (get_or a.run_id (default_attempts a.run_id s).attempts []) in
                let stored_attempt = (split_attempt p a).0 in
                let (b, result, runs, payloads) =
                  reserve_if-frame shut step a stored_attempt a.run_id s in
                Sound-by p s _
                  (ok b, (reserve_if shut step a stored_attempt (default_attempts a.run_id s)).1)
                  (ground arith)
                  (entry-Sound p s _ a.run_id stored [] b c.found runs payloads no-IsEntry valid)
          ]
        ]
      ]
