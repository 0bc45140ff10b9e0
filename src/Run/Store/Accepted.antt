-- ===== src/Run/Store/Accepted.antt =====
-- Over a codec that refuses no text, the writes are those of Lifecycle and Steps.
use m_agent.Base.{
  ℕ, String, Option, none, List, [], ◌∷◌, ◌≡◌, refl, ap, arith, inl, inr, is_some, String_eq, ok,
  Bool-cases, Result-cases,
}
use m_agent.Base.Dict.{get, get_or}
use m_agent.Run.Status.{validate_transition}
use m_agent.Run.Records.{RunRecord, StepRecord, StepAttempt, StepCheckpoint}
use m_agent.Run.Payload.{Serialization}
use m_agent.Run.Store.{RunStore, put_run, put_payloads}
use m_agent.Run.Store.Lifecycle.{Transition, create_run, transition_run, transitioned, output_field}
use m_agent.Run.Store.Steps.{
  put_step, is_reservation, default_attempts, budget_exhausted, record_attempt, record_checkpoint,
  reserve_model_attempt,
}
use m_agent.Run.Store.Guard.{require_current-cases, check_lease_if-cases, check_lease-cases}
use m_agent.Run.Store.Calls.{
  Call, forget, perform, create, transition, attempt, reserve, checkpoint,
}
use m_agent.Run.Store.Encoding.{
  Refusal, given, snapshot_text, run_texts, attempt_texts, first_refusal, encode_all,
  create_encoding, transition_encoding, attempt_encoding, reserve_encoding, checkpoint_encoding,
  perform_encoding,
}

module _ (p : Serialization) (refuses : Refusal)
    (accepts : (text : String) → refuses text ≡ none) where
  no_refusal : (texts : List String) → first_refusal refuses texts ≡ none
  unfolding first_refusal
  no_refusal [] = refl
  no_refusal (text ∷ texts) = ground (arith, accepts text, no_refusal texts)

  encoded : (texts : List String) (s : RunStore) → encode_all refuses texts s ≡ (ok tt, s)
  unfolding encode_all
  encoded texts s = ground (arith, no_refusal texts)

  create_encoding-accepted :
      (run : RunRecord) (s : RunStore) → create_encoding p refuses run s ≡ create_run p run s
  unfolding create_encoding create_run
  create_encoding-accepted run s = elim (Bool-cases (is_some (get run.run_id s.runs))) [
    | inl taken ↦ ground arith
    | inr fresh ↦ ground (arith, encoded (run_texts p run) s)
  ]

  attempt_encoding-accepted :
      (a : StepAttempt) (v : ℕ) (owner : Option String) (now : ℕ) (s : RunStore)
      → attempt_encoding p refuses a v owner now s ≡ record_attempt p a v owner now s
  unfolding attempt_encoding record_attempt
  attempt_encoding-accepted a v owner now s = elim (require_current-cases a.run_id v s) [
    | inr (e, raises) ↦ ground arith
    | inl (stored, c) ↦ elim (check_lease_if-cases stored now s owner) [
      | inr raises ↦ ground (arith, c.returns)
      | inl (lease, returns) ↦ ground (arith, c.returns, encoded (attempt_texts a) s)
    ]
  ]

  checkpoint_encoding-accepted :
      (x : StepCheckpoint) (v : ℕ) (owner : Option String) (now : ℕ) (s : RunStore)
      → checkpoint_encoding p refuses x v owner now s ≡ record_checkpoint p x v owner now s
  unfolding checkpoint_encoding record_checkpoint
  checkpoint_encoding-accepted x v owner now s = elim (require_current-cases x.run_id v s) [
    | inr (e, raises) ↦ ground arith
    | inl (stored, c) ↦ elim (check_lease_if-cases stored now s owner) [
      | inr raises ↦ ground (arith, c.returns)
      | inl (lease, returns) ↦ ground (arith, c.returns, encoded (x.output ∷ []) s)
    ]
  ]

  transition_encoding-accepted :
      (r : String) (v : ℕ) (t : Transition) (now u : ℕ) (s : RunStore)
      → transition_encoding p refuses r v t now u s ≡ transition_run p r v t now u s
  unfolding transition_encoding transition_run
  transition_encoding-accepted r v t now u s = elim (require_current-cases r v s) [
    | inr (e, raises) ↦ ground arith
    | inl (stored, c) ↦ elim (check_lease_if-cases stored now s t.lease_owner) [
      | inr raises ↦ ground (arith, c.returns)
      | inl (lease, returns) ↦ elim (Result-cases (validate_transition stored.status t.status)) [
        | inr (e, illegal) ↦ ground (arith, c.returns)
        | inl (done, legal) ↦
            let moved = (put_run r (transitioned stored t u) s).1 in
            let kept = (put_payloads r (output_field p t.output) moved).1 in
            ground (
              arith,
              c.returns,
              encoded (given t.output) moved,
              encoded (snapshot_text p t.snapshot) kept,
            )
      ]
    ]
  ]

  reserve_encoding-accepted :
      (x : StepRecord) (a : StepAttempt) (run_max purpose_max : Option ℕ) (v : ℕ) (owner : String)
      (now : ℕ) (s : RunStore)
      → reserve_encoding p refuses x a run_max purpose_max v owner now s
        ≡ reserve_model_attempt p x a run_max purpose_max v owner now s
  unfolding reserve_encoding reserve_model_attempt
  reserve_encoding-accepted x a run_max purpose_max v owner now s =
      elim (Bool-cases (is_reservation x a)) [
        | inr misfit ↦ ground arith
        | inl fit ↦ elim (require_current-cases a.run_id v s) [
          | inr (e, raises) ↦ ground arith
          | inl (stored, c) ↦ elim (check_lease-cases stored now s owner) [
            | inr raises ↦ ground (arith, c.returns)
            | inl (held, returns) ↦
                let begun = default_attempts a.run_id s in
                elim (Bool-cases (
                  budget_exhausted run_max purpose_max a.model_purpose
                    (get_or a.run_id begun.attempts []))) [
                      | inl full ↦ ground (arith, c.returns)
                      | inr free ↦
                          ground (arith, c.returns, encoded (attempt_texts a) (put_step x begun))
                    ]
          ]
        ]
      ]

  -- Over a codec that refuses no text, every call is the one of the serialization alone.
  perform_encoding-perform :
      (call : Call) (s : RunStore) → perform_encoding p refuses call s ≡ perform p call s
  unfolding perform_encoding perform
  perform_encoding-perform (create run) s = ap forget (create_encoding-accepted run s)
  perform_encoding-perform (transition r v t now u) s =
      ap forget (transition_encoding-accepted r v t now u s)
  perform_encoding-perform (attempt a v owner now) s =
      ap forget (attempt_encoding-accepted a v owner now s)
  perform_encoding-perform (reserve x a run_max purpose_max v owner now) s =
      ap forget (reserve_encoding-accepted x a run_max purpose_max v owner now s)
  perform_encoding-perform (checkpoint x v owner now) s =
      ap forget (checkpoint_encoding-accepted x v owner now s)
  perform_encoding-perform call s = refl
