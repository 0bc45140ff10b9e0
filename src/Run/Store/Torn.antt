-- ===== src/Run/Store/Torn.antt =====
-- What a write leaves behind where it raises, over a codec that may refuse a text.
use m_agent.Base.{ℕ, String, some, ◌≡◌, ◌⊎◌, String_eq, Result, ok, err}
use m_agent.Base.Dict.{get}
use m_agent.Errors.{Error}
use m_agent.Run.Status.{validate_transition}
use m_agent.Run.Payload.{Serialization, IsLossless, StoredRun}
use m_agent.Run.Store.{RunStore, put_run, put_payloads}
use m_agent.Run.Store.Lifecycle.{Transition, transitioned, output_field}
use m_agent.Run.Store.Steps.{default_attempts, put_step}
use m_agent.Run.Store.Invariant.{IsValid}
use m_agent.Run.Store.Calls.{Call, perform, transition, reserve}
use m_agent.Run.Store.Encoding.{Refusal, given, snapshot_text, attempt_texts, first_refusal}

module _ (p : Serialization) (refuses : Refusal) where
  -- The metadata of a transition has been written, but not its output, or not its snapshot.
  pub record IsHalfMoved (r : String) (v : ℕ) (t : Transition) (u : ℕ) (s : RunStore) (e : Error)
      (s' : RunStore) : Type 0 where
    pub stored : StoredRun
    pub found : get r s.runs ≡ some stored
    pub version : stored.version ≡ v
    pub legal : validate_transition stored.status t.status ≡ ok tt
    pub left :
        ((first_refusal refuses (given t.output) ≡ some e)
          × (s' ≡ (put_run r (transitioned stored t u) s).1))
        ⊎ ((first_refusal refuses (snapshot_text p t.snapshot) ≡ some e)
            × (s'
                ≡ (put_payloads r
                    (output_field p t.output)
                    (put_run r (transitioned stored t u) s).1).1))

  -- What is left of a call that has begun to write: a transition, or a reservation whose step is
  -- written and whose attempt is not.
  abbrev pub IsTorn : Call → RunStore → Error → RunStore → Type 0
  IsTorn (transition r v t now u) s e s' = IsHalfMoved r v t u s e s'
  IsTorn (reserve step a run_max purpose_max v owner now) s e s' =
      (first_refusal refuses (attempt_texts a) ≡ some e)
      × (s' ≡ put_step step (default_attempts a.run_id s))
  IsTorn _ s e s' = ⊥

  Left : {A : Type 0} → (Error → RunStore → Type 0) → RunStore → Result Error A × RunStore → Type 0
  Left torn s result = (e : Error) → result.0 ≡ err e → (result.1 ≡ s) ⊎ torn e result.1

module _ (p : Serialization) (refuses : Refusal) (lossless : IsLossless p) (s : RunStore)
    (valid : IsValid p s) where
  -- What a call over a codec that encodes all texts does where it raises.
  abbrev IsAtomic : Call → Type 0
  IsAtomic call = (e : Error) → (perform p call s).0 ≡ err e → (perform p call s).1 ≡ s

  abbrev TornOf : Call → Error → RunStore → Type 0
  TornOf call e s' = IsTorn p refuses call s e s'
