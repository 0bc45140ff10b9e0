-- ===== src/Run/Store/Encoding.antt =====
-- The writes of `InMemoryRunStore` over a codec that may refuse a text. `refuses` is what
-- `codec.encode` raises for a text, or the writing of that text as JSON before it; a text that is
-- not refused is encoded as the serialization says.
use m_agent.Base.{
  ℕ, String, Bool, true, false, Option, none, some, List, [], ◌∷◌, ◌++◌, not, is_some, String_eq,
  Result,
}
use m_agent.Base.Dict.{get, get_or}
use m_agent.Base.Exec.{◌>>=◌, ◌>>◌, pure, raise, lift, gets, modify, raise_if}
use m_agent.Errors.{Error, value_error, duplicate_run}
use m_agent.Run.Status.{validate_transition}
use m_agent.Run.Snapshot.{DefinitionSnapshot}
use m_agent.Run.Records.{ConversationMessage, RunRecord, StepRecord, StepAttempt, StepCheckpoint}
use m_agent.Run.Payload.{Serialization, split_attempt}
use m_agent.Run.Store.{
  RunStore, Action, require_current, check_lease, check_lease_if, put_run, put_payloads,
}
use m_agent.Run.Store.Lifecycle.{
  Transition, create_run, transitioned, output_field, snapshot_field, read_record,
}
use m_agent.Run.Store.Steps.{
  is_reservation, default_attempts, budget_exhausted, put_step, append_attempt, record_attempt,
  record_checkpoint,
}
use m_agent.Run.Store.Calls.{
  Call, forget, perform, create, transition, attempt, reserve, checkpoint,
}

abbrev pub Refusal : Type 0
Refusal = String → Option Error

-- Texts that are there only sometimes.
abbrev pub given : Option String → List String
given none = []
given (some text) = text ∷ []

abbrev pub snapshot_text : Serialization → Option DefinitionSnapshot → List String
snapshot_text p none = []
snapshot_text p (some x) = p.dump_snapshot x ∷ []

abbrev history_text : Serialization → List ConversationMessage → List String
history_text p [] = []
history_text p (m ∷ ms) = p.dump_history (m ∷ ms) ∷ []

-- What `_split_run` encodes, in its order.
abbrev pub run_texts : Serialization → RunRecord → List String
run_texts p run =
    run.input ∷ (given run.output ++ (snapshot_text p run.snapshot ++ history_text p run.history))

-- What `_split_attempt` encodes.
abbrev pub attempt_texts : StepAttempt → List String
attempt_texts a = given a.output ++ given a.error

-- The first refusal.
unfoldable pub first_refusal : Refusal → List String → Option Error
first_refusal refuses [] = none
first_refusal refuses (text ∷ texts) =
    let rest = first_refusal refuses texts in elim (refuses text) [ none ↦ rest | some e ↦ some e ]

abbrev raise_some : Option Error → Action (Unit {0})
raise_some none = pure tt
raise_some (some e) = raise e

-- The texts are encoded, one after the other.
unfoldable pub encode_all : Refusal → List String → Action (Unit {0})
unfolding first_refusal
encode_all refuses texts = raise_some (first_refusal refuses texts)

module _ (p : Serialization) (refuses : Refusal) where
  -- `create_run`: all payloads are encoded before anything is written, and from there on it is
  -- that of a codec that encodes them.
  unfoldable pub create_encoding : RunRecord → Action RunRecord
  unfolding encode_all
  create_encoding run = do
    raise_if (is_some (← gets (λ s. get run.run_id s.runs))) duplicate_run
    encode_all refuses (run_texts p run)
    create_run p run

  -- `transition_run`: the metadata is written before the output is encoded, and both before the
  -- snapshot is.
  unfoldable pub transition_encoding : String → ℕ → Transition → ℕ → ℕ → Action RunRecord
  unfolding encode_all validate_transition transitioned put_run put_payloads read_record
  transition_encoding run_id expected_version t now updated_at = do
    current ← require_current run_id expected_version
    check_lease_if current t.lease_owner now
    lift (validate_transition current.status t.status)
    put_run run_id (transitioned current t updated_at)
    encode_all refuses (given t.output)
    put_payloads run_id (output_field p t.output)
    encode_all refuses (snapshot_text p t.snapshot)
    put_payloads run_id (snapshot_field p t.snapshot)
    result ← gets (λ s. read_record p s run_id (transitioned current t updated_at))
    lift result

  -- `record_attempt`: the payloads are encoded before anything is written.
  unfoldable pub attempt_encoding : StepAttempt → ℕ → Option String → ℕ → Action StepAttempt
  unfolding encode_all
  attempt_encoding a expected_version lease_owner now = do
    current ← require_current a.run_id expected_version
    check_lease_if current lease_owner now
    encode_all refuses (attempt_texts a)
    record_attempt p a expected_version lease_owner now

  abbrev pub reserve_encoding_if : Bool → StepRecord → StepAttempt → Action Bool
  reserve_encoding_if true step a = pure false
  reserve_encoding_if false step a = do
    modify (put_step step)
    encode_all refuses (attempt_texts a)
    modify (append_attempt a.run_id (split_attempt p a).0)
    pure true

  -- `reserve_model_attempt`: the step is written before the attempt is encoded.
  unfoldable pub reserve_encoding :
      StepRecord → StepAttempt → Option ℕ → Option ℕ → ℕ → String → ℕ → Action Bool
  unfolding encode_all is_reservation default_attempts budget_exhausted put_step append_attempt
      split_attempt
  reserve_encoding step a run_max purpose_max expected_version lease_owner now = do
    raise_if (not (is_reservation step a)) value_error
    current ← require_current a.run_id expected_version
    check_lease current lease_owner now
    modify (default_attempts a.run_id)
    attempts ← gets (λ s. get_or a.run_id s.attempts [])
    reserve_encoding_if (budget_exhausted run_max purpose_max a.model_purpose attempts) step a

  -- `record_checkpoint`: the output is encoded before anything is written.
  unfoldable pub checkpoint_encoding :
      StepCheckpoint → ℕ → Option String → ℕ → Action StepCheckpoint
  unfolding encode_all
  checkpoint_encoding c expected_version lease_owner now = do
    current ← require_current c.run_id expected_version
    check_lease_if current lease_owner now
    encode_all refuses (c.output ∷ [])
    record_checkpoint p c expected_version lease_owner now

  -- A call over that codec; the other methods encode nothing.
  unfoldable pub perform_encoding : Call → RunStore → Result Error (Unit {0}) × RunStore
  unfolding create_encoding transition_encoding attempt_encoding reserve_encoding
      checkpoint_encoding perform
  perform_encoding (create run) s = forget (create_encoding run s)
  perform_encoding (transition r v t now u) s = forget (transition_encoding r v t now u s)
  perform_encoding (attempt a v owner now) s = forget (attempt_encoding a v owner now s)
  perform_encoding (reserve x a run_max purpose_max v owner now) s =
      forget (reserve_encoding x a run_max purpose_max v owner now s)
  perform_encoding (checkpoint c v owner now) s = forget (checkpoint_encoding c v owner now s)
  perform_encoding call s = perform p call s
