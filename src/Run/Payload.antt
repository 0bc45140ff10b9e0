-- ===== src/Run/Payload.antt =====
-- The split of a record into metadata and encoded payloads in m_agent/_store.py, and the codec
-- boundary of m_agent/_codec.py. The codec, and the JSON text that pydantic and the json module
-- write and read, are a parameter.
mod Stored
unfoldable pub use Stored.*
use m_agent.Base.{
  ℕ, String, ◌≡◌, ◌↔◌, Bool, true, false, Option, none, some, List, [], ◌∷◌, ◌++◌, arith, Eq, ◌==◌,
  String_eq, ==_iff, Result, ok, err,
}
use m_agent.Base.Fallible.{◌>>=◌}
use m_agent.Errors.{Error, value_error}
use m_agent.Run.Status.{RunStatus}
use m_agent.Run.Snapshot.{ModelPurpose, DefinitionSnapshot}
use m_agent.Run.Records.{
  ConversationMessage, RunRecord, StepType, StepStatus, FailureClassification, ModelUsage,
  StepAttempt, StepCheckpoint,
}
use m_agent.Run.Failure.{sanitize_error_code}

-- `_snapshot_metadata`: the instructions are blanked.
unfoldable pub snapshot_metadata : Option DefinitionSnapshot → Option DefinitionSnapshot
snapshot_metadata none = none
snapshot_metadata (some x) = some (record x { instructions = "" })

abbrev pub Fields : Type 0
Fields = List (Field × Bytes)

-- One entry of a payload dict, written only if there is a value.
abbrev pub when_some : {A : Type 0} → Field → (A → Bytes) → Option A → Fields
when_some field f none = []
when_some field f (some a) = (field, f a) ∷ []

-- The payload entry of a history, written only if it is not empty.
abbrev pub history_payload : Serialization → List ConversationMessage → Fields
history_payload p [] = []
history_payload p (m ∷ ms) = (run_history, p.encode (p.dump_history (m ∷ ms))) ∷ []

-- `_split_run`
unfoldable pub split_run : Serialization → RunRecord → StoredRun × Fields
split_run p run = (
  record {
    run_id = run.run_id;
    definition_id = run.definition_id;
    definition_version = run.definition_version;
    status = run.status;
    snapshot = snapshot_metadata run.snapshot;
    version = run.version;
    waiting_reason = run.waiting_reason;
    waiting_step_id = run.waiting_step_id;
    error_code = run.error_code;
    lease_owner = run.lease_owner;
    lease_expires_at = run.lease_expires_at;
    created_at = run.created_at;
    updated_at = run.updated_at;
  },
  (run_input, p.encode run.input)
      ∷ (when_some run_output p.encode run.output
          ++ (when_some run_snapshot (λ x. p.encode (p.dump_snapshot x)) run.snapshot
              ++ history_payload p run.history)),
)

abbrev pub sanitized : Option String → Option String
sanitized none = none
sanitized (some code) = some (sanitize_error_code code)

-- `_split_attempt`
unfoldable pub split_attempt : Serialization → StepAttempt → StoredAttempt × Fields
split_attempt p a = (
  record {
    attempt_id = a.attempt_id;
    step_id = a.step_id;
    run_id = a.run_id;
    status = a.status;
    error = none;
    classification = a.classification;
    error_code = sanitized a.error_code;
    model_purpose = a.model_purpose;
    usage = a.usage;
    created_at = a.created_at;
  },
  when_some (attempt_output a.attempt_id) p.encode a.output
      ++ when_some (attempt_error a.attempt_id) p.encode a.error,
)

-- `_split_checkpoint`
unfoldable pub split_checkpoint : Serialization → StepCheckpoint → StoredCheckpoint × Fields
split_checkpoint p c = (
  record {
    run_id = c.run_id;
    step_id = c.step_id;
    attempt_id = c.attempt_id;
    step_type = c.step_type;
    created_at = c.created_at;
  },
  (checkpoint_output c.step_id, p.encode c.output) ∷ [],
)

-- `_restore_snapshot`: the payload is read only where the metadata has a snapshot.
unfoldable pub restore_snapshot :
    Serialization
    → Option DefinitionSnapshot
    → Option String
    → Result Error (Option DefinitionSnapshot)
restore_snapshot p none payload = ok none
restore_snapshot p (some metadata) none = err value_error
restore_snapshot p (some metadata) (some payload) = do x ← p.load_snapshot payload; ok (some x)

-- `_restore_history`
unfoldable pub restore_history :
    Serialization → Option String → Result Error (List ConversationMessage)
restore_history p none = ok []
restore_history p (some payload) = p.load_history payload
