-- ===== src/Run/Payload/Stored.antt =====
-- The codec boundary of m_agent/_codec.py, and the stored metadata of m_agent/_store.py.
use m_agent.Base.{
  ℕ, String, ◌≡◌, ◌↔◌, Bool, true, false, Option, List, arith, Eq, ◌==◌, String_eq, ==_iff, Result,
  ok,
}
use m_agent.Errors.{Error}
use m_agent.Run.Status.{RunStatus}
use m_agent.Run.Snapshot.{ModelPurpose, DefinitionSnapshot}
use m_agent.Run.Records.{
  ConversationMessage, RunRecord, StepType, StepStatus, FailureClassification, ModelUsage,
  StepAttempt, StepCheckpoint,
}

abbrev pub Bytes : Type 0
Bytes = List ℕ

pub record Serialization : Type 0 where
  pub encode : String → Bytes
  pub decode : Bytes → Result Error String
  pub dump_snapshot : DefinitionSnapshot → String
  pub load_snapshot : String → Result Error DefinitionSnapshot
  pub dump_history : List ConversationMessage → String
  pub load_history : String → Result Error (List ConversationMessage)

-- What the documentation of the codec and of the two JSON layers promises.
pub record IsLossless (p : Serialization) : Type 0 where
  pub decode-encode : (text : String) → p.decode (p.encode text) ≡ ok text
  pub load-dump_snapshot : (x : DefinitionSnapshot) → p.load_snapshot (p.dump_snapshot x) ≡ ok x
  pub load-dump_history : (h : List ConversationMessage) → p.load_history (p.dump_history h) ≡ ok h

-- The names of the payload fields: four constants and three families.
pub data Field : Type 0 where
  run_input run_output run_snapshot run_history : Field
  attempt_output attempt_error checkpoint_output : String → Field

abbrev pub field_beq : Field → Field → Bool
field_beq run_input run_input = true
field_beq run_output run_output = true
field_beq run_snapshot run_snapshot = true
field_beq run_history run_history = true
field_beq (attempt_output a) (attempt_output b) = a == b
field_beq (attempt_error a) (attempt_error b) = a == b
field_beq (checkpoint_output a) (checkpoint_output b) = a == b
field_beq _ _ = false

pub field_beq_iff : (a b : Field) → (field_beq a b ≡ true) ↔ (a ≡ b)
field_beq_iff (attempt_output a) (attempt_output b) = ground (arith, ==_iff a b)
field_beq_iff (attempt_error a) (attempt_error b) = ground (arith, ==_iff a b)
field_beq_iff (checkpoint_output a) (checkpoint_output b) = ground (arith, ==_iff a b)
field_beq_iff a b = ground arith

instance abbrev pub Field_eq : Eq Field
Field_eq = record { equal = field_beq; equal_iff = field_beq_iff }

-- `_StoredRun`: the metadata of a Run, with no input, output or history.
pub record StoredRun : Type 0 where
  pub run_id : String
  pub definition_id : String
  pub definition_version : String
  pub status : RunStatus
  pub snapshot : Option DefinitionSnapshot
  pub version : ℕ
  pub waiting_reason : Option String
  pub waiting_step_id : Option String
  pub error_code : Option String
  pub lease_owner : Option String
  pub lease_expires_at : Option ℕ
  pub created_at : ℕ
  pub updated_at : ℕ

-- `_StoredRun.to_record`
unfoldable pub run_to_record :
    StoredRun
    → String
    → Option String
    → Option DefinitionSnapshot
    → List ConversationMessage
    → RunRecord
run_to_record s input output snapshot history = record {
  run_id = s.run_id;
  definition_id = s.definition_id;
  definition_version = s.definition_version;
  input = input;
  history = history;
  status = s.status;
  snapshot = snapshot;
  output = output;
  waiting_reason = s.waiting_reason;
  waiting_step_id = s.waiting_step_id;
  error_code = s.error_code;
  version = s.version;
  lease_owner = s.lease_owner;
  lease_expires_at = s.lease_expires_at;
  created_at = s.created_at;
  updated_at = s.updated_at;
}

-- `_StoredAttempt`. An enumeration stands for its value string.
pub record StoredAttempt : Type 0 where
  pub attempt_id : String
  pub step_id : String
  pub run_id : String
  pub status : StepStatus
  pub error : Option String
  pub classification : Option FailureClassification
  pub error_code : Option String
  pub model_purpose : Option ModelPurpose
  pub usage : Option ModelUsage
  pub created_at : ℕ

-- `_StoredAttempt.to_record`
unfoldable pub attempt_to_record : StoredAttempt → Option String → Option String → StepAttempt
attempt_to_record s output error = record {
  attempt_id = s.attempt_id;
  step_id = s.step_id;
  run_id = s.run_id;
  status = s.status;
  output = output;
  error = error;
  classification = s.classification;
  error_code = s.error_code;
  model_purpose = s.model_purpose;
  usage = s.usage;
  created_at = s.created_at;
}

-- `_StoredCheckpoint`
pub record StoredCheckpoint : Type 0 where
  pub run_id : String
  pub step_id : String
  pub attempt_id : String
  pub step_type : StepType
  pub created_at : ℕ

-- `_StoredCheckpoint.to_record`
unfoldable pub checkpoint_to_record : StoredCheckpoint → String → StepCheckpoint
checkpoint_to_record s output = record {
  run_id = s.run_id;
  step_id = s.step_id;
  attempt_id = s.attempt_id;
  step_type = s.step_type;
  output = output;
  created_at = s.created_at;
}
