-- ===== src/Run/Store/Lifecycle.antt =====
-- Creation, reading and transition of a Run in `InMemoryRunStore`.
use m_agent.Base.{
  ℕ, ◌+◌, String, Option, none, some, [], ◌∷◌, ◌==◌, is_some, String_eq, pair_eq, Result, ok, err,
  if◌then◌else◌,
}
use m_agent.Base.Dict.{get}
use m_agent.Base.Fallible
use m_agent.Base.Exec.{◌>>=◌, ◌>>◌, lift, gets, raise_if}
use m_agent.Errors.{Error, value_error, duplicate_run}
use m_agent.Run.Status.{RunStatus, RunStatus_eq, waiting, validate_transition}
use m_agent.Run.Snapshot.{DefinitionSnapshot}
use m_agent.Run.Records.{RunRecord}
use m_agent.Run.Payload.{
  Field, Field_eq, Fields, run_input, run_output, run_snapshot, run_history, Serialization,
  StoredRun, run_to_record, snapshot_metadata, split_run, restore_snapshot, restore_history,
}
use m_agent.Run.Store.{
  RunStore, Action, require_current, check_lease_if, put_run, put_payloads, decode_some,
  read_payload,
}

-- The record of a Run from its metadata and the texts of its payloads; a record without an input
-- is refused by its validation.
unfoldable pub assemble :
    Serialization
    → StoredRun
    → Result Error (Option String)
    → Result Error (Option String)
    → Result Error (Option String)
    → Result Error (Option String)
    → Result Error RunRecord
unfolding run_to_record restore_snapshot restore_history
assemble p stored input output snapshot history = Fallible.◌>>=◌ input λ input'.
    Fallible.◌>>=◌ output λ output'. Fallible.◌>>=◌ snapshot λ payload.
      Fallible.◌>>=◌ (restore_snapshot p stored.snapshot payload) λ snapshot'.
        Fallible.◌>>=◌ history λ payload'. Fallible.◌>>=◌ (restore_history p payload') λ history'.
          elim input' [
            | none ↦ err value_error
            | some text ↦ ok (run_to_record stored text output' snapshot' history')
          ]

-- The same from the payload area.
unfoldable pub read_record : Serialization → RunStore → String → StoredRun → Result Error RunRecord
unfolding assemble read_payload
read_record p s run_id stored =
    assemble p stored (read_payload p s run_id run_input) (read_payload p s run_id run_output)
      (read_payload p s run_id run_snapshot) (read_payload p s run_id run_history)

-- `self._codec.decode(payloads[field]) if field in payloads else None`
unfoldable pub decode_field : Serialization → Fields → Field → Result Error (Option String)
unfolding decode_some
decode_field p fields field = decode_some p (get field fields)

unfoldable pub create_run : Serialization → RunRecord → Action RunRecord
unfolding split_run put_run put_payloads assemble decode_field
create_run p run = do
  raise_if (is_some (← gets (λ s. get run.run_id s.runs))) duplicate_run
  let (stored, payloads) = split_run p run
  put_run run.run_id stored
  put_payloads run.run_id payloads
  lift (
      assemble p stored (decode_field p payloads run_input) (decode_field p payloads run_output)
        (decode_field p payloads run_snapshot) (decode_field p payloads run_history))

unfoldable pub get_run : Serialization → String → RunStore → Result Error (Option RunRecord)
unfolding read_record
get_run p run_id s = elim (get run_id s.runs) [
  | none ↦ ok none
  | some stored ↦ Fallible.◌>>=◌ (read_record p s run_id stored) λ run. ok (some run)
]

-- The keyword arguments of `transition_run`.
pub record Transition : Type 0 where
  pub status : RunStatus
  pub snapshot : Option DefinitionSnapshot
  pub output : Option String
  pub waiting_reason : Option String
  pub waiting_step_id : Option String
  pub error_code : Option String
  pub lease_owner : Option String

abbrev pub only_waiting : RunStatus → Option String → Option String
only_waiting status value = if status == waiting then value else none

abbrev pub snapshot_after :
    Option DefinitionSnapshot → Option DefinitionSnapshot → Option DefinitionSnapshot
snapshot_after none current = current
snapshot_after (some x) current = snapshot_metadata (some x)

-- The metadata after a transition.
unfoldable pub transitioned : StoredRun → Transition → ℕ → StoredRun
unfolding snapshot_metadata
transitioned current t updated_at = record {
  run_id = current.run_id;
  definition_id = current.definition_id;
  definition_version = current.definition_version;
  status = t.status;
  snapshot = snapshot_after t.snapshot current.snapshot;
  version = current.version + 1;
  waiting_reason = only_waiting t.status t.waiting_reason;
  waiting_step_id = only_waiting t.status t.waiting_step_id;
  error_code = t.error_code;
  lease_owner = current.lease_owner;
  lease_expires_at = current.lease_expires_at;
  created_at = current.created_at;
  updated_at = updated_at;
}

abbrev pub output_field : Serialization → Option String → Fields
output_field p none = []
output_field p (some text) = (run_output, p.encode text) ∷ []

abbrev pub snapshot_field : Serialization → Option DefinitionSnapshot → Fields
snapshot_field p none = []
snapshot_field p (some x) = (run_snapshot, p.encode (p.dump_snapshot x)) ∷ []

-- `updated_at` is the reading of `utc_now`, which is not the store's clock.
unfoldable pub transition_run : Serialization → String → ℕ → Transition → ℕ → ℕ → Action RunRecord
unfolding validate_transition transitioned put_run put_payloads read_record
transition_run p run_id expected_version t now updated_at = do
  current ← require_current run_id expected_version
  check_lease_if current t.lease_owner now
  lift (validate_transition current.status t.status)
  put_run run_id (transitioned current t updated_at)
  put_payloads run_id (output_field p t.output)
  put_payloads run_id (snapshot_field p t.snapshot)
  result ← gets (λ s. read_record p s run_id (transitioned current t updated_at))
  lift result
