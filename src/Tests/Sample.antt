-- ===== src/Tests/Sample.antt =====
-- Concrete Runs and stores.
use m_agent.Base.{◌≡◌, refl, false, none, some, [], ◌∷◌, String_eq, pair_eq, ok}
use m_agent.Base.Dict.{get, put}
use m_agent.Run.Status.{created, running}
use m_agent.Run.Snapshot.{read_only, DefinitionSnapshot, primary}
use m_agent.Run.Records.{RunRecord, user, StepRecord, StepAttempt, model, running as step_running}
use m_agent.Run.Payload.{StoredRun, Field_eq, snapshot_metadata}
use m_agent.Run.Store.{RunStore, empty, require_current}
use m_agent.Run.Store.Lifecycle.{Transition, create_run, get_run}
use m_agent.Run.Store.Leases.{acquire_lease, is_held_by_other}
use m_agent.Run.Store.Invariant.{IsValid}
use m_agent.Run.Store.Create.{create_run-get_run, create_run-IsValid, IsIdle}
use m_agent.Run.Store.Trace.{empty-IsValid}
use m_agent.Tests.Layout.{plain, plain-IsLossless}

abbrev pub snapshot_1 : DefinitionSnapshot
snapshot_1 = record {
  definition_id = "assistant";
  version = "1";
  instructions = "be brief";
  model_execution_budget = some (record {
    run_max_attempts = 2;
    primary_max_attempts = 2;
    context_compression_max_attempts = 1;
    output_repair_max_attempts = 1;
  });
  has_context_provider = false;
  tool_declarations = record { name = "search"; effect = read_only } ∷ [];
  retry_policy = some (record { max_attempts = 2; delay = 0 });
  policy_identity = record { policy_id = "allow_all"; version = "1"; fingerprint = "builtin" };
}

abbrev pub run_1 : RunRecord
run_1 = record {
  run_id = "run-1";
  definition_id = "assistant";
  definition_version = "1";
  input = "hello";
  history = record { role = user; content = "hi" } ∷ [];
  status = created;
  snapshot = some snapshot_1;
  output = none;
  waiting_reason = none;
  waiting_step_id = none;
  error_code = none;
  version = 0;
  lease_owner = none;
  lease_expires_at = none;
  created_at = 1;
  updated_at = 1;
}

-- The store that holds this Run only.
abbrev pub store_1 : RunStore
store_1 = (create_run plain run_1 empty).1

pub empty_unknown : get_run plain "run-1" empty ≡ ok none
unfolding get_run empty get
empty_unknown = refl

pub run_1-IsIdle : IsIdle run_1
run_1-IsIdle n = (refl, refl)

pub store_1-IsValid : IsValid plain store_1
store_1-IsValid =
    create_run-IsValid plain plain-IsLossless run_1 empty run_1-IsIdle (empty-IsValid plain)

pub store_1-get_run : get_run plain "run-1" store_1 ≡ ok (some run_1)
store_1-get_run =
    (create_run-get_run plain plain-IsLossless run_1 empty (empty-IsValid plain) empty_unknown).1

abbrev pub start_1 : Transition
start_1 = record {
  status = running;
  snapshot = none;
  output = none;
  waiting_reason = none;
  waiting_step_id = none;
  error_code = none;
  lease_owner = none;
}

abbrev pub stored_1 : StoredRun
stored_1 = record {
  run_id = "run-1";
  definition_id = "assistant";
  definition_version = "1";
  status = created;
  snapshot = some (record snapshot_1 { instructions = "" });
  version = 0;
  waiting_reason = none;
  waiting_step_id = none;
  error_code = none;
  lease_owner = none;
  lease_expires_at = none;
  created_at = 1;
  updated_at = 1;
}

pub store_1-get : get "run-1" store_1.runs ≡ some stored_1
unfolding create_run empty get put snapshot_metadata
store_1-get = refl

abbrev pub step_1 : StepRecord
step_1 = record {
  step_id = "model-1";
  run_id = "run-1";
  step_type = model;
  status = step_running;
  error_code = none;
  created_at = 2;
}

abbrev pub attempt_1 : StepAttempt
attempt_1 = record {
  attempt_id = "attempt-1";
  step_id = "model-1";
  run_id = "run-1";
  status = step_running;
  output = none;
  error = none;
  classification = none;
  error_code = none;
  model_purpose = some primary;
  usage = none;
  created_at = 2;
}

-- The worker "w" holds the lease until time 20.
abbrev pub store_2 : RunStore
store_2 = (acquire_lease "run-1" "w" 10 0 10 store_1).1

pub store_2-get :
    get "run-1" store_2.runs
    ≡ some (record stored_1 { lease_owner = some "w"; lease_expires_at = some 20 })
unfolding acquire_lease require_current create_run empty get put snapshot_metadata is_held_by_other
store_2-get = refl
