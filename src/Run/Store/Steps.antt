-- ===== src/Run/Store/Steps.antt =====
-- Steps, attempts, checkpoints and policy decisions in `InMemoryRunStore`.
use m_agent.Base.{
  ℕ, String, Bool, true, false, Option, none, some, List, [], ◌∷◌, ◌++◌, ◌==◌, ◌&&◌, ◌||◌, not,
  is_some, leb, length, keep, Eq, ◌==ℕ◌, ◌≡◌, ◌↔◌, arith, String_eq, Result, ok, err, if◌then◌else◌,
}
use m_agent.Base.Dict.{put, get_or}
use m_agent.Base.Fallible
use m_agent.Base.Exec.{◌>>=◌, ◌>>◌, pure, gets, modify, raise_if}
use m_agent.Errors.{Error, value_error}
use m_agent.Run.Snapshot.{ModelPurpose, primary, context_compression, output_repair}
use m_agent.Run.Records.{
  StepRecord, StepType, StepAttempt, StepCheckpoint, PolicyDecisionRecord, model,
}
use m_agent.Run.Payload.{
  Serialization, StoredAttempt, StoredCheckpoint, attempt_to_record, checkpoint_to_record,
  split_attempt, split_checkpoint, attempt_output, attempt_error, checkpoint_output,
}
use m_agent.Run.Store.{
  RunStore, Action, require_current, check_lease, check_lease_if, put_payloads, read_payload,
}

abbrev pub purpose_index : ModelPurpose → ℕ
purpose_index primary = 0
purpose_index context_compression = 1
purpose_index output_repair = 2

pub purpose_beq_iff :
    (a b : ModelPurpose) → ((purpose_index a ==ℕ purpose_index b) ≡ true) ↔ (a ≡ b)
purpose_beq_iff a b = ground arith

instance abbrev pub ModelPurpose_eq : Eq ModelPurpose
ModelPurpose_eq = record {
  equal = λ a b. purpose_index a ==ℕ purpose_index b;
  equal_iff = purpose_beq_iff;
}

-- The loop that replaces the first entry with the same key, and appends where there is none.
unfoldable pub upsert {ℓ} : {A : Type ℓ} → (A → String) → A → List A → List A
upsert key x [] = x ∷ []
upsert key x (y ∷ ys) = if key y == key x then x ∷ ys else y ∷ upsert key x ys

unfoldable pub put_step : StepRecord → RunStore → RunStore
unfolding upsert
put_step step s = record s {
  steps = put step.run_id (upsert (λ x. x.step_id) step (get_or step.run_id s.steps [])) s.steps;
}

unfoldable pub record_step : StepRecord → ℕ → Option String → ℕ → Action StepRecord
unfolding put_step
record_step step expected_version lease_owner now = do
  current ← require_current step.run_id expected_version
  check_lease_if current lease_owner now
  modify (put_step step)
  pure step

unfoldable pub record_attempt :
    Serialization → StepAttempt → ℕ → Option String → ℕ → Action StepAttempt
unfolding split_attempt upsert put_payloads attempt_to_record
record_attempt p attempt expected_version lease_owner now = do
  current ← require_current attempt.run_id expected_version
  check_lease_if current lease_owner now
  let (stored, payloads) = split_attempt p attempt
  modify λ s. record s {
    attempts =
        put attempt.run_id (upsert (λ x. x.attempt_id) stored (get_or attempt.run_id s.attempts []))
          s.attempts;
  }
  put_payloads attempt.run_id payloads
  pure (attempt_to_record stored attempt.output attempt.error)

abbrev is_model : StepType → Bool
is_model model = true
is_model _ = false

-- The arguments are one MODEL step with its attempt.
unfoldable pub is_reservation : StepRecord → StepAttempt → Bool
is_reservation step attempt =
    is_model step.step_type
    && ((step.run_id == attempt.run_id)
        && ((step.step_id == attempt.step_id) && is_some attempt.model_purpose))

-- `stored.model_purpose is not None`
unfoldable pub is_model_attempt : StoredAttempt → Bool
is_model_attempt a = is_some a.model_purpose

abbrev has_purpose : Option ModelPurpose → Option ModelPurpose → Bool
has_purpose (some a) (some b) = a == b
has_purpose _ _ = false

-- A model attempt with the purpose that is asked for.
unfoldable pub is_purpose_attempt : Option ModelPurpose → StoredAttempt → Bool
is_purpose_attempt purpose a = has_purpose a.model_purpose purpose

-- `maximum is not None and count >= maximum`
unfoldable pub is_exhausted : Option ℕ → ℕ → Bool
is_exhausted none count = false
is_exhausted (some maximum) count = leb maximum count

unfoldable pub budget_exhausted :
    Option ℕ → Option ℕ → Option ModelPurpose → List StoredAttempt → Bool
unfolding is_model_attempt is_purpose_attempt is_exhausted
budget_exhausted run_max purpose_max purpose attempts =
    is_exhausted run_max (length (keep is_model_attempt attempts))
    || is_exhausted purpose_max (length (keep (is_purpose_attempt purpose) attempts))

-- `self._attempts.setdefault(run_id, [])`
unfoldable pub default_attempts : String → RunStore → RunStore
default_attempts run_id s = record s {
  attempts = put run_id (get_or run_id s.attempts []) s.attempts;
}

unfoldable pub append_attempt : String → StoredAttempt → RunStore → RunStore
append_attempt run_id stored s = record s {
  attempts = put run_id (get_or run_id s.attempts [] ++ stored ∷ []) s.attempts;
}

abbrev pub reserve_if : Bool → StepRecord → StepAttempt → StoredAttempt → Action Bool
reserve_if true step attempt stored = pure false
reserve_if false step attempt stored = do
  modify (put_step step)
  modify (append_attempt attempt.run_id stored)
  pure true

unfoldable pub reserve_model_attempt :
    Serialization → StepRecord → StepAttempt → Option ℕ → Option ℕ → ℕ → String → ℕ → Action Bool
unfolding is_reservation default_attempts budget_exhausted put_step append_attempt split_attempt
reserve_model_attempt p step attempt run_max purpose_max expected_version lease_owner now = do
  raise_if (not (is_reservation step attempt)) value_error
  current ← require_current attempt.run_id expected_version
  check_lease current lease_owner now
  modify (default_attempts attempt.run_id)
  attempts ← gets (λ s. get_or attempt.run_id s.attempts [])
  reserve_if (budget_exhausted run_max purpose_max attempt.model_purpose attempts) step attempt
      (split_attempt p attempt).0

unfoldable pub record_checkpoint :
    Serialization → StepCheckpoint → ℕ → Option String → ℕ → Action StepCheckpoint
unfolding split_checkpoint put_payloads checkpoint_to_record
record_checkpoint p checkpoint expected_version lease_owner now = do
  current ← require_current checkpoint.run_id expected_version
  check_lease_if current lease_owner now
  let (stored, payloads) = split_checkpoint p checkpoint
  modify λ s. record s {
    checkpoints =
        put checkpoint.run_id (get_or checkpoint.run_id s.checkpoints [] ++ stored ∷ [])
          s.checkpoints;
  }
  put_payloads checkpoint.run_id payloads
  pure (checkpoint_to_record stored checkpoint.output)

unfoldable pub get_steps : String → RunStore → List StepRecord
get_steps run_id s = get_or run_id s.steps []

-- The comprehension stops at the first payload that cannot be decoded.
unfoldable pub read_attempts :
    Serialization → RunStore → String → List StoredAttempt → Result Error (List StepAttempt)
unfolding attempt_to_record read_payload
read_attempts p s run_id [] = ok []
read_attempts p s run_id (a ∷ rest) =
    Fallible.◌>>=◌ (read_payload p s run_id (attempt_output a.attempt_id)) λ output.
      Fallible.◌>>=◌ (read_payload p s run_id (attempt_error a.attempt_id)) λ error.
        Fallible.◌>>=◌ (read_attempts p s run_id rest)
          λ records. ok (attempt_to_record a output error ∷ records)

unfoldable pub get_attempts : Serialization → String → RunStore → Result Error (List StepAttempt)
unfolding read_attempts
get_attempts p run_id s = read_attempts p s run_id (get_or run_id s.attempts [])

-- A checkpoint without an output is refused by its validation.
abbrev to_checkpoint : StoredCheckpoint → Option String → Result Error StepCheckpoint
to_checkpoint c none = err value_error
to_checkpoint c (some output) = ok (checkpoint_to_record c output)

unfoldable pub read_checkpoints :
    Serialization → RunStore → String → List StoredCheckpoint → Result Error (List StepCheckpoint)
unfolding checkpoint_to_record read_payload
read_checkpoints p s run_id [] = ok []
read_checkpoints p s run_id (c ∷ rest) =
    Fallible.◌>>=◌ (read_payload p s run_id (checkpoint_output c.step_id)) λ output.
      Fallible.◌>>=◌ (to_checkpoint c output) λ checkpoint.
        Fallible.◌>>=◌ (read_checkpoints p s run_id rest) λ records. ok (checkpoint ∷ records)

unfoldable pub get_checkpoints :
    Serialization → String → RunStore → Result Error (List StepCheckpoint)
unfolding read_checkpoints
get_checkpoints p run_id s = read_checkpoints p s run_id (get_or run_id s.checkpoints [])

unfoldable pub record_policy_decision :
    PolicyDecisionRecord → ℕ → Option String → ℕ → Action PolicyDecisionRecord
record_policy_decision decision expected_version lease_owner now = do
  current ← require_current decision.run_id expected_version
  check_lease_if current lease_owner now
  modify λ s. record s {
    policy_decisions =
        put decision.run_id (get_or decision.run_id s.policy_decisions [] ++ decision ∷ [])
          s.policy_decisions;
  }
  pure decision

unfoldable pub get_policy_decisions : String → RunStore → List PolicyDecisionRecord
get_policy_decisions run_id s = get_or run_id s.policy_decisions []
