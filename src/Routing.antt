-- ===== src/Routing.antt =====
-- m_agent/companion/routing/_fallback.py: the fallback before a Run is created, and the replacement
-- of a Run that has ended. The router, with its catalog and its evidence, is a function of a policy.
pub mod Fallback
pub mod Replacement
use m_agent.Base.{
  ℕ, ◌+◌, String, Bool, true, false, Option, none, some, List, [], ◌∷◌, ◌&&◌, ◌||◌, not, ◌==◌,
  ◌==ℕ◌, ltb, leb, length, String_eq, Result, ok, err, if◌then◌else◌,
}
use m_agent.Base.Fallible.{◌>>=◌, ◌>>◌, check}
use Prim.Native.Char.{Char, code}
use Prim.Native.String as Text
use m_agent.Errors.{Error, value_error, routing_replacement}
use m_agent.Run.Status.{is_terminal}
use m_agent.Run.Records.{RunRecord}

pub data RoutingOutcome : Type 0 where
  selected no_compatible_variant policy_unsatisfied evidence_unavailable catalog_conflict :
      RoutingOutcome
  invalid_policy : RoutingOutcome

pub record RoutingPolicyIdentity : Type 0 where
  pub policy_id : String
  pub version : String

-- Of a `RoutingResult`, what the fallback reads; `decision_id` is that of its decision.
pub record RoutingResult : Type 0 where
  pub outcome : RoutingOutcome
  pub reason_code : String
  pub decision_id : Option String

-- A frozen sequence; of a policy its identity, by which the policies of a sequence differ.
pub record FallbackSequence : Type 0 where
  pub policies : List RoutingPolicyIdentity
  pub max_attempts : ℕ

abbrev pub same_identity : RoutingPolicyIdentity → RoutingPolicyIdentity → Bool
same_identity a b = a.policy_id == b.policy_id && a.version == b.version

abbrev is_among : RoutingPolicyIdentity → List RoutingPolicyIdentity → Bool
is_among x [] = false
is_among x (y ∷ ys) = same_identity x y || is_among x ys

-- `len(identities) != len(self.policies)`
unfoldable pub has_duplicate : List RoutingPolicyIdentity → Bool
has_duplicate [] = false
has_duplicate (x ∷ xs) = is_among x xs || has_duplicate xs

-- `FallbackSequence(...)` with its validation
unfoldable pub make_sequence : List RoutingPolicyIdentity → ℕ → Result Error FallbackSequence
unfolding has_duplicate
make_sequence policies max_attempts =
    if max_attempts ==ℕ 0
      || length policies ==ℕ 0
      || ltb max_attempts (length policies)
      || has_duplicate policies
    then err value_error
    else ok (record { policies = policies; max_attempts = max_attempts })

pub record FallbackAttempt : Type 0 where
  pub attempt_index : ℕ
  pub policy_identity : RoutingPolicyIdentity
  pub outcome : RoutingOutcome
  pub reason_code : String
  pub decision_id : Option String

abbrev pub is_selected : RoutingOutcome → Bool
is_selected selected = true
is_selected _ = false

unfoldable pub attempt_of : ℕ → RoutingPolicyIdentity → RoutingResult → FallbackAttempt
attempt_of index policy result = record {
  attempt_index = index;
  policy_identity = policy;
  outcome = result.outcome;
  reason_code = result.reason_code;
  decision_id = result.decision_id;
}

-- The loop of `execute_pre_run_fallback`: the attempts, and the result that was selected.
unfoldable pub try_policies :
    (RoutingPolicyIdentity → RoutingResult)
    → ℕ
    → List RoutingPolicyIdentity
    → List FallbackAttempt × Option RoutingResult
unfolding attempt_of
try_policies select index [] = ([], none)
try_policies select index (policy ∷ policies) =
    let result = select policy in
    let rest = try_policies select (index + 1) policies in
    if is_selected result.outcome
    then (attempt_of index policy result ∷ [], some result)
    else (attempt_of index policy result ∷ rest.0, rest.1)

pub record PreRunFallbackResult : Type 0 where
  pub attempts : List FallbackAttempt
  pub outcome : RoutingOutcome
  pub reason_code : String
  pub selected : Option RoutingResult
  pub exhausted : Bool

abbrev last_outcome : RoutingOutcome → List FallbackAttempt → RoutingOutcome
last_outcome outcome [] = outcome
last_outcome outcome (x ∷ xs) = last_outcome x.outcome xs

-- The sequence is not empty, so there is a last attempt.
abbrev pub fallback_result : List FallbackAttempt × Option RoutingResult → PreRunFallbackResult
fallback_result (attempts, some result) = record {
  attempts = attempts;
  outcome = result.outcome;
  reason_code = "FALLBACK_SELECTED";
  selected = some result;
  exhausted = false;
}
fallback_result (attempts, none) = record {
  attempts = attempts;
  outcome = last_outcome invalid_policy attempts;
  reason_code = "FALLBACK_EXHAUSTED";
  selected = none;
  exhausted = true;
}

unfoldable pub execute_pre_run_fallback :
    (RoutingPolicyIdentity → RoutingResult) → FallbackSequence → PreRunFallbackResult
unfolding try_policies
execute_pre_run_fallback select sequence = fallback_result (try_policies select 1 sequence.policies)

-- Of a `RoutingDecisionBinding`, what a replacement reads; its identifiers are not empty.
pub record RoutingDecisionBinding : Type 0 where
  pub decision_id : String
  pub run_id : String
  pub variant_id : String
  pub variant_version : String

pub record ReplacementRunRecord : Type 0 where
  pub predecessor_run_id : String
  pub successor_run_id : String
  pub reason_code : String
  pub predecessor_variant_id : String
  pub predecessor_variant_version : String
  pub predecessor_decision_id : String
  pub successor_variant_id : String
  pub successor_variant_version : String
  pub successor_decision_id : String

abbrev is_upper : Char → Bool
is_upper c = leb 65 (code c) && leb (code c) 90

abbrev is_word : Char → Bool
is_word c = is_upper c || leb 48 (code c) && leb (code c) 57 || code c ==ℕ 95

unfoldable pub all_word : String → Bool
all_word Text.[] = true
all_word (Text.◌∷◌ c s) = is_word c && all_word s

-- `_REASON_CODE.fullmatch(value)`
unfoldable pub is_reason_code : String → Bool
unfolding all_word
is_reason_code Text.[] = false
is_reason_code (Text.◌∷◌ c s) = is_upper c && all_word s

unfoldable pub register_replacement_run :
    RunRecord
    → RunRecord
    → RoutingDecisionBinding
    → RoutingDecisionBinding
    → String
    → Result Error ReplacementRunRecord
unfolding is_terminal is_reason_code
register_replacement_run predecessor successor predecessor_binding successor_binding reason_code =
    check (predecessor_binding.run_id == predecessor.run_id) routing_replacement
    >> check (successor_binding.run_id == successor.run_id) routing_replacement
    >> check (not (successor.run_id == predecessor.run_id)) routing_replacement
    >> check (is_terminal predecessor.status) routing_replacement
    >> check (not (successor_binding.decision_id == predecessor_binding.decision_id))
        routing_replacement
    >> check (is_reason_code reason_code) value_error
    >> ok (record {
      predecessor_run_id = predecessor.run_id;
      successor_run_id = successor.run_id;
      reason_code = reason_code;
      predecessor_variant_id = predecessor_binding.variant_id;
      predecessor_variant_version = predecessor_binding.variant_version;
      predecessor_decision_id = predecessor_binding.decision_id;
      successor_variant_id = successor_binding.variant_id;
      successor_variant_version = successor_binding.variant_version;
      successor_decision_id = successor_binding.decision_id;
    })
