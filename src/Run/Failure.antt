-- ===== src/Run/Failure.antt =====
-- m_agent/_failure.py: error codes that may be stored, and the normal form of an exception.
-- A message is adapter text; the type name of a bare exception is a parameter.
use m_agent.Base.{String, Bool, false, List, [], ◌∷◌, ◌||◌, ◌==◌, String_eq, if◌then◌else◌}
use m_agent.Run.Records.{FailureClassification, permanent}

unfoldable pub default_failure_code : String
default_failure_code = "UNCLASSIFIED_FAILURE"

unfoldable pub unsafe_error_code : String
unsafe_error_code = "unsafe_error_code"

unfoldable pub redacted_failure_message : String
redacted_failure_message = "adapter failure diagnostic redacted"

-- `code in codes`
unfoldable pub contains : List String → String → Bool
contains [] code = false
contains (c ∷ codes) code = c == code || contains codes code

unfoldable pub safe_error_codes : List String
unfolding default_failure_code
safe_error_codes =
    default_failure_code ∷ "FROZEN_TOOL_DECLARATION_UNAVAILABLE" ∷ "COMPRESSION_CONTRACT_VIOLATION"
    ∷ "MODEL_CAPABILITY_UNSUPPORTED" ∷ "MODEL_CONTRACT_VIOLATION" ∷ "MODEL_DISPATCH_CANCELLED"
    ∷ "POLICY_ERROR" ∷ "POLICY_OUTCOME_PENDING" ∷ "effect_unconfirmed" ∷ "invalid_request"
    ∷ "lookup_broken" ∷ "lookup_rejected" ∷ "model_rejected" ∷ "model_checkpoint_unconfirmed"
    ∷ "provider_credentials_missing" ∷ "provider_request_failed" ∷ "provider_response_invalid"
    ∷ "provider_test_error" ∷ "provider_transport_error" ∷ "provider_unavailable" ∷ "rate_limited"
    ∷ "upstream_down" ∷ "upstream_unavailable" ∷ []

unfoldable pub sanitize_error_code : String → String
sanitize_error_code code = if contains safe_error_codes code then code else unsafe_error_code

unfoldable pub redact_failure_message : String → String
redact_failure_message message = redacted_failure_message

-- What an adapter may raise: a StepFailure, or any other exception, of which the code reads
-- only the name of its type.
pub data AdapterException : Type 0 where
  step_failure : FailureClassification → String → String → AdapterException
  other_exception : String → AdapterException

pub record Failure : Type 0 where
  pub classification : FailureClassification
  pub error_code : String
  pub message : String

-- The summary of a bare exception, made from the name of its type.
module _ (unclassified : String → String) where
  unfoldable pub classify_exception : AdapterException → Failure
  classify_exception (step_failure classification code message) = record {
    classification = classification;
    error_code = sanitize_error_code code;
    message = redact_failure_message message;
  }
  classify_exception (other_exception type_name) = record {
    classification = permanent;
    error_code = default_failure_code;
    message = unclassified type_name;
  }
