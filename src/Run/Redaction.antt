-- ===== src/Run/Redaction.antt =====
-- What m_agent/_failure.py lets into a stored record.
use m_agent.Base.{String, ◌≡◌, ◌⊎◌, inl, inr, refl, true, false, Bool-cases}
use m_agent.Run.Failure.{
  contains, safe_error_codes, default_failure_code, unsafe_error_code, redacted_failure_message,
  sanitize_error_code, redact_failure_message, AdapterException, step_failure, other_exception,
  classify_exception,
}

default_safe : contains safe_error_codes default_failure_code ≡ true
unfolding contains safe_error_codes default_failure_code
default_safe = refl

default_kept : sanitize_error_code default_failure_code ≡ default_failure_code
unfolding sanitize_error_code
default_kept = rw default_safe refl

unsafe_kept : sanitize_error_code unsafe_error_code ≡ unsafe_error_code
unfolding sanitize_error_code contains safe_error_codes default_failure_code unsafe_error_code
unsafe_kept = refl

safe_kept :
    (code : String) → contains safe_error_codes code ≡ true → sanitize_error_code code ≡ code
unfolding sanitize_error_code
safe_kept code safe = rw safe refl

unsafe_replaced :
    (code : String)
    → contains safe_error_codes code ≡ false
    → sanitize_error_code code ≡ unsafe_error_code
unfolding sanitize_error_code
unsafe_replaced code unsafe = rw unsafe refl

sanitize_error_code-safe :
    (code : String)
    → (contains safe_error_codes (sanitize_error_code code) ≡ true)
      ⊎ (sanitize_error_code code ≡ unsafe_error_code)
sanitize_error_code-safe code = elim (Bool-cases (contains safe_error_codes code)) [
  | inl safe ↦ inl (rw (safe_kept code safe) safe)
  | inr unsafe ↦ inr (unsafe_replaced code unsafe)
]

sanitize_error_code-idempotent :
    (code : String) → sanitize_error_code (sanitize_error_code code) ≡ sanitize_error_code code
sanitize_error_code-idempotent code = elim (Bool-cases (contains safe_error_codes code)) [
  | inl safe ↦ let same = safe_kept code safe in rw (same, same) refl
  | inr unsafe ↦ let other = unsafe_replaced code unsafe in rw (other, unsafe_kept) refl
]

-- Whatever an adapter raises, the code that is kept is one of the safe codes or the one that
-- stands for all others, storing it again does not change it, and the message of the adapter is
-- not kept.
pub classify_exception_safe :
    (unclassified : String → String) (e : AdapterException)
    → let failure = classify_exception unclassified e in
      ((contains safe_error_codes failure.error_code ≡ true)
        ⊎ (failure.error_code ≡ unsafe_error_code))
      × (sanitize_error_code failure.error_code ≡ failure.error_code)
      × ((failure.message ≡ redacted_failure_message)
          ⊎ ((name : String) × (e ≡ other_exception name) × (failure.message ≡ unclassified name)))
unfolding classify_exception redact_failure_message
classify_exception_safe unclassified (step_failure classification code message) =
    (sanitize_error_code-safe code, sanitize_error_code-idempotent code, inl refl)
classify_exception_safe unclassified (other_exception name) =
    (inl default_safe, default_kept, inr (name, refl, refl))
