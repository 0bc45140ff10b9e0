-- ===== src/Errors.antt =====
-- The exceptions of m_agent/_errors.py and of m_agent/companion/_session.py, and Python's
-- ValueError, which validation and payload decoding raise.
pub data Error : Type 0 where
  model_capability : Error
  model_contract_violation : Error
  definition_conflict : Error
  definition_not_found : Error
  run_not_found : Error
  duplicate_run : Error
  run_store_integrity : Error
  illegal_run_transition : Error
  stale_run_version : Error
  lease_not_held : Error
  context_budget_exceeded : Error
  resolution_not_allowed : Error
  session_not_found : Error
  duplicate_session : Error
  session_claim_conflict : Error
  session_version_conflict : Error
  routing_replacement : Error
  value_error : Error
