-- ===== src/Run/Status/Table.antt =====
-- What the table of transitions of m_agent/_status.py allows.
use m_agent.Base.{◌≡◌, ◌↔◌, refl, true, arith, ok, err}
use m_agent.Errors.{illegal_run_transition}
use m_agent.Run.Status.{
  RunStatus, created, running, waiting, succeeded, rejected, failed, cancelled, is_terminal,
  terminal_statuses, allowed_transitions, validate_transition,
}

-- A status is terminal exactly where every transition from it is refused.
is_terminal-validate_transition :
    (a : RunStatus)
    → (is_terminal a ≡ true)
      ↔ ((b : RunStatus) → validate_transition a b ≡ err illegal_run_transition)
unfolding is_terminal terminal_statuses validate_transition allowed_transitions
is_terminal-validate_transition created = (λ h. absurd (ground arith), λ h. absurd (cc (h running)))
is_terminal-validate_transition running = (λ h. absurd (ground arith), λ h. absurd (cc (h waiting)))
is_terminal-validate_transition waiting = (λ h. absurd (ground arith), λ h. absurd (cc (h running)))
is_terminal-validate_transition succeeded = (λ h b. refl, λ h. refl)
is_terminal-validate_transition rejected = (λ h b. refl, λ h. refl)
is_terminal-validate_transition failed = (λ h b. refl, λ h. refl)
is_terminal-validate_transition cancelled = (λ h b. refl, λ h. refl)

-- Zero or more moves of the table.
pub data Moves (a : RunStatus) : RunStatus → Type 0 where
  stays : Moves a a
  moves : {b c : RunStatus} → Moves a b → validate_transition b c ≡ ok tt → Moves a c
