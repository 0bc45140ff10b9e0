-- ===== src/Run/Status.antt =====
-- m_agent/_status.py: the life cycle of a Run.
pub mod Table
use m_agent.Base.{
  ℕ, ◌≡◌, ◌↔◌, Bool, true, false, List, [], ◌∷◌, arith, Eq, ◌==◌, ◌==ℕ◌, ◌||◌, Result, ok, err,
  if◌then◌else◌,
}
use m_agent.Errors.{Error, illegal_run_transition}

pub data RunStatus : Type 0 where
  created running waiting succeeded rejected failed cancelled : RunStatus

abbrev pub index : RunStatus → ℕ
index created = 0
index running = 1
index waiting = 2
index succeeded = 3
index rejected = 4
index failed = 5
index cancelled = 6

pub status_beq_iff : (a b : RunStatus) → ((index a ==ℕ index b) ≡ true) ↔ (a ≡ b)
status_beq_iff a b = ground arith

instance abbrev pub RunStatus_eq : Eq RunStatus
RunStatus_eq = record { equal = λ a b. index a ==ℕ index b; equal_iff = status_beq_iff }

-- `target in statuses`
abbrev contains : List RunStatus → RunStatus → Bool
contains [] target = false
contains (status ∷ rest) target = status == target || contains rest target

unfoldable pub terminal_statuses : List RunStatus
terminal_statuses = succeeded ∷ rejected ∷ failed ∷ cancelled ∷ []

unfoldable pub is_terminal : RunStatus → Bool
unfolding terminal_statuses
is_terminal status = contains terminal_statuses status

unfoldable pub allowed_transitions : RunStatus → List RunStatus
allowed_transitions created = running ∷ waiting ∷ rejected ∷ failed ∷ cancelled ∷ []
allowed_transitions running = succeeded ∷ rejected ∷ failed ∷ waiting ∷ cancelled ∷ []
allowed_transitions waiting = running ∷ failed ∷ cancelled ∷ []
allowed_transitions succeeded = []
allowed_transitions rejected = []
allowed_transitions failed = []
allowed_transitions cancelled = []

unfoldable pub validate_transition : RunStatus → RunStatus → Result Error (Unit {0})
unfolding allowed_transitions
validate_transition current target =
    if contains (allowed_transitions current) target then ok tt else err illegal_run_transition
