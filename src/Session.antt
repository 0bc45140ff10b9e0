-- ===== src/Session.antt =====
-- The sessions of m_agent/companion: their records, the store in memory and the runner over it.
pub mod Model
pub mod Store
pub mod Runner
pub mod Completion
pub mod Submission
pub mod Resumption
pub mod Effect
pub mod Outcomes
pub mod Invariant
pub mod History
pub mod Held
pub mod Commit
pub mod Pages
pub mod Contract
pub mod Refinement
