-- ===== src/Run.antt =====
-- The durable Run of m_agent: its life cycle, its records and the in-memory RunStore.
pub mod Status
pub mod Snapshot
pub mod Records
pub mod Failure
pub mod Payload
pub mod Resolution
pub mod Redaction
pub mod Store
