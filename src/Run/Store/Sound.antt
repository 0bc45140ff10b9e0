-- ===== src/Run/Store/Sound.antt =====
-- Every method of `InMemoryRunStore`, one by one and in any sequence, keeps the store sound.
pub mod Leases
pub mod Moves
pub mod Entries
