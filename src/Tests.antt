-- ===== src/Tests.antt =====
-- A concrete serialization, and the theorems at concrete inputs.
pub mod Coding
pub mod Layout
pub mod Sample
pub mod Runs
pub mod Sessions
pub mod Contract
pub mod Control
pub mod Tools
pub mod Plans
pub mod Policies
pub mod Routing
pub mod Submissions
pub mod Reports
