-- ===== src/Eval.antt =====
-- The evaluation companion (m_agent/companion/eval).
pub mod Baseline
pub mod Regression
