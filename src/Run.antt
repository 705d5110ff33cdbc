-- ===== src/Run.antt =====
-- The run-time library of run/.
pub mod Ring
