-- ===== src/Ops.antt =====
-- src/congress_collector/ops: scripts beside the regular run.
pub mod Rearchive
