-- ===== src/Exec/Preflight.antt =====
-- scripts/agent/execution_preflight.py, the ladder of an opening order.
pub mod Inputs
pub mod Stages
pub mod Ladder
pub mod Tests
