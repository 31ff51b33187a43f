-- ===== src/Risk.antt =====
-- The risk tier, scripts/agent/risk: the account, the loss monitor, the risk engine, the kill switch and
-- its journal.
pub mod Reasons
pub mod Exposure
pub mod Engine
pub mod Ledger
pub mod Kill
pub mod Pdt
pub mod Loss
pub mod Account
