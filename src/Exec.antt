-- ===== src/Exec.antt =====
-- The execution tier: orders, capability tokens, the broker chokepoint and the flatten actuator.
pub mod Order
pub mod Token
pub mod Broker
pub mod Kill
pub mod Reasons
pub mod Quote
pub mod Pricing
pub mod Fees
pub mod Realism
pub mod Preflight
pub mod World
pub mod OrderState
