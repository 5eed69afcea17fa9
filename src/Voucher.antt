-- ===== src/Voucher.antt =====
-- internal/voucher: the rules of a voucher (engine.go), and their use and settlement (service.go).
pub mod Engine
pub mod Scope
pub mod Discount
pub mod Store
pub mod Service
pub mod Settlement
pub mod Limits
pub mod Preview
mod Examples
