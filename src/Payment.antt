-- ===== src/Payment.antt =====
-- internal/payment: the callbacks of the payment providers, and the settlement of paid orders.
pub mod Status
pub mod Store
pub mod Settlement
pub mod Webhook
pub mod Stock
pub mod Effects
pub mod Callbacks
mod Examples
