-- ===== src/Shipping.antt =====
-- internal/shipping: shipments, their tracking events and the order that follows them (service.go,
-- statusmap.go), and the courier callbacks (webhook.go).
pub mod Status
pub mod Store
pub mod Service
pub mod Webhook
pub mod Progress
pub mod Appended
pub mod Route
pub mod Sync
pub mod Stand
pub mod Stuck
pub mod Callbacks
mod Examples
