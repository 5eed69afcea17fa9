-- ===== src/Order.antt =====
-- The statuses of an order (internal/db/gen/models.go, internal/db/gen/orders_status.sql.go), and the
-- handlers of internal/order that change them.
pub mod Status
pub mod Store
pub mod Handlers
pub mod Transitions
mod Examples
