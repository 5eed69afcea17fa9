-- ===== src/Notify.antt =====
-- internal/notify: the delivery of domain events to webhooks.
pub mod Store
pub mod Dispatcher
pub mod Worker
pub mod Progress
pub mod Rounds
pub mod Replay
pub mod Coverage
pub mod Unqueued
pub mod Batch
mod Examples
