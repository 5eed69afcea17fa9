-- ===== src/Queue.antt =====
-- internal/queue: tasks in Redis sorted sets, retried with backoff and set aside when they fail too often.
pub mod Keys
pub mod Apart
pub mod Sets
pub mod Redis
pub mod Enqueuer
pub mod Worker
pub mod Deadline
mod Examples
