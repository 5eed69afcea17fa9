-- ===== src/Resilience.antt =====
-- internal/resilience: the circuit breaker and the backoff (circuit.go), and the HTTP client over them
-- (httpwrap.go).
pub mod Floats
pub mod Breaker
pub mod Backoff
pub mod Client
pub mod Counters
pub mod Cycle
pub mod Retries
mod Examples
