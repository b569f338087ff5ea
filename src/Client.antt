-- ===== src/Client.antt =====
-- src/client.rs: the client. Of it, the circuit breaker in Client/Breaker.antt.
mod Examples
pub mod Breaker
pub mod Cooldown
pub mod Checks
pub mod Summary
pub mod State
pub mod Setters
pub mod Middleware
pub mod Delay
pub mod Fetch
pub mod Retries
pub mod Settled
pub mod Waiting
pub mod Accepted
