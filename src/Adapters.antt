-- ===== src/Adapters.antt =====
-- The adapters that implement the ports over the libraries: shared/adapters.
pub mod Drivers
pub mod Breaker
pub mod MessageRepository
pub mod IdempotencyService
pub mod MessageQueue
