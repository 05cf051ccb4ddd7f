-- ===== src/Transports.antt =====
-- The transport layer: backend/app/transports.
pub mod CircuitBreaker
pub mod Retry
pub mod ConnectionPool
