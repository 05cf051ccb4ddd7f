-- ===== src/Discovery.antt =====
-- Network discovery: backend/app/discovery.
pub mod Contracts
pub mod ResultStates
pub mod MultiTransport
pub mod Scopes
pub mod Fanout
pub mod TransportPolicy
pub mod Execution
