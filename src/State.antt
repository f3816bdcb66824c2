-- ===== src/State.antt =====
-- internal/state: the controllers' shared state. Each component is a module of its own.
pub mod NodeLock
pub mod CircuitBreaker
pub mod AuditLog
