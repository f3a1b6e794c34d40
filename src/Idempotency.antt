-- ===== src/Idempotency.antt =====
-- patterns/webhook_idempotency: store.py (the in-memory store) and middleware.py (the `idempotent`
-- wrapper).
pub mod Store
pub mod Wrapper
pub mod Schedule
pub mod Locks
pub mod Exclusion
pub mod Replay
pub mod Retry
mod Tests
