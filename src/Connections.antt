-- ===== src/Connections.antt =====
-- components/realtime/websocket_manager/connection_manager.py: WebSocket connections by connection and
-- by user, without Redis.
pub mod Manager
pub mod Dicts
pub mod Invariant
pub mod Messages
pub mod Delivery
pub mod Schedule
pub mod Reuse
mod Tests
