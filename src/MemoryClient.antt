-- ===== src/MemoryClient.antt =====
-- components/memory/memory_mcp_client/memory_mcp_client.py, with the breaker of MemoryBreaker.
pub mod Cache
pub mod Fallback
pub mod State
pub mod Client
pub mod Schedule
pub mod Kept
pub mod Degraded
pub mod Ranking
mod Tests
