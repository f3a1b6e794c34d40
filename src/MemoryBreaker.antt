-- ===== src/MemoryBreaker.antt =====
-- components/memory/memory_mcp_client/circuit_breaker.py: the breaker of the memory client.
pub mod Calls
pub mod Simulation
pub mod Recovery
mod Tests
