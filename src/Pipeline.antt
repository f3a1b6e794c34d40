-- ===== src/Pipeline.antt =====
-- components/orchestration/pipeline_executor/executor.py.
pub mod State
pub mod Sort
pub mod Levels
pub mod Run
mod Tests
