-- ===== src/Authority.antt =====
-- components/cognitive_architecture/loopctl/authority.py: decisions under a hierarchy of authorities.
pub mod State
pub mod Decisions
pub mod Lawful
pub mod Vetoes
pub mod Run
mod Tests
