-- ===== src/Memory.antt =====
-- internal/infra/persistence/memory: the stores that live in memory.
pub mod Intents
pub mod Nodes
