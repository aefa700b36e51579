-- ===== src/Graph/Memory.antt =====
-- The in-memory store (backend/internal/graph/memory/memory.go).
pub mod State
pub mod Upsert
pub mod Sweep
pub mod Prune
pub mod Steps
pub mod Consistent
pub mod Expiry
pub mod Taking
pub mod Batch
pub mod Facts
pub mod Withdrawal
pub mod Retraction
pub mod Assertions
pub mod Sweeps
pub mod Prunes
pub mod Runs
