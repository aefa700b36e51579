-- ===== src/Graph.antt =====
-- The graph store (backend/internal/graph): the contract of backend/internal/graph/store.go and the
-- in-memory store of backend/internal/graph/memory.
pub mod Contract
pub mod Memory
pub mod Events
pub mod Vocabulary
pub mod Versioned
