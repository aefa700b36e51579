-- ===== src/Audit.antt =====
-- The tamper-evident audit log (backend/internal/audit/audit.go).
pub mod Storable
pub mod Stored
pub mod Log
pub mod Chain
pub mod Writing
pub mod Evidence
