-- ===== src/Tests.antt =====
-- Runs and witnesses on concrete inputs.
mod Numbers
mod Codec
pub mod Journal
pub mod Limits
pub mod Versions
pub mod Store
pub mod Search
pub mod Alternatives
pub mod Messages
pub mod Past
pub mod Suppressed
pub mod Tickets
pub mod Buckets
pub mod Deliveries
