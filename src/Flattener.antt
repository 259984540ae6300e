-- ===== src/Flattener.antt =====
-- core/flattener: flat records from telemetry, and their rate limiter.
pub mod Filter
pub mod Output
pub mod Writes
pub mod Entities
pub mod Handlers
pub mod Last
pub mod Reads
pub mod Ends
pub mod Texts
