-- ===== src/Encoders/Occurrence.antt =====
-- core/exporter/encoders/occurrence.go: records as events, kept in a pool for each container, and the
-- occurrences that they give rise to.
pub mod Event
pub mod Writer
pub mod Pool
pub mod Alerts
pub mod Conserve
pub mod Works
pub mod Bounded
pub mod Encoder
pub mod Independent
pub mod Notes
pub mod First
