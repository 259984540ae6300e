-- ===== src/Encoders.antt =====
-- core/exporter/encoders: records as JSON texts, ECS documents and occurrences.
pub mod Json
pub mod Occurrence
pub mod Ecs
